-- ===== src/Daemon/Debounce.antt =====
-- `acceptToggle` of internal/infra/daemon/daemon.go: the debounce of toggles.
use a2text.Base.{
  ℕ, ◌+◌, ◌-◌, ◌≤◌, ◌<◌, Bool, true, false, Option, none, some, List, [], ◌∷◌, ◌≡◌, ◌⊎◌, arith, ltb,
  if◌then◌else◌,
}
use a2text.Domain.{State, is_recording}

-- In nanoseconds.
abbrev toggle_min_interval : ℕ
toggle_min_interval = 500_000_000

-- `time.Since(lastToggleAt) < toggleMinInterval`; the zero time, `none`, lies centuries back.
within_interval : ℕ → Option ℕ → Bool
within_interval now none = false
within_interval now (some t) = ltb (now - t) toggle_min_interval

-- Whether the toggle is to be processed, and the new `lastToggleAt`. The clock is read twice, as
-- `now` for the test and as `stamp` for the mark.
unfoldable pub accept_toggle : State → ℕ → ℕ → Option ℕ → Bool × Option ℕ
unfolding within_interval
accept_toggle s now stamp last =
    if is_recording s
    then (true, last)
    else if within_interval now last
    then (false, last)
    else (true, some stamp)

-- A toggle that comes in at a state, with the two readings of the clock.
pub record Attempt : Type 0 where
  pub state : State
  pub now : ℕ
  pub stamp : ℕ

-- The stamps of the accepted toggles that find no recording.
pub starts_of : Option ℕ → List Attempt → List ℕ
starts_of last [] = []
starts_of last (a ∷ rest) =
    let (accepted, last') = accept_toggle a.state a.now a.stamp last in
    let later = starts_of last' rest in
    if accepted then if is_recording a.state then later else a.stamp ∷ later else later

-- Each stamp comes at least an interval after the one before.
abbrev pub IsSpaced : Option ℕ → List ℕ → Type 0
IsSpaced last [] = Unit
IsSpaced none (t ∷ ts) = IsSpaced (some t) ts
IsSpaced (some u) (t ∷ ts) = (u + toggle_min_interval ≤ t) × IsSpaced (some t) ts

abbrev IsForward : List Attempt → Type 0
IsForward [] = Unit
IsForward (a ∷ rest) = (a.now ≤ a.stamp) × IsForward rest

-- Over any sequence of toggles, in whatever states they come, the accepted ones that do not find a
-- recording are at least half a second apart, if no clock runs backwards within a call.
pub starts_of-IsSpaced :
    (last : Option ℕ) (attempts : List Attempt)
    → IsForward attempts
    → IsSpaced last (starts_of last attempts)
unfolding starts_of accept_toggle
starts_of-IsSpaced last [] f = tt
starts_of-IsSpaced none (a ∷ rest) f =
    ground (arith, starts_of-IsSpaced (some a.stamp) rest f.1, starts_of-IsSpaced none rest f.1)
starts_of-IsSpaced (some t) (a ∷ rest) f =
    ground (arith, starts_of-IsSpaced (some a.stamp) rest f.1, starts_of-IsSpaced (some t) rest f.1)

-- A toggle is refused exactly if it finds no recording and comes within the interval after the last
-- mark; the mark moves exactly if the toggle is accepted and finds no recording.
accept_toggle_cases :
    (s : State) (now stamp : ℕ) (last : Option ℕ)
    → ((accept_toggle s now stamp last ≡ (false, last))
        × (is_recording s ≡ false)
        × ((t : ℕ) × (last ≡ some t) × (now - t < toggle_min_interval)))
      ⊎ ((accept_toggle s now stamp last ≡ (true, last)) × (is_recording s ≡ true))
      ⊎ ((accept_toggle s now stamp last ≡ (true, some stamp)) × (is_recording s ≡ false))
unfolding accept_toggle
accept_toggle_cases s now stamp none = ground arith
accept_toggle_cases s now stamp (some t) = ground arith
