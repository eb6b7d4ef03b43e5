-- ===== src/Stt/Heard.antt =====
-- Which transcripts make up the text of a stream (pkg/stt/deepgram_stream.go), against a description that does not use
-- the handler's own filter.
use a2text.Base.{
  true, false, Bool-cases, Option, none, some, List, [], ◌∷◌, ◌++◌, append_assoc, append-nil, Text,
  is_empty, trim_space, ◌≡◌, ◌≢◌, refl, ap, ◌∙◌, sym, subst, arith, ◌⊎◌, inl, inr,
}
use a2text.Stt.DeepgramStream.{
  Message, Wake, Event, Handler, new_handler, handle_final, final_of, add, handle_message, on_wake,
  on_event, run, join, text,
}

-- The transcripts that a sequence of events makes count: of each final message that comes before the wait ends, the
-- first alternative without its outer white space, if anything is left of it.
pub data IsHeard : List Event → List Text → Type 0 where
  no_events : IsHeard [] []
  final :
      {m : Message} {t : Text} {ts heard : List Text} {es : List Event}
      → m.alternatives ≡ t ∷ ts
      → m.is_final ≡ true
      → trim_space t ≢ []
      → IsHeard es heard
      → IsHeard (Event.message (some m) ∷ es) (trim_space t ∷ heard)
  blank :
      {m : Message} {t : Text} {ts heard : List Text} {es : List Event}
      → m.alternatives ≡ t ∷ ts
      → trim_space t ≡ []
      → IsHeard es heard
      → IsHeard (Event.message (some m) ∷ es) heard
  interim :
      {m : Message} {heard : List Text} {es : List Event}
      → m.is_final ≡ false
      → IsHeard es heard
      → IsHeard (Event.message (some m) ∷ es) heard
  no_alternative :
      {m : Message} {heard : List Text} {es : List Event}
      → m.alternatives ≡ []
      → IsHeard es heard
      → IsHeard (Event.message (some m) ∷ es) heard
  no_message :
      {heard : List Text} {es : List Event}
      → IsHeard es heard
      → IsHeard (Event.message none ∷ es) heard
  failure :
      {heard : List Text} {es : List Event}
      → IsHeard es heard
      → IsHeard (Event.server_error ∷ es) heard
  closing :
      {heard : List Text} {es : List Event}
      → IsHeard es heard
      → IsHeard (Event.close_response ∷ es) heard
  other :
      {heard : List Text} {es : List Event}
      → IsHeard es heard
      → IsHeard (Event.other_event ∷ es) heard
  draining :
      {heard : List Text} {es : List Event}
      → IsHeard es heard
      → IsHeard (Event.drain_begins ∷ es) heard
  prolonged :
      {heard : List Text} {es : List Event}
      → IsHeard es heard
      → IsHeard (Event.wake Wake.final_signal ∷ es) heard
  wait_ended : {k : Wake} {es : List Event} → k ≢ Wake.final_signal → IsHeard (Event.wake k ∷ es) []

-- A text is some texts in their order with one space between each two.
pub data IsSpaced : List Text → Text → Type 0 where
  nothing : IsSpaced [] []
  one : {t : Text} → IsSpaced (t ∷ []) t
  more :
      {t u rest : Text} {us : List Text}
      → IsSpaced (u ∷ us) rest
      → IsSpaced (t ∷ u ∷ us) (t ++ 32 ∷ rest)

join-IsSpaced : (ts : List Text) → IsSpaced ts (join ts)
unfolding join
join-IsSpaced [] = IsSpaced.nothing
join-IsSpaced (t ∷ []) = IsSpaced.one
join-IsSpaced (t ∷ u ∷ us) = IsSpaced.more (join-IsSpaced (u ∷ us))

add-ended :
    (o : Option Text) (h : Handler)
    → h.drain_ended ≡ true
    → ((add o h).finals ≡ h.finals) × ((add o h).drain_ended ≡ true)
unfolding add handle_final
add-ended none h e = (refl, e)
add-ended (some t) h e = (rw e refl, e)

finals-ended : (es : List Event) (h : Handler) → h.drain_ended ≡ true → (run es h).finals ≡ h.finals
unfolding run on_event handle_message on_wake
finals-ended [] h e = refl
finals-ended (Event.message none ∷ es) h e = finals-ended es h e
finals-ended (Event.message (some m) ∷ es) h e =
    let (same, still) = add-ended (final_of m.alternatives m.is_final) h e in
    finals-ended es (add (final_of m.alternatives m.is_final) h) still ∙ same
finals-ended (Event.server_error ∷ es) h e = finals-ended es h e
finals-ended (Event.close_response ∷ es) h e = finals-ended es _ e
finals-ended (Event.other_event ∷ es) h e = finals-ended es h e
finals-ended (Event.drain_begins ∷ es) h e = finals-ended es _ e
finals-ended (Event.wake Wake.final_signal ∷ es) h e = finals-ended es _ e
finals-ended (Event.wake Wake.close_seen ∷ es) h e = finals-ended es _ refl
finals-ended (Event.wake Wake.hard_cap ∷ es) h e = finals-ended es _ refl
finals-ended (Event.wake Wake.quiet ∷ es) h e = finals-ended es _ refl

List-cases : (ts : List Text) → (ts ≡ []) ⊎ ((t : Text) × (us : List Text) × (ts ≡ t ∷ us))
List-cases [] = inl refl
List-cases (t ∷ us) = inr (t, us, refl)

is_empty-true : (t : Text) → is_empty t ≡ true → t ≡ []
is_empty-true [] h = refl
is_empty-true (c ∷ cs) h = ground arith

is_empty-false : (t : Text) → is_empty t ≡ false → t ≢ []
is_empty-false t h n = ground (arith, h, n)

-- What the handler makes of a message: it is skipped for a reason, or its text is added.
final_of-cases :
    (m : Message) {heard : List Text} {es : List Event}
    → IsHeard es heard
    → ((final_of m.alternatives m.is_final ≡ none) × IsHeard (Event.message (some m) ∷ es) heard)
      ⊎ ((t : Text) × (final_of m.alternatives m.is_final ≡ some t)
          × IsHeard (Event.message (some m) ∷ es) (t ∷ heard))
unfolding final_of
final_of-cases m rest = elim (List-cases m.alternatives) [
  | inl a ↦ inl (rw (a, final_of) refl, IsHeard.no_alternative a rest)
  | inr (t, ts, a) ↦ elim (Bool-cases (is_empty (trim_space t))) [
    | inl e ↦ inl (rw (a, final_of, e) refl, IsHeard.blank a (is_empty-true (trim_space t) e) rest)
    | inr e ↦ elim (Bool-cases m.is_final) [
      | inl f ↦ inr (
        trim_space t,
        rw (a, final_of, e, f) refl,
        IsHeard.final a f (is_empty-false (trim_space t) e) rest,
      )
      | inr f ↦ inl (rw (a, final_of, e, f) refl, IsHeard.interim f rest)
    ]
  ]
]

-- The finals of a handler grow by what is heard.
Grows : List Event → Type 0
Grows es =
    (heard : List Text) × IsHeard es heard
    × ((h : Handler) → h.drain_ended ≡ false → (run es h).finals ≡ h.finals ++ heard)

finals-run : (es : List Event) → Grows es
unfolding run on_event handle_message on_wake Grows add handle_final
finals-run [] = ([], IsHeard.no_events, λ h e. sym (append-nil h.finals))
finals-run (Event.message none ∷ es) =
    let (ts, i, g) = finals-run es in (ts, IsHeard.no_message i, g)
finals-run (Event.message (some m) ∷ es) =
    let (ts, i, g) = finals-run es in
    elim (final_of-cases m i) [
      | inl (n, j) ↦ (ts, j, λ h e. ap (λ o. (run es (add o h)).finals) n ∙ g h e)
      | inr (t, n, j) ↦ (
        t ∷ ts,
        j,
        λ h e.
            ap (λ o. (run es (add o h)).finals) n
            ∙ g (handle_final t h) (still t h e)
            ∙ added t ts h e,
      )
    ]
  where
    still :
        (t : Text) (h : Handler) → h.drain_ended ≡ false → (handle_final t h).drain_ended ≡ false
    still t h e = e

    added :
        (t : Text) (ts : List Text) (h : Handler)
        → h.drain_ended ≡ false
        → (handle_final t h).finals ++ ts ≡ h.finals ++ (t ∷ ts)
    added t ts h e = rw e (append_assoc h.finals (t ∷ []) ts)
finals-run (Event.server_error ∷ es) = let (ts, i, g) = finals-run es in (ts, IsHeard.failure i, g)
finals-run (Event.close_response ∷ es) =
    let (ts, i, g) = finals-run es in (ts, IsHeard.closing i, λ h e. g _ e)
finals-run (Event.other_event ∷ es) = let (ts, i, g) = finals-run es in (ts, IsHeard.other i, g)
finals-run (Event.drain_begins ∷ es) =
    let (ts, i, g) = finals-run es in (ts, IsHeard.draining i, λ h e. g _ e)
finals-run (Event.wake Wake.final_signal ∷ es) =
    let (ts, i, g) = finals-run es in (ts, IsHeard.prolonged i, λ h e. g _ e)
finals-run (Event.wake Wake.close_seen ∷ es) = (
  [],
  IsHeard.wait_ended (λ n. ground (arith, n)),
  λ h e. finals-ended es _ refl ∙ sym (append-nil h.finals),
)
finals-run (Event.wake Wake.hard_cap ∷ es) = (
  [],
  IsHeard.wait_ended (λ n. ground (arith, n)),
  λ h e. finals-ended es _ refl ∙ sym (append-nil h.finals),
)
finals-run (Event.wake Wake.quiet ∷ es) = (
  [],
  IsHeard.wait_ended (λ n. ground (arith, n)),
  λ h e. finals-ended es _ refl ∙ sym (append-nil h.finals),
)

-- The text of a stream is the final transcripts that arrive before the wait ends, trimmed, without the empty ones, in
-- their order and with a space between each two. What arrives later is dropped.
pub text-run :
    (es : List Event)
    → (heard : List Text) × IsHeard es heard × IsSpaced heard (text (run es new_handler))
unfolding text new_handler Grows
text-run es =
    let (ts, i, g) = finals-run es in
    (
      ts,
      i,
      subst (λ (fs : List Text). IsSpaced ts (join fs)) (sym (g new_handler refl))
          (join-IsSpaced ts),
    )
