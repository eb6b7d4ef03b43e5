-- ===== src/Daemon/Turns.antt =====
-- In which order the hold gate decides, and that every decision is dispatched at most once
-- (internal/infra/daemon/hold_gate.go).
use a2text.Base.{
  ◌+◌, ◌-◌, Bool, true, false, ◌&&◌, Bool-cases, List, [], ◌∷◌, ◌++◌, ◌≡◌, refl, sym, subst, arith,
  ltb, inl, inr, if◌then◌else◌,
}
use a2text.Daemon.HoldGate.{
  HoldGate, Dispatch, press_dispatch, stop_dispatch, on_press, fire, on_release, presses_in,
  stops_in, Threads, Op, press, arm, callback, send_press, send_stop, release, decide, step, run,
}

-- Press and stop in turn; the flags say whether a press has been decided and no stop since, before and after.
abbrev pub TakesTurns : Bool → List Dispatch → Bool → Type 0
TakesTurns held [] now = held ≡ now
TakesTurns false (press_dispatch ∷ ds) now = TakesTurns true ds now
TakesTurns true (stop_dispatch ∷ ds) now = TakesTurns false ds now
TakesTurns _ (d ∷ ds) now = ⊥

TakesTurns-append :
    (a b c : Bool) (xs ys : List Dispatch)
    → TakesTurns a xs b
    → TakesTurns b ys c
    → TakesTurns a (xs ++ ys) c
TakesTurns-append a b c [] ys h k = rw h k
TakesTurns-append false b c (press_dispatch ∷ xs) ys h k = TakesTurns-append true b c xs ys h k
TakesTurns-append true b c (stop_dispatch ∷ xs) ys h k = TakesTurns-append false b c xs ys h k
TakesTurns-append true b c (press_dispatch ∷ xs) ys h k = absurd h
TakesTurns-append false b c (stop_dispatch ∷ xs) ys h k = absurd h

presses_in-append : (xs ys : List Dispatch) → presses_in (xs ++ ys) ≡ presses_in xs + presses_in ys
unfolding presses_in
presses_in-append [] ys = ground arith
presses_in-append (press_dispatch ∷ xs) ys = ground (arith, presses_in-append xs ys)
presses_in-append (stop_dispatch ∷ xs) ys = presses_in-append xs ys

stops_in-append : (xs ys : List Dispatch) → stops_in (xs ++ ys) ≡ stops_in xs + stops_in ys
unfolding stops_in
stops_in-append [] ys = ground arith
stops_in-append (press_dispatch ∷ xs) ys = stops_in-append xs ys
stops_in-append (stop_dispatch ∷ xs) ys = ground (arith, stops_in-append xs ys)

-- The gate never waits for the timer and for the release; its decisions are press and stop in turn, a press first; and
-- each decision is either dispatched or still to be dispatched.
pub record IsSound (t : Threads) : Type 0 where
  pub apart : (t.gate.pending && t.gate.started) ≡ false
  pub in_turn : TakesTurns false t.decided t.gate.started
  pub presses_are : presses_in t.decided ≡ presses_in t.sent + t.presses
  pub stops_are : stops_in t.decided ≡ stops_in t.sent + t.stops

decide-IsSound :
    (t t' : Threads) (r : HoldGate × List Dispatch)
    → IsSound t
    → t'.decided ≡ t.decided
    → t'.sent ≡ t.sent
    → t'.presses ≡ t.presses
    → t'.stops ≡ t.stops
    → (r.0.pending && r.0.started) ≡ false
    → TakesTurns t.gate.started r.1 r.0.started
    → IsSound (decide t' r)
unfolding decide
decide-IsSound t t' (g, out) s d e p q a turn = record {
  apart = a;
  in_turn =
      subst (λ ds. TakesTurns false (ds ++ out) g.started) (sym d)
        (TakesTurns-append false t.gate.started g.started t.decided out s.in_turn turn);
  presses_are = ground (arith, presses_in-append t'.decided out, s.presses_are, d, e, p);
  stops_are = ground (arith, stops_in-append t'.decided out, s.stops_are, d, e, q);
}

fire-turn :
    (g : HoldGate)
    → (g.pending && g.started) ≡ false
    → ((fire g).0.pending && (fire g).0.started) ≡ false
      × TakesTurns g.started (fire g).1 (fire g).0.started
unfolding fire
fire-turn g h = ground arith

on_release-turn :
    (g : HoldGate)
    → (g.pending && g.started) ≡ false
    → ((on_release g).0.pending && (on_release g).0.started) ≡ false
      × TakesTurns g.started (on_release g).1 (on_release g).0.started
unfolding on_release
on_release-turn g h = ground arith

on_press_started : (g : HoldGate) → (on_press g).0.started ≡ g.started
unfolding on_press
on_press_started g = ground arith

step-IsSound : (t : Threads) (o : Op) → IsSound t → IsSound (step t o)
unfolding step on_press presses_in stops_in
step-IsSound t press s = record {
  apart = ground (arith, s.apart);
  in_turn = subst (TakesTurns false t.decided) (sym (on_press_started t.gate)) s.in_turn;
  presses_are = s.presses_are;
  stops_are = s.stops_are;
}
step-IsSound t arm s = elim (Bool-cases (ltb 0 t.arming)) [
  | inr e ↦ rw e s
  | inl e ↦ rw e (record {
    apart = s.apart;
    in_turn = s.in_turn;
    presses_are = s.presses_are;
    stops_are = s.stops_are;
  })
]
step-IsSound t callback s = elim (Bool-cases (ltb 0 t.callbacks)) [
  | inr e ↦ rw e s
  | inl e ↦
      let (apart, turn) = fire-turn t.gate s.apart in
      rw e (
        decide-IsSound t (record t { callbacks = t.callbacks - 1 }) (fire t.gate) s refl refl refl
          refl apart turn)
]
step-IsSound t (release in_time) s =
    let (apart, turn) = on_release-turn t.gate s.apart in
    decide-IsSound t
      (record t { callbacks = if t.gate.pending && in_time then t.callbacks - 1 else t.callbacks })
      (on_release t.gate) s refl refl refl refl apart turn
step-IsSound t send_press s = elim (Bool-cases (ltb 0 t.presses)) [
  | inr e ↦ rw e s
  | inl e ↦ rw e (record {
    apart = s.apart;
    in_turn = s.in_turn;
    presses_are = ground (arith, presses_in-append t.sent (press_dispatch ∷ []), s.presses_are, e);
    stops_are = ground (arith, stops_in-append t.sent (press_dispatch ∷ []), s.stops_are);
  })
]
step-IsSound t send_stop s = elim (Bool-cases (ltb 0 t.stops)) [
  | inr e ↦ rw e s
  | inl e ↦ rw e (record {
    apart = s.apart;
    in_turn = s.in_turn;
    stops_are = ground (arith, stops_in-append t.sent (stop_dispatch ∷ []), s.stops_are, e);
    presses_are = ground (arith, presses_in-append t.sent (stop_dispatch ∷ []), s.presses_are);
  })
]

-- Whatever the order of edges, timers, callbacks and dispatches: the gate never waits for both, its decisions under the
-- mutex are press and stop strictly in turn, a press first, and each is dispatched at most once, by a goroutine that
-- still has to do so until then. The dispatches themselves may come in another order.
pub run-IsSound : (t : Threads) (os : List Op) → IsSound t → IsSound (run t os)
unfolding run
run-IsSound t [] s = s
run-IsSound t (o ∷ os) s = run-IsSound (step t o) os (step-IsSound t o s)

-- A tap on a gate at rest dispatches nothing and leaves the gate as it was.
tap_dropped :
    (g : HoldGate) → g.pending ≡ false → g.started ≡ false → on_release (on_press g).0 ≡ (g, [])
unfolding on_press on_release
tap_dropped g p s = ground arith
