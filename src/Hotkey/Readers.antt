-- ===== src/Hotkey/Readers.antt =====
-- The readers of several devices on one listener (pkg/hotkey/evdev_linux.go). A reader takes the mutex for an event,
-- and calls the handler only behind it, so that another reader may come between.
use a2text.Base.{
  ℕ, suc, ◌+◌, Bool, true, false, Bool-cases, Option, none, some, List, [], ◌∷◌, ◌++◌, Bytes, ◌≡◌,
  refl, sym, ap, ◌∙◌, inl, inr, arith, ◌==◌, if◌then◌else◌,
}
use a2text.Hotkey.Evdev.{Edge, press_edge, release_edge, Listener, read_packet}
use a2text.Hotkey.Edges.{Alternates, Alternates-append, read_packet-Alternates}

-- A reader that is about to call the handler, by its device, and the edge.
abbrev pub Call : Type 0
Call = ℕ × Edge

-- `calls` are the calls still to be made, `decided` the edges in the order of the mutex, and `called` those that the
-- handler has got, in its order.
pub record Readers : Type 0 where
  pub listener : Listener
  pub calls : List Call
  pub decided : List Edge
  pub called : List Edge

pub data Op : Type 0 where
  packet : ℕ → Bytes → Op
  call : ℕ → Op

unfoldable pub is_calling : ℕ → List Call → Bool
is_calling d [] = false
is_calling d ((c, e) ∷ cs) = let rest = is_calling d cs in if d == c then true else rest

unfoldable pub calls_of : ℕ → List Edge → List Call
calls_of d [] = []
calls_of d (e ∷ es) = (d, e) ∷ calls_of d es

unfoldable pub behind : Call → Option (Edge × List Call) → Option (Edge × List Call)
behind x none = none
behind x (some (e, others)) = some (e, x ∷ others)

-- The call of a device, and the others'.
unfoldable pub take_call : ℕ → List Call → Option (Edge × List Call)
unfolding behind
take_call d [] = none
take_call d ((c, e) ∷ cs) =
    let rest = behind (c, e) (take_call d cs) in if d == c then some (e, cs) else rest

-- The handler gets the edge of a call.
unfoldable pub handled : Readers → Option (Edge × List Call) → Readers
handled r none = r
handled r (some (e, others)) = record r { calls = others; called = r.called ++ (e ∷ []) }

-- A reader that is in the handler reads no packet.
unfoldable pub step : ℕ → Readers → Op → Readers
unfolding handled
step ev_key r (packet d buf) =
    let (l, out) = read_packet ev_key r.listener buf in
    if is_calling d r.calls
    then r
    else record r { listener = l; calls = r.calls ++ calls_of d out; decided = r.decided ++ out }
step ev_key r (call d) = handled r (take_call d r.calls)

unfoldable pub run : ℕ → Readers → List Op → Readers
unfolding step
run ev_key r [] = r
run ev_key r (o ∷ os) = run ev_key (step ev_key r o) os

-- How often an edge is among some.
unfoldable pub same_edge : Edge → Edge → Bool
same_edge press_edge press_edge = true
same_edge release_edge release_edge = true
same_edge _ _ = false

unfoldable pub count : Edge → List Edge → ℕ
unfolding same_edge
count e [] = 0
count e (f ∷ fs) = let rest = count e fs in if same_edge e f then suc rest else rest

unfoldable pub edges_of : List Call → List Edge
edges_of [] = []
edges_of ((d, e) ∷ cs) = e ∷ edges_of cs

count-append : (e : Edge) (xs ys : List Edge) → count e (xs ++ ys) ≡ count e xs + count e ys
unfolding count
count-append e [] ys = ground arith
count-append e (x ∷ xs) ys = ground (arith, count-append e xs ys)

edges_of-append : (xs ys : List Call) → edges_of (xs ++ ys) ≡ edges_of xs ++ edges_of ys
unfolding edges_of
edges_of-append [] ys = refl
edges_of-append ((d, e) ∷ xs) ys = ap (λ es. e ∷ es) (edges_of-append xs ys)

edges_of-calls_of : (d : ℕ) (es : List Edge) → edges_of (calls_of d es) ≡ es
unfolding edges_of calls_of
edges_of-calls_of d [] = refl
edges_of-calls_of d (e ∷ es) = ap (λ rest. e ∷ rest) (edges_of-calls_of d es)

behind-some :
    (x : Call) (o : Option (Edge × List Call)) {f : Edge} {others : List Call}
    → behind x o ≡ some (f, others)
    → (os : List Call) × (o ≡ some (f, os)) × (others ≡ x ∷ os)
unfolding behind
behind-some x none h = ground arith
behind-some x (some (k, os)) h = (os, ground arith, ground arith)

take_call-count :
    (e : Edge) (d : ℕ) (cs : List Call) {f : Edge} {others : List Call}
    → take_call d cs ≡ some (f, others)
    → count e (edges_of cs) ≡ count e (f ∷ []) + count e (edges_of others)
unfolding take_call edges_of count
take_call-count e d [] h = ground arith
take_call-count e d ((c, g) ∷ cs) {f} {others} h = elim (Bool-cases (d == c)) [
  | inl same ↦ ground (arith, same)
  | inr other ↦
      let (os, found, rest) =
        behind-some (c, g) (take_call d cs) (sym (rw (other, take_call) refl) ∙ h) in
      rw (take_call-count e d cs found, rest) (ground arith)
]

-- The edges that the mutex decides are press and release in turn, and each has reached the handler or is about to.
pub record IsAccounted (start : Bool) (r : Readers) : Type 0 where
  pub in_turn : Alternates start r.decided r.listener.key_down
  pub accounted : (e : Edge) → count e r.decided ≡ count e r.called + count e (edges_of r.calls)

handled-IsAccounted :
    (start : Bool) (r : Readers) (d : ℕ) (o : Option (Edge × List Call))
    → take_call d r.calls ≡ o
    → IsAccounted start r
    → IsAccounted start (handled r o)
unfolding handled
handled-IsAccounted start r d none e s = s
handled-IsAccounted start r d (some (f, others)) e s = record {
  in_turn = s.in_turn;
  accounted = λ x.
      rw (count-append x r.called (f ∷ []), s.accounted x, take_call-count x d r.calls e)
        (ground arith);
}

step-IsAccounted :
    (ev_key : ℕ) (start : Bool) (r : Readers) (o : Op)
    → IsAccounted start r
    → IsAccounted start (step ev_key r o)
unfolding step
step-IsAccounted ev_key start r (packet d buf) s = elim (Bool-cases (is_calling d r.calls)) [
  | inl e ↦ rw e s
  | inr e ↦
      let out = (read_packet ev_key r.listener buf).1 in
      rw e (record {
        in_turn =
            Alternates-append start r.listener.key_down
              (read_packet ev_key r.listener buf).0.key_down r.decided out s.in_turn
              (read_packet-Alternates ev_key r.listener buf);
        accounted = λ x.
            rw
              (
                count-append x r.decided out,
                edges_of-append r.calls (calls_of d out),
                edges_of-calls_of d out,
                count-append x (edges_of r.calls) out,
                s.accounted x,
              )
              (ground arith);
      })
]
step-IsAccounted ev_key start r (call d) s =
    handled-IsAccounted start r d (take_call d r.calls) refl s

-- Whatever packets the devices send and whenever their readers come to call the handler: the edges that the listener
-- decides under its mutex are press and release strictly in turn, and each of them reaches the handler once, or its
-- reader is still about to call it. The order of the calls may be another one.
pub run-IsAccounted :
    (ev_key : ℕ) (start : Bool) (r : Readers) (os : List Op)
    → IsAccounted start r
    → IsAccounted start (run ev_key r os)
unfolding run
run-IsAccounted ev_key start r [] s = s
run-IsAccounted ev_key start r (o ∷ os) s =
    run-IsAccounted ev_key start (step ev_key r o) os (step-IsAccounted ev_key start r o s)
