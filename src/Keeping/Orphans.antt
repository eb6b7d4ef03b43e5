-- ===== src/Keeping/Orphans.antt =====
-- Which directories are removed (internal/infra/daemon/tempclean.go).
use a2text.Base.{
  ℕ, ◌+◌, ◌≤◌, ◌%◌, true, false, Bool-cases, Option, none, List, [], ◌∷◌, ◌++◌, Text, String,
  is_empty, ◌≡◌, refl, sym, subst, ◌↔◌, ◌⊎◌, inl, inr, arith,
}
use a2text.Keeping.Sessions.{
  Entry, Effect, Trace, Made, orphan_max_age, has_prefix, session_prefix, is_left, sweep,
  cleanup_session, make_session_dir, with_session_dir,
}

-- A directory of a session, private to the user, and at least a day old.
pub record IsOrphan (now : ℕ) (e : Entry) : Type 0 where
  pub rest : Text
  pub named : e.name ≡ session_prefix ++ rest
  pub known : e.lstat_fails ≡ false
  pub directory : e.is_dir ≡ true
  pub private : e.perm % 64 ≡ 0
  pub old : e.mod_time + orphan_max_age ≤ now

has_prefix-append : (p rest : Text) → has_prefix (p ++ rest) p ≡ true
unfolding has_prefix
has_prefix-append [] rest = refl
has_prefix-append (c ∷ cs) rest = ground (arith, has_prefix-append cs rest)

has_prefix-some : (t p : Text) → has_prefix t p ≡ true → (rest : Text) × (t ≡ p ++ rest)
unfolding has_prefix
has_prefix-some t [] h = (t, refl)
has_prefix-some [] (p ∷ ps) h = ground arith
has_prefix-some (c ∷ cs) (p ∷ ps) h =
    let (rest, e) = has_prefix-some cs ps (ground arith) in (rest, ground arith)

is_left-IsOrphan :
    (now : ℕ) (e : Entry) → is_left now e ≡ false → IsOrphan now e × (e.removable ≡ true)
unfolding is_left
is_left-IsOrphan now e h =
    let (rest, named) = has_prefix-some e.name session_prefix (ground arith) in
    (
      record {
        rest = rest;
        named = named;
        known = ground arith;
        directory = ground arith;
        private = ground arith;
        old = ground arith;
      },
      ground arith,
    )

IsOrphan-is_left :
    (now : ℕ) (e : Entry) → IsOrphan now e → e.removable ≡ true → is_left now e ≡ false
unfolding is_left
IsOrphan-is_left now e o r =
    let prefixed : has_prefix e.name session_prefix ≡ true =
      subst (λ t. has_prefix t session_prefix ≡ true) (sym o.named)
        (has_prefix-append session_prefix o.rest) in
    ground (arith, o.known, o.directory, o.private, o.old)

-- Whether an entry is one of a list.
pub data Among (e : Entry) : List Entry → Type 0 where
  here : {es : List Entry} → Among e (e ∷ es)
  there : {d : Entry} {es : List Entry} → Among e es → Among e (d ∷ es)

sweep-Among :
    (now : ℕ) (e : Entry) (es : List Entry)
    → is_left now e ≡ true
    → Among e es
    → Among e (sweep now es)
unfolding sweep
sweep-Among now e [] h m = elim m [ ]
sweep-Among now e (_ ∷ es) h Among.here = rw h Among.here
sweep-Among now e (d ∷ es) h (Among.there m) = elim (Bool-cases (is_left now d)) [
  | inl l ↦ rw (sweep, l) (Among.there (sweep-Among now e es h m))
  | inr l ↦ rw (sweep, l) (sweep-Among now e es h m)
]

head_or : {e d : Entry} {es : List Entry} → Among e (d ∷ es) → (e ≡ d) ⊎ Among e es
head_or Among.here = inl refl
head_or (Among.there m) = inr m

Among-sweep :
    (now : ℕ) (e : Entry) (es : List Entry)
    → Among e (sweep now es)
    → Among e es × (is_left now e ≡ true)
unfolding sweep
Among-sweep now e [] m = absurd (nowhere m)
  where
    nowhere : Among e [] → ⊥
    nowhere n = elim n [ ]
Among-sweep now e (d ∷ es) m = elim (Bool-cases (is_left now d)) [
  | inl l ↦ elim (head_or (subst (Among e) (kept l) m)) [
    | inl same ↦ subst (λ x. Among x (d ∷ es) × (is_left now x ≡ true)) (sym same) (Among.here, l)
    | inr later ↦ let (m', l') = Among-sweep now e es later in (Among.there m', l')
  ]
  | inr l ↦
      let (m', l') = Among-sweep now e es (subst (Among e) (dropped l) m) in (Among.there m', l')
]
  where
    kept : is_left now d ≡ true → sweep now (d ∷ es) ≡ d ∷ sweep now es
    kept l = rw (sweep, l) refl

    dropped : is_left now d ≡ false → sweep now (d ∷ es) ≡ sweep now es
    dropped l = rw (sweep, l) refl

-- The sweep leaves an entry exactly if it was there and is no orphan that can be removed: no private directory of a
-- session that is at least a day old.
pub sweep_iff :
    (now : ℕ) (e : Entry) (es : List Entry)
    → Among e (sweep now es) ↔ (Among e es × ¬ (IsOrphan now e × (e.removable ≡ true)))
sweep_iff now e es = (
  λ m.
      let (m', l) = Among-sweep now e es m in
      (m', λ (o, r). let gone = IsOrphan-is_left now e o r in ground arith),
  λ (m, stays). elim (Bool-cases (is_left now e)) [
    | inl l ↦ sweep-Among now e es l m
    | inr l ↦ absurd (stays (is_left-IsOrphan now e l))
  ],
)

-- However the function of a session ends, its directory, which has a name and that of a session, is removed behind it
-- if the audio is not kept.
pub with_session_dir-cleans :
    (base : Text → Text) (body : Text → Option String) (dir : Text) (tr : Trace)
    → is_empty dir ≡ false
    → has_prefix (base dir) session_prefix ≡ true
    → with_session_dir base false body (Made.created dir none) tr
      ≡ (body dir, Effect.removed dir ∷ Effect.ran dir ∷ Effect.made dir ∷ tr)
unfolding with_session_dir make_session_dir cleanup_session
with_session_dir-cleans base body dir tr some_dir session =
    rw (with_session_dir, make_session_dir, cleanup_session, some_dir, session) refl
