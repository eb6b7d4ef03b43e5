-- ===== src/Settings/Document.antt =====
-- Go's `map[string]any` as the settings window uses it (internal/adapters/settings/save.go): keys with values, and runs
-- of assignments and deletions on them.
use a2text.Base.{
  Bool, true, false, Option, none, some, List, [], ◌∷◌, Text, same_text, same_text-eq,
  same_text_refl, ◌≡◌, refl, ap, arith, if◌then◌else◌,
}

-- The entries of a map, each key once.
abbrev pub Entries {ℓ} : Type ℓ → Type ℓ
Entries V = List (Text × V)

unfoldable pub get {ℓ} : {V : Type ℓ} → Text → Entries V → Option V
get k [] = none
get k ((j, v) ∷ rest) = let found = get k rest in if same_text k j then some v else found

-- `m[k] = v`
unfoldable pub put {ℓ} : {V : Type ℓ} → Text → V → Entries V → Entries V
put k v [] = (k, v) ∷ []
put k v ((j, w) ∷ rest) =
    let others = put k v rest in if same_text k j then (j, v) ∷ rest else (j, w) ∷ others

-- `delete(m, k)`
unfoldable pub remove {ℓ} : {V : Type ℓ} → Text → Entries V → Entries V
remove k [] = []
remove k ((j, w) ∷ rest) =
    let others = remove k rest in if same_text k j then others else (j, w) ∷ others

-- An assignment or a deletion.
pub data Edit {ℓ} (V : Type ℓ) : Type ℓ where
  set : Text → V → Edit V
  unset : Text → Edit V

-- The edits in their order.
unfoldable pub run {ℓ} : {V : Type ℓ} → List (Edit V) → Entries V → Entries V
run [] m = m
run (set k v ∷ rest) m = run rest (put k v m)
run (unset k ∷ rest) m = run rest (remove k m)

-- What the edits leave under a key: nothing said, or the last edit's word.
pub data Left {ℓ} (V : Type ℓ) : Type ℓ where
  untouched : Left V
  holds : Option V → Left V

unfoldable pub or_else {ℓ} : {V : Type ℓ} → Left V → Left V → Left V
or_else untouched l = l
or_else (holds v) _ = holds v

unfoldable pub left {ℓ} : {V : Type ℓ} → Text → List (Edit V) → Left V
unfolding or_else
left k [] = untouched
left k (set j v ∷ rest) =
    or_else (left k rest) (if same_text k j then holds (some v) else untouched)
left k (unset j ∷ rest) = or_else (left k rest) (if same_text k j then holds none else untouched)

unfoldable pub settled {ℓ} : {V : Type ℓ} → Left V → Option V → Option V
settled untouched before = before
settled (holds v) before = v

pub get-put {ℓ} :
    {V : Type ℓ} (k j : Text) (v : V) (m : Entries V)
    → get k (put j v m) ≡ (if same_text k j then some v else get k m)
unfolding get put
get-put k j v [] = refl
get-put k j v ((i, w) ∷ rest) = ground (
  arith,
  get-put k j v rest,
  same_text-eq j i,
  same_text-eq k i,
  same_text-eq k j,
  same_text_refl i,
  same_text_refl j,
)

get-remove {ℓ} :
    {V : Type ℓ} (k j : Text) (m : Entries V)
    → get k (remove j m) ≡ (if same_text k j then none else get k m)
unfolding get remove
get-remove k j [] = ground arith
get-remove k j ((i, w) ∷ rest) = ground (
  arith,
  get-remove k j rest,
  same_text-eq j i,
  same_text-eq k i,
  same_text-eq k j,
  same_text_refl i,
  same_text_refl j,
)

pub settled-or_else {ℓ} :
    {V : Type ℓ} (a b : Left V) (before : Option V)
    → settled (or_else a b) before ≡ settled a (settled b before)
unfolding settled or_else
settled-or_else untouched b before = refl
settled-or_else (holds v) b before = refl

settled_if {ℓ} :
    {V : Type ℓ} (b : Bool) (w before : Option V)
    → (if b then w else before) ≡ settled (if b then holds w else untouched) before
unfolding settled
settled_if true w before = refl
settled_if false w before = refl

-- The last edit of a key decides, and a key without edits keeps its value.
pub get-run {ℓ} :
    {V : Type ℓ} (k : Text) (edits : List (Edit V)) (m : Entries V)
    → get k (run edits m) ≡ settled (left k edits) (get k m)
unfolding run left settled
get-run k [] m = refl
get-run k (set j v ∷ rest) m =
    rw
      (
        get-run k rest (put j v m),
        get-put k j v m,
        settled-or_else (left k rest) (if same_text k j then holds (some v) else untouched)
            (get k m),
      )
      (ap (settled (left k rest)) (settled_if (same_text k j) (some v) (get k m)))
get-run k (unset j ∷ rest) m =
    rw
      (
        get-run k rest (remove j m),
        get-remove k j m,
        settled-or_else (left k rest) (if same_text k j then holds none else untouched) (get k m),
      )
      (ap (settled (left k rest)) (settled_if (same_text k j) none (get k m)))
