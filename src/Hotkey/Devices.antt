-- ===== src/Hotkey/Devices.antt =====
-- Which input devices the listener keeps (pkg/hotkey/evdev_linux.go). The bitmap of a device comes from
-- an ioctl of the kernel and is an argument, `none` where the call failed.
use a2text.Base.{
  ℕ, ◌<◌, ◌/◌, ◌%◌, ◌^◌, Bool, true, false, Option, none, some, List, [], ◌∷◌, ◌++◌, Bytes, byte_at,
  length, ◌≡◌, refl, ◌↔◌, ◌⊎◌, inl, inr, arith, leb, ◌==◌, if◌then◌else◌,
}
use a2text.Hotkey.Evdev.{new_listener, flatten}

-- `wantedKeyCodes`: the main key and the modifiers.
unfoldable pub wanted_key_codes : ℕ → List ℕ → List ℕ
wanted_key_codes main_key mod_codes = main_key ∷ mod_codes

-- `bitmap[byteIdx]&(1<<bitIdx) != 0`, for an index within the bitmap.
test_bit : Bytes → ℕ → Bool
test_bit bitmap code = byte_at (code / 8) bitmap / 2 ^ (code % 8) % 2 == 1

-- The loop over the wanted codes; a code beyond the bitmap is passed over.
any_supported : Bytes → List ℕ → Bool
unfolding test_bit
any_supported bitmap [] = false
any_supported bitmap (code ∷ codes) =
    let rest = any_supported bitmap codes in
    if leb (length bitmap) (code / 8) then rest else if test_bit bitmap code then true else rest

-- `deviceSupportsAny`: a device whose bitmap cannot be read is kept.
unfoldable pub device_supports_any : Option Bytes → List ℕ → Bool
unfolding any_supported
device_supports_any none wanted = true
device_supports_any (some bitmap) wanted = any_supported bitmap wanted

-- Some listed code lies within the bitmap, and its bit is set.
abbrev pub Supports : Bytes → List ℕ → Type 0
Supports bitmap [] = ⊥
Supports bitmap (code ∷ codes) =
    ((code / 8 < length bitmap) × (byte_at (code / 8) bitmap / 2 ^ (code % 8) % 2 ≡ 1))
    ⊎ Supports bitmap codes

any_supported-Supports :
    (bitmap : Bytes) (codes : List ℕ) → (any_supported bitmap codes ≡ true) ↔ Supports bitmap codes
unfolding any_supported
any_supported-Supports bitmap [] = (λ h. cc, λ h. absurd h)
any_supported-Supports bitmap (code ∷ codes) = ground (arith, any_supported-Supports bitmap codes)

Supports-append :
    (bitmap : Bytes) (xs ys : List ℕ)
    → Supports bitmap (xs ++ ys) ↔ (Supports bitmap xs ⊎ Supports bitmap ys)
Supports-append bitmap [] ys = (λ h. inr h, λ h. elim h [ inl e ↦ absurd e | inr k ↦ k ])
Supports-append bitmap (x ∷ xs) ys = ground (arith, Supports-append bitmap xs ys)

-- Some group has a code whose bit is set.
abbrev pub SupportsGroup : Bytes → List (List ℕ) → Type 0
SupportsGroup bitmap [] = ⊥
SupportsGroup bitmap (g ∷ groups) = Supports bitmap g ⊎ SupportsGroup bitmap groups

flatten-Supports :
    (bitmap : Bytes) (groups : List (List ℕ))
    → Supports bitmap (flatten groups) ↔ SupportsGroup bitmap groups
unfolding flatten
flatten-Supports bitmap [] = (λ h. h, λ h. h)
flatten-Supports bitmap (g ∷ groups) =
    ground (arith, Supports-append bitmap g (flatten groups), flatten-Supports bitmap groups)

-- The listener's device test keeps every device whose bitmap cannot be read. One whose bitmap is read
-- is kept exactly if it has the bit of the main key or of a key of some modifier group.
pub device_supports_any_iff :
    (bitmap : Bytes) (main_key : ℕ) (groups : List (List ℕ))
    → let l = new_listener main_key groups in
      let wanted = wanted_key_codes l.key_code l.mod_codes in
      (device_supports_any none wanted ≡ true)
      × ((device_supports_any (some bitmap) wanted ≡ true)
          ↔ (Supports bitmap (main_key ∷ []) ⊎ SupportsGroup bitmap groups))
unfolding device_supports_any wanted_key_codes new_listener
device_supports_any_iff bitmap main_key groups = (
  refl,
  ground (arith, any_supported-Supports bitmap (flatten groups), flatten-Supports bitmap groups),
)
