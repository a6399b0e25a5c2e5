-- ===== src/Hash.antt =====
-- `validate_hash`: the guard in front of every path and every index key.
-- Source: crates/server/src/storage/backend.rs.
use openxet.Base.{
  All, Bool, Result, [], arith, err, if◌then◌else◌, leb, length, not, ok, refl, subst, true, ℕ,
  ◌&&◌, ◌==◌, ◌||◌, ◌↔◌, ◌∷◌, ◌≡◌, ◌≢◌, ◌≤◌, ◌⊎◌,
}
use openxet.Text.{Text}
use openxet.Errors.{StorageError}

-- `is_ascii_hexdigit() && !is_ascii_uppercase()` on one byte.
abbrev is_lower_hex : ℕ → Bool
is_lower_hex b =
    (leb b'0' b && leb b b'9' || leb b'a' b && leb b b'f' || leb b'A' b && leb b b'F')
    && not (leb b'A' b && leb b b'Z')

all_lower_hex : Text → Bool
all_lower_hex [] = true
all_lower_hex (b ∷ s) = is_lower_hex b && all_lower_hex s

unfoldable pub validate_hash : Text → Result StorageError (Unit {0})
unfolding all_lower_hex
validate_hash hash =
    if not (length hash == 64) || not (all_lower_hex hash)
    then err (StorageError.invalid_hash hash)
    else ok tt

-- 64 bytes, each of `0`-`9` or `a`-`f`.
abbrev pub IsHexByte : ℕ → Type 0
IsHexByte b = ((48 ≤ b) × (b ≤ 57)) ⊎ ((97 ≤ b) × (b ≤ 102))

abbrev pub IsHash : Text → Type 0
IsHash hash = (length hash ≡ 64) × All IsHexByte hash

all_lower_hex-All : (s : Text) → all_lower_hex s ≡ true → All IsHexByte s
unfolding all_lower_hex
all_lower_hex-All [] h = tt
all_lower_hex-All (b ∷ s) h = (ground arith, all_lower_hex-All s (ground arith))

All-all_lower_hex : (s : Text) → All IsHexByte s → all_lower_hex s ≡ true
unfolding all_lower_hex
All-all_lower_hex [] h = refl
All-all_lower_hex (b ∷ s) (h, hs) = ground (arith, All-all_lower_hex s hs)

-- `validate_hash` accepts exactly the texts of 64 lowercase hex digits.
pub validate_hash_iff : (hash : Text) → (validate_hash hash ≡ ok tt) ↔ IsHash hash
unfolding validate_hash
validate_hash_iff hash = (
  λ e. (ground arith, all_lower_hex-All hash (ground arith)),
  λ h. ground (arith, All-all_lower_hex hash h.1),
)

-- A byte below `0`, such as `.`, `/` or `-`, or above `f`, is in no hash.
pub All-IsHexByte-ne :
    (sep : ℕ) (s : Text) → ¬ IsHexByte sep → All IsHexByte s → All (λ c. c ≢ sep) s
All-IsHexByte-ne sep [] h d = tt
All-IsHexByte-ne sep (c ∷ s) h (d, ds) = (λ e. h (subst IsHexByte e d), All-IsHexByte-ne sep s h ds)
