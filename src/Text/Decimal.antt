-- ===== src/Text/Decimal.antt =====
-- Decimal numbers as `format!` prints a `u64` and `str::parse::<u64>` reads one.
use openxet.Base.{
  All, Bool, Bool-cases, Option, [], ap, arith, if◌then◌else◌, inl, inr, leb, ltb, none, refl, some,
  subst, suc, sym, true, zero, ℕ, ◌%◌, ◌&&◌, ◌*◌, ◌+◌, ◌-◌, ◌/◌, ◌<◌, ◌==◌, ◌^◌, ◌∙◌, ◌∷◌, ◌≡◌, ◌≢◌,
  ◌≤◌,
}
use openxet.Text.Laws.{Text}

abbrev pub u64_mod : ℕ
u64_mod = 2 ^ 64

-- The digits of `n` in front of `acc`; fuel above `n` is enough.
decimal_from : ℕ → ℕ → Text → Text
decimal_from zero n acc = acc
decimal_from (suc f) n acc =
    let rest = decimal_from f (n / 10) ((48 + n % 10) ∷ acc) in
    if ltb n 10 then (48 + n) ∷ acc else rest

unfoldable pub decimal : ℕ → Text
unfolding decimal_from
decimal n = decimal_from (suc n) n []

abbrev is_digit : ℕ → Bool
is_digit c = leb 48 c && leb c 57

-- The digit loop, which refuses a value that does not fit 64 bits.
parse_digits : ℕ → Text → Option ℕ
parse_digits acc [] = some acc
parse_digits acc (c ∷ s) =
    let rest = parse_digits (acc * 10 + (c - 48)) s in
    if is_digit c && ltb (acc * 10 + (c - 48)) u64_mod then rest else none

parse_nonempty : Text → Option ℕ
parse_nonempty [] = none
parse_nonempty (c ∷ s) = parse_digits 0 (c ∷ s)

-- The standard library accepts one leading `+`.
unfoldable pub parse_u64 : Text → Option ℕ
unfolding parse_digits parse_nonempty
parse_u64 [] = none
parse_u64 (c ∷ s) = if c == b'+' then parse_nonempty s else parse_digits 0 (c ∷ s)

-- What is printed consists of digits, so it holds no separator.
abbrev pub IsDigit : ℕ → Type 0
IsDigit c = (48 ≤ c) × (c ≤ 57)

decimal_from-IsDigit : (f n : ℕ) (acc : Text) → All IsDigit acc → All IsDigit (decimal_from f n acc)
unfolding decimal_from
decimal_from-IsDigit zero n acc h = h
decimal_from-IsDigit (suc f) n acc h = elim (Bool-cases (ltb n 10)) [
  | inl small ↦ rw small ((omega arith, ground arith), h)
  | inr large ↦ rw large (decimal_from-IsDigit f (n / 10) _ ((omega arith, omega arith), h))
]

pub decimal-IsDigit : (n : ℕ) → All IsDigit (decimal n)
unfolding decimal
decimal-IsDigit n = decimal_from-IsDigit (suc n) n [] tt

All-IsDigit-ne : (sep : ℕ) (s : Text) → ¬ IsDigit sep → All IsDigit s → All (λ c. c ≢ sep) s
All-IsDigit-ne sep [] h d = tt
All-IsDigit-ne sep (c ∷ s) h (d, ds) = (λ e. h (subst IsDigit e d), All-IsDigit-ne sep s h ds)

-- A printed number holds no byte that is not a digit.
pub decimal-ne : (sep n : ℕ) → ¬ IsDigit sep → All (λ c. c ≢ sep) (decimal n)
decimal-ne sep n h = All-IsDigit-ne sep (decimal n) h (decimal-IsDigit n)

-- Reading on from the printed digits of `n` is reading on from the value `n`.
parse_digits-decimal_from :
    (f n : ℕ) (acc : Text)
    → n < f
    → n < u64_mod
    → parse_digits 0 (decimal_from f n acc) ≡ parse_digits n acc
unfolding decimal_from parse_digits
parse_digits-decimal_from zero n acc h k = absurd (omega arith)
parse_digits-decimal_from (suc f) n acc h k = elim (Bool-cases (ltb n 10)) [
  | inl small ↦ rw small (ground (arith, ap (λ v. parse_digits v acc) (one_digit n small)))
  | inr large ↦ rw large (
      parse_digits-decimal_from f (n / 10) _ (ground arith) (omega arith)
      ∙ ground (arith, ap (λ v. parse_digits v acc) (last_digit n)))
]
  where
    one_digit : (m : ℕ) → ltb m 10 ≡ true → 0 * 10 + (48 + m - 48) ≡ m
    one_digit m e = omega arith

    last_digit : (m : ℕ) → m / 10 * 10 + (48 + m % 10 - 48) ≡ m
    last_digit m = omega arith

parse_u64_of_digits : (c : ℕ) (s : Text) → IsDigit c → parse_u64 (c ∷ s) ≡ parse_digits 0 (c ∷ s)
unfolding parse_u64
parse_u64_of_digits c s d = ground arith

parse_u64_of_IsDigit : (s : Text) → All IsDigit s → s ≢ [] → parse_u64 s ≡ parse_digits 0 s
parse_u64_of_IsDigit [] d h = absurd (h refl)
parse_u64_of_IsDigit (c ∷ s) (d, ds) h = parse_u64_of_digits c s d

decimal_from-ne-nil : (f n : ℕ) (c : ℕ) (acc : Text) → decimal_from f n (c ∷ acc) ≢ []
unfolding decimal_from
decimal_from-ne-nil zero n c acc = cc
decimal_from-ne-nil (suc f) n c acc =
    ground (arith, decimal_from-ne-nil f (n / 10) (48 + n % 10) (c ∷ acc))

decimal-ne-nil : (n : ℕ) → decimal n ≢ []
unfolding decimal
decimal-ne-nil n = ground (arith, decimal_from-ne-nil n (n / 10) (48 + n % 10) [])

-- Every 64-bit number that is printed reads back as itself.
pub parse_u64-decimal : (n : ℕ) → n < u64_mod → parse_u64 (decimal n) ≡ some n
unfolding decimal
parse_u64-decimal n h =
    parse_u64_of_IsDigit (decimal n) (decimal-IsDigit n) (decimal-ne-nil n)
    ∙ parse_digits-decimal_from (suc n) n [] (omega arith) h
    ∙ unfold parse_digits in refl

-- Two numbers that print alike are equal.
pub decimal_injective : (m n : ℕ) → m < u64_mod → n < u64_mod → decimal m ≡ decimal n → m ≡ n
decimal_injective m n h k e =
    let p : some m ≡ some n =
      sym (parse_u64-decimal m h) ∙ ap parse_u64 e ∙ parse_u64-decimal n k in
    cc

parse_digits-lt :
    (acc : ℕ) (s : Text) (n : ℕ) → acc < u64_mod → parse_digits acc s ≡ some n → n < u64_mod
unfolding parse_digits
parse_digits-lt acc [] n h e = ground arith
parse_digits-lt acc (c ∷ s) n h e = ground (arith, parse_digits-lt (acc * 10 + (c - 48)) s n)

-- A number that was read fits 64 bits.
pub parse_u64-lt : (s : Text) (n : ℕ) → parse_u64 s ≡ some n → n < u64_mod
unfolding parse_u64
parse_u64-lt [] n e = cc
parse_u64-lt (c ∷ []) n e = ground (arith, parse_digits-lt 0 (c ∷ []) n)
parse_u64-lt (c ∷ d ∷ s) n e =
    ground (arith, parse_digits-lt 0 (c ∷ d ∷ s) n, parse_digits-lt 0 (d ∷ s) n)
