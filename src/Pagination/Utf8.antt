-- ===== src/Pagination/Utf8.antt =====
-- `String::from_utf8`: which byte sequences are a text.
use openxet.Base.{
  All, Bool, Option, [], arith, false, if◌then◌else◌, leb, ltb, none, refl, some, suc, true, zero,
  ℕ, ◌&&◌, ◌<◌, ◌==◌, ◌||◌, ◌∷◌, ◌≡◌,
}
use openxet.Text.{Text}

-- What a leading byte asks for: the number of continuation bytes, and the range of the first.
lead : ℕ → Option (ℕ × ℕ × ℕ)
lead c =
    if ltb c 0x80
    then some (0, 0x80, 0xbf)
    else if leb 0xc2 c && leb c 0xdf
    then some (1, 0x80, 0xbf)
    else if c == 0xe0
    then some (2, 0xa0, 0xbf)
    else if (leb 0xe1 c && leb c 0xec) || (leb 0xee c && leb c 0xef)
    then some (2, 0x80, 0xbf)
    else if c == 0xed
    then some (2, 0x80, 0x9f)
    else if c == 0xf0
    then some (3, 0x90, 0xbf)
    else if leb 0xf1 c && leb c 0xf3
    then some (3, 0x80, 0xbf)
    else if c == 0xf4
    then some (3, 0x80, 0x8f)
    else none

-- Reading one byte with `need` continuation bytes outstanding, the next one in `[lo, hi]`.
advance : ℕ → ℕ → ℕ → ℕ → Option (ℕ × ℕ × ℕ)
advance zero lo hi c = lead c
advance (suc need) lo hi c = if leb lo c && leb c hi then some (need, 0x80, 0xbf) else none

utf8_run : ℕ × ℕ × ℕ → Text → Bool
utf8_run (need, lo, hi) [] = need == 0
utf8_run (need, lo, hi) (c ∷ s) = elim (advance need lo hi c) [
  | none ↦ false
  | some st ↦ utf8_run st s
]

unfoldable pub from_utf8 : Text → Option Text
unfolding utf8_run advance lead
from_utf8 bytes = if utf8_run (0, 0x80, 0xbf) bytes then some bytes else none

utf8_run-ascii : (s : Text) → All (λ c. c < 128) s → utf8_run (0, 0x80, 0xbf) s ≡ true
unfolding utf8_run advance lead
utf8_run-ascii [] h = refl
utf8_run-ascii (c ∷ s) (h, hs) = ground (arith, utf8_run-ascii s hs)

-- ASCII bytes are a text.
pub from_utf8-ascii : (s : Text) → All (λ c. c < 128) s → from_utf8 s ≡ some s
unfolding from_utf8
from_utf8-ascii s h = rw (utf8_run-ascii s h)

euro : from_utf8 (0xe2 ∷ 0x82 ∷ 0xac ∷ []) ≡ some (0xe2 ∷ 0x82 ∷ 0xac ∷ [])
unfolding from_utf8
euro = refl

truncated : from_utf8 (0xe2 ∷ 0x82 ∷ []) ≡ none
unfolding from_utf8
truncated = refl
