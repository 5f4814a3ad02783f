-- ===== src/Text/Utf8.antt =====
-- `String::from_utf8` and `str::from_utf8`: which byte lists are texts. A well-formed sequence
-- encodes no surrogate and nothing above U+10FFFF, in its shortest form.
use zeromasque.Prelude.{
  ℕ, ◌-◌, ◌<◌, ◌≡◌, refl, List, [], ◌∷◌, Option, none, some, Bool, true, false, ◌&&◌, arith, All,
  leb, ltb, ◌==◌, if◌then◌else◌, Bool-cases, inl, inr,
}
use zeromasque.Text.{Text}

-- How many continuation bytes are due, and the range of the next one.
pub record Due : Type 0 where
  pub left : ℕ
  pub lo : ℕ
  pub hi : ℕ

abbrev pub due : ℕ → ℕ → ℕ → Due
due n a b = record { left = n; lo = a; hi = b }

lead : ℕ → Option Due
lead b =
    if ltb b 0x80
    then some (due 0 0 0)
    else if leb 0xc2 b && leb b 0xdf
    then some (due 1 0x80 0xbf)
    else if b == 0xe0
    then some (due 2 0xa0 0xbf)
    else if b == 0xed
    then some (due 2 0x80 0x9f)
    else if leb 0xe1 b && leb b 0xef
    then some (due 2 0x80 0xbf)
    else if b == 0xf0
    then some (due 3 0x90 0xbf)
    else if leb 0xf1 b && leb b 0xf3
    then some (due 3 0x80 0xbf)
    else if b == 0xf4
    then some (due 3 0x80 0x8f)
    else none

abbrev utf8_step : Due → ℕ → Option Due
utf8_step s b =
    if s.left == 0
    then lead b
    else if leb s.lo b && leb b s.hi
    then some (due (s.left - 1) 0x80 0xbf)
    else none

utf8_from : Due → List ℕ → Bool
utf8_from s [] = s.left == 0
utf8_from s (b ∷ bs) = elim (utf8_step s b) [ none ↦ false | some s' ↦ utf8_from s' bs ]

unfoldable pub is_utf8 : List ℕ → Bool
unfolding utf8_from lead
is_utf8 = utf8_from (due 0 0 0)

unfoldable pub from_utf8 : List ℕ → Option Text
unfolding is_utf8
from_utf8 bs = if is_utf8 bs then some bs else none

pub from_utf8_valid : (bs : List ℕ) → is_utf8 bs ≡ true → from_utf8 bs ≡ some bs
unfolding from_utf8
from_utf8_valid bs h = rw h

pub from_utf8-some : (bs s : List ℕ) → from_utf8 bs ≡ some s → (is_utf8 bs ≡ true) × (s ≡ bs)
unfolding from_utf8
from_utf8-some bs s h = elim (Bool-cases (is_utf8 bs)) [
  | inl e ↦ (e, ground (arith, e))
  | inr e ↦ absurd (ground (arith, e))
]

-- ASCII bytes are texts.
pub is_utf8_ascii : (bs : List ℕ) → All (λ b. b < 128) bs → is_utf8 bs ≡ true
unfolding is_utf8
is_utf8_ascii [] h = refl
is_utf8_ascii (b ∷ bs) h = ground (arith, is_utf8_ascii bs h.1)
