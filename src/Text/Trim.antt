-- ===== src/Text/Trim.antt =====
-- `str::trim`, `str::lines` and `str::strip_suffix`, on the bytes of a text.
pub mod Laws
use zeromasque.Prelude.{
  ℕ, zero, suc, ◌≤◌, ◌<◌, ◌≡◌, ◌≢◌, ◌⊎◌, refl, sym, ap, ◌∙◌, List, [], ◌∷◌, ◌++◌, Option, none,
  some, Bool, false, ◌&&◌, ◌||◌, leb, ◌==◌, if◌then◌else◌, arith, All, bytes_beq, bytes_beq_refl,
  bytes_beq_sound, Bool-cases, inl, inr, length, length-append, append-nil,
}
use mathlib.Core.List
use mathlib.Core.List.{reverse, reverse-append, reverse-reverse}
use mathlib.Core.Option
use zeromasque.Text.{Text}

-- The white space characters of one, two and three bytes.
abbrev space1 : ℕ → Bool
space1 a = (leb 9 a && leb a 13) || a == 32

abbrev space2 : ℕ → ℕ → Bool
space2 a b = a == 0xc2 && (b == 0x85 || b == 0xa0)

abbrev space3 : ℕ → ℕ → ℕ → Bool
space3 a b c =
    (a == 0xe1 && (b == 0x9a && c == 0x80))
    || ((a == 0xe2
          && (b == 0x80 && ((leb 0x80 c && leb c 0x8a) || (c == 0xa8 || (c == 0xa9 || c == 0xaf)))))
        || ((a == 0xe2 && (b == 0x81 && c == 0x9f)) || (a == 0xe3 && (b == 0x80 && c == 0x80))))

-- A byte of a text, or one that no white space holds.
abbrev byte : ℕ → Text → ℕ
byte i [] = 0
byte zero (c ∷ s) = c
byte (suc i) (c ∷ s) = byte i s

-- The bytes of the white space that a text begins with; none where it begins with another character.
unfoldable pub space_len : Text → ℕ
space_len s =
    if space1 (byte 0 s)
    then 1
    else if space2 (byte 0 s) (byte 1 s)
    then 2
    else if space3 (byte 0 s) (byte 1 s) (byte 2 s)
    then 3
    else 0

-- The same for its end, on the bytes from the last to the first.
unfoldable pub space_end : Text → ℕ
space_end s =
    if space1 (byte 0 s)
    then 1
    else if space2 (byte 1 s) (byte 0 s)
    then 2
    else if space3 (byte 2 s) (byte 1 s) (byte 0 s)
    then 3
    else 0

-- Drops characters as long as `len` says that there is one to drop; `k` bytes of one are left.
unfoldable pub drop_spaces : (Text → ℕ) → ℕ → Text → Text
drop_spaces len k [] = []
drop_spaces len (suc k) (c ∷ s) = drop_spaces len k s
drop_spaces len zero (c ∷ s) = elim (len (c ∷ s)) [ zero ↦ c ∷ s | suc k ↦ drop_spaces len k s ]

unfoldable pub trim : Text → Text
unfolding drop_spaces space_len space_end
trim s = reverse (drop_spaces space_end 0 (reverse (drop_spaces space_len 0 s)))

abbrev line_step : ℕ → Text → List Text → List Text
line_step c s [] = (c ∷ []) ∷ []
line_step c s (l ∷ ls) = if c == 13 && byte 0 s == 10 then l ∷ ls else (c ∷ l) ∷ ls

-- `s.lines()`: a line feed, or a carriage return and a line feed, ends a line.
unfoldable pub lines : Text → List Text
lines [] = []
lines (c ∷ s) = if c == 10 then [] ∷ lines s else line_step c s (lines s)

-- `s.strip_suffix(p)`
unfoldable pub strip_suffix : Text → Text → Option Text
strip_suffix p [] = if bytes_beq p [] then some [] else none
strip_suffix p (c ∷ s) =
    if bytes_beq p (c ∷ s) then some [] else Option.map (◌∷◌ c) (strip_suffix p s)
