-- ===== src/Text.antt =====
-- The operations of Rust's `str` that the program calls, on a text as the list of its UTF-8 bytes.
-- The separators that it looks for are ASCII, so a search by bytes is a search by characters.
pub mod Split
pub mod Utf8
pub mod Trim
use Prim.Native.Char.{code}
use Prim.Native.String.{String}
use zeromasque.Prelude.{
  ℕ, zero, suc, ◌+◌, List, [], ◌∷◌, ◌++◌, map, Option, none, some, Bool, true, false, ◌&&◌, leb,
  ◌==◌, if◌then◌else◌, bytes_beq,
}
use mathlib.Core.Option

abbrev pub Text : Type 0
Text = List ℕ

-- The bytes of an ASCII literal.
abbrev pub codes : String → Text
codes String.[] = []
codes (String.◌∷◌ c s) = code c ∷ codes s

-- `s.strip_prefix(p)`
abbrev pub strip_prefix : Text → Text → Option Text
strip_prefix [] s = some s
strip_prefix (p ∷ ps) [] = none
strip_prefix (p ∷ ps) (c ∷ s) = if p == c then strip_prefix ps s else none

abbrev pub split_step : ℕ → Option Text → Option (Text × Text) → Option (Text × Text)
split_step c (some after) later = some ([], after)
split_step c none (some (before, after)) = some (c ∷ before, after)
split_step c none none = none

-- `s.split_once(p)` for a pattern that is not empty: at the first occurrence.
unfoldable pub split_once : Text → Text → Option (Text × Text)
split_once p [] = none
split_once p (c ∷ s) = split_step c (strip_prefix p (c ∷ s)) (split_once p s)

abbrev pub rsplit_step : ℕ → ℕ → Text → Option (Text × Text) → Option (Text × Text)
rsplit_step d c s (some (before, after)) = some (c ∷ before, after)
rsplit_step d c s none = if c == d then some ([], s) else none

-- `s.rsplit_once(d)` for a character: at the last occurrence.
unfoldable pub rsplit_once : ℕ → Text → Option (Text × Text)
rsplit_once d [] = none
rsplit_once d (c ∷ s) = rsplit_step d c s (rsplit_once d s)

-- `s.find(d)` for a character.
unfoldable pub find_byte : ℕ → Text → Option ℕ
find_byte d [] = none
find_byte d (c ∷ s) = if c == d then some 0 else Option.map suc (find_byte d s)

abbrev pub is_empty : Text → Bool
is_empty [] = true
is_empty (c ∷ s) = false

abbrev pub ascii_lower : ℕ → ℕ
ascii_lower c = if leb b'A' c && leb c b'Z' then c + 32 else c

-- `s.to_ascii_lowercase()`
unfoldable pub to_ascii_lowercase : Text → Text
to_ascii_lowercase = map ascii_lower

-- `s.eq_ignore_ascii_case(t)`
unfoldable pub eq_ignore_ascii_case : Text → Text → Bool
unfolding to_ascii_lowercase
eq_ignore_ascii_case s t = bytes_beq (to_ascii_lowercase s) (to_ascii_lowercase t)
