-- ===== src/Ech/Reader.antt =====
-- The byte reader of src/ech/config.rs, a buffer and a position in it. An index is taken only behind
-- the test on `remaining`, so the default of `get_or` is never read.
pub mod Laws
use zeromasque.Prelude.{
  ℕ, zero, suc, ◌+◌, ◌-◌, ◌*◌, List, [], ◌∷◌, Bool, length, take, drop, ltb, ◌==◌, if◌then◌else◌,
}
use zeromasque.Prelude.Result.{Result, ok, err, ◌>>=◌, ◌>>◌, bail_if}

-- `out_of_fuel` is no error of the program: a loop of the model stopped early.
pub data Error : Type 0 where
  short_read unsupported_version bad_suites_length not_utf8 trailing_bytes out_of_fuel : Error

pub record Reader : Type 0 where
  pub buf : List ℕ
  pub pos : ℕ

abbrev pub new : List ℕ → Reader
new buf = record { buf = buf; pos = 0 }

abbrev pub get_or : List ℕ → ℕ → ℕ → ℕ
get_or [] i d = d
get_or (x ∷ xs) zero d = x
get_or (x ∷ xs) (suc i) d = get_or xs i d

abbrev pub remaining : Reader → ℕ
remaining r = length r.buf - r.pos

abbrev pub is_empty : Reader → Bool
is_empty r = remaining r == 0

-- `self.pos += n`
abbrev pub advance : ℕ → Reader → Reader
advance n r = record r { pos = r.pos + n }

unfoldable pub read_u8 : Reader → Result Error (ℕ × Reader)
read_u8 r = if ltb (remaining r) 1 then err short_read else ok (get_or r.buf r.pos 0, advance 1 r)

unfoldable pub read_u16 : Reader → Result Error (ℕ × Reader)
read_u16 r =
    if ltb (remaining r) 2
    then err short_read
    else ok (get_or r.buf r.pos 0 * 256 + get_or r.buf (r.pos + 1) 0, advance 2 r)

unfoldable pub read_u24 : Reader → Result Error (ℕ × Reader)
read_u24 r =
    if ltb (remaining r) 3
    then err short_read
    else ok (
      (get_or r.buf r.pos 0 * 256 + get_or r.buf (r.pos + 1) 0) * 256 + get_or r.buf (r.pos + 2) 0,
      advance 3 r,
    )

unfoldable pub read_slice : ℕ → Reader → Result Error (List ℕ × Reader)
read_slice n r =
    if ltb (remaining r) n then err short_read else ok (take n (drop r.pos r.buf), advance n r)
