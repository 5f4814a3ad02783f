-- ===== src/Varint.antt =====
-- src/varint.rs: QUIC variable-length integers (RFC 9000, section 16). A slice is a list of bytes,
-- and a Rust `usize` or `u64` is a number; the shifts and masks are the source's.
pub mod Decode
pub mod RoundTrip
use zeromasque.Prelude.{
  ℕ, zero, suc, ◌+◌, ◌-◌, ◌*◌, ◌/◌, ◌%◌, ◌^◌, ◌<◌, List, [], ◌∷◌, ◌++◌, Option, none, some, length,
  take, ltb, leb, ◌==◌, if◌then◌else◌, bit_and, bit_or,
}
use zeromasque.Bytes.{be_bytes, read_be}

-- The two high bits of the first byte choose a length of 1, 2, 4 or 8 bytes:
-- `1usize << (first >> 6)`.
abbrev pub encoded_width : ℕ → ℕ
encoded_width first = 2 ^ (first / 2 ^ 6)

-- The value and the number of bytes consumed, or `none` where `buf` is too short.
unfoldable pub decode : List ℕ → Option (ℕ × ℕ)
decode [] = none
decode (first ∷ rest) =
    let len = encoded_width first in
    if ltb (length (first ∷ rest)) len
    then none
    else some (read_be (bit_and first 0x3f) (take (len - 1) rest), len)

unfoldable pub encoded_len : ℕ → ℕ
encoded_len value =
    if leb value 63
    then 1
    else if leb value 16383
    then 2
    else if leb value 1_073_741_823
    then 4
    else 8

-- Appends to `out`; `as u8`, `as u16` and `as u32` keep the low bits.
unfoldable pub encode : ℕ → List ℕ → List ℕ
unfolding encoded_len
encode value out =
    if encoded_len value == 1
    then out ++ (value % 2 ^ 8) ∷ []
    else if encoded_len value == 2
    then out ++ be_bytes 2 (bit_or (value % 2 ^ 16) 0x4000)
    else if encoded_len value == 4
    then out ++ be_bytes 4 (bit_or (value % 2 ^ 32) 0x8000_0000)
    else out ++ be_bytes 8 (bit_or value 0xc000_0000_0000_0000)
