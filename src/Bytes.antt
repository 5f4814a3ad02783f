-- ===== src/Bytes.antt =====
-- Fixed-width integers as big-endian bytes (Rust's `to_be_bytes`), which the varint codec and the
-- ECH wire format of src/varint.rs and src/ech/config.rs write and read.
pub mod Laws
use zeromasque.Prelude.{ℕ, zero, suc, ◌/◌, ◌%◌, ◌^◌, ◌*◌, ◌<◌, List, [], ◌∷◌}
use zeromasque.Prelude.{bit_or}

abbrev pub IsByte : ℕ → Type 0
IsByte b = b < 256

-- The `n` low bytes of `v`, highest first.
unfoldable pub be_bytes : ℕ → ℕ → List ℕ
be_bytes zero v = []
be_bytes (suc n) v = (v / 256 ^ n % 256) ∷ be_bytes n v

-- `for &b in bytes { value = (value << 8) | u64::from(b); }` on a 64-bit value.
unfoldable pub read_be : ℕ → List ℕ → ℕ
read_be value [] = value
read_be value (b ∷ bs) = read_be (bit_or (value * 2 ^ 8 % 2 ^ 64) b) bs
