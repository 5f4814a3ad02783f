-- ===== src/Util.antt =====
-- src/util.rs: hexadecimal for the log and for messages.
use zeromasque.Prelude.{ℕ, ◌+◌, ◌-◌, ◌/◌, ◌%◌, List, [], ◌∷◌, ltb, if◌then◌else◌}
use zeromasque.Text.{Text}

abbrev digit : ℕ → ℕ
digit n = if ltb n 10 then b'0' + n else b'a' + (n - 10)

-- `{b:02x}` of a byte.
abbrev pub hex_byte : ℕ → Text
hex_byte b = digit (b / 16) ∷ digit (b % 16) ∷ []

unfoldable pub hex : List ℕ → Text
hex [] = []
hex (b ∷ bs) = digit (b / 16) ∷ digit (b % 16) ∷ hex bs
