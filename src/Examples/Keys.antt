-- ===== src/Examples/Keys.antt =====
-- Examples of the ECH configurations.
use zeromasque.Prelude.{ℕ, ◌≡◌, refl, List, [], ◌∷◌, ◌++◌, some, true, arith}
use zeromasque.Prelude.Result.{ok, err}
use zeromasque.Bytes.{be_bytes}
use zeromasque.Text.{codes}
use zeromasque.Text.Utf8.{is_utf8}
use zeromasque.Ech.Reader.{Reader, trailing_bytes, new, advance, remaining, read_u16}
use zeromasque.Ech.Reader.Laws.{IsWithin}
use zeromasque.Ech.Config.{
  EchConfig, encode, encode_list, decode, contents, suite_bytes, encode_all,
}
use zeromasque.Ech.Config.RoundTrip.{IsConfig}
use zeromasque.Ech.Config.Framing.{
  decode_from-encode, decode-encode_config, Yields, encode_list-Yields,
}
use zeromasque.Ech.Config.Total.{Accepted, decode_from-Accepted}

abbrev pub config : EchConfig
config = record {
  config_id = 7;
  kem_id = 0x20;
  public_key = 1 ∷ 2 ∷ [];
  cipher_suites = record { kdf_id = 1; aead_id = 1 } ∷ [];
  maximum_name_length = 0;
  public_name = codes "a";
}

utf8 : is_utf8 (codes "a") ≡ true
unfolding is_utf8
utf8 = refl

pub config-IsConfig : IsConfig config
config-IsConfig = record {
  kem = omega arith;
  suites = ((omega arith, omega arith), tt);
  some_suite = λ e. cc e;
  name = utf8;
}

abbrev pub encoded : List ℕ
encoded =
    0xfe ∷ 0x0d ∷ 0 ∷ 18 ∷ 7 ∷ 0 ∷ 0x20 ∷ 0 ∷ 2 ∷ 1 ∷ 2 ∷ 0 ∷ 4 ∷ 0 ∷ 1 ∷ 0 ∷ 1 ∷ 0 ∷ 1 ∷ 97 ∷ 0 ∷ 0
    ∷ []

pub encodes : encode config ≡ some encoded
unfolding encode contents suite_bytes be_bytes
encodes = refl

decode-encode_config_example :
    (decode encoded ≡ ok config)
    × ((x : ℕ) (more : List ℕ) → decode (encoded ++ x ∷ more) ≡ err trailing_bytes)
decode-encode_config_example = decode-encode_config config encoded config-IsConfig encodes

list_encodes : encode_list (config ∷ []) ≡ some (0 ∷ 22 ∷ encoded)
unfolding encode_list encode_all encode contents suite_bytes be_bytes
list_encodes = refl

encode_list-Yields_example :
    (len : ℕ) × (r : Reader) × (read_u16 (new (0 ∷ 22 ∷ encoded)) ≡ ok (len, r))
    × (len ≡ remaining r)
    × Yields r (config ∷ [])
encode_list-Yields_example =
    encode_list-Yields (config ∷ []) (0 ∷ 22 ∷ encoded) (config-IsConfig, tt) list_encodes

decode_from-Accepted_example : Accepted config
decode_from-Accepted_example =
    decode_from-Accepted (new encoded) config (advance 22 (new encoded))
      (decode_from-encode config encoded (new encoded) [] config-IsConfig encodes refl).0

within : IsWithin (new encoded)
within = omega arith
