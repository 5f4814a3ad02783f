-- ===== src/Ech/Keygen.antt =====
-- src/ech/keygen.rs: `validate_public_name` and `run`, which makes a key pair and prints its bundle.
pub mod Laws
pub mod Bundle
pub mod Pair
use zeromasque.Prelude.{
  ℕ, List, [], ◌∷◌, ◌++◌, Option, none, some, Bool, true, false, not, ◌&&◌, ◌||◌, ◌==◌, leb, ltb,
  if◌then◌else◌, length, any, all,
}
use zeromasque.Prelude.Result.{Result, ok, err, ◌>>=◌, ◌>>◌, bail_if, ok_or}
use zeromasque.Text.{Text, codes, is_empty}
use zeromasque.Util.{hex_byte}
use zeromasque.Ech.Config.{CipherSuite, EchConfig, encode_list}
use zeromasque.Ech.Pem.{Base64}
use zeromasque.Ech.Key.{encode_pair_pem}

-- `panicked` is the panic of a length in `EchConfig::encode`.
pub data GenError : Type 0 where
  bad_length no_dot bad_character generate_failed write_failed panicked : GenError

-- A byte of a character that is not ASCII fails the test, as the character does.
abbrev pub allowed_byte : ℕ → Bool
allowed_byte c =
    (leb b'a' c && leb c b'z')
    || ((leb b'A' c && leb c b'Z') || ((leb b'0' c && leb c b'9') || (c == b'.' || c == b'-')))

unfoldable pub validate_public_name : Text → Result GenError (Unit {0})
validate_public_name name = do
  bail_if (is_empty name || ltb 253 (length name)) bad_length
  bail_if (not (any (λ c. c == b'.') name)) no_dot
  bail_if (not (all allowed_byte name)) bad_character
  ok tt

abbrev pub hpke_kem_dhkem_x25519 : ℕ
hpke_kem_dhkem_x25519 = 0x0020

abbrev pub hpke_kdf_hkdf_sha256 : ℕ
hpke_kdf_hkdf_sha256 = 0x0001

abbrev pub hpke_aead_aes_128_gcm : ℕ
hpke_aead_aes_128_gcm = 0x0001

abbrev pub new_config : ℕ → List ℕ → Text → EchConfig
new_config config_id public_key public_name = record {
  config_id = config_id;
  kem_id = hpke_kem_dhkem_x25519;
  public_key = public_key;
  cipher_suites = record { kdf_id = hpke_kdf_hkdf_sha256; aead_id = hpke_aead_aes_128_gcm } ∷ [];
  maximum_name_length = 0;
  public_name = public_name;
}

-- What is printed to stderr, line by line.
unfoldable pub guidance : Text → ℕ → Text → List Text
guidance public_name config_id list_b64 =
    (codes "Generated ECH key for public name `" ++ (public_name ++ codes "`."))
    ∷ (codes "config_id: 0x" ++ hex_byte config_id)
    ∷ codes "Publish the following base64-encoded ECHConfigList"
    ∷ codes "in an HTTPS DNS resource record's `ech=` parameter:"
    ∷ []
    ∷ (codes "  ech=" ++ (34 ∷ (list_b64 ++ 34 ∷ [])))
    ∷ []
    ∷ codes "Run `zeromasque serve --ech-key <FILE>` pointing at the PEM saved from stdout."
    ∷ []

-- The standard streams: a write tells whether it succeeded.
pub record Streams (W : Type 0) : Type 0 where
  pub write_all : Text → W → Bool × W
  pub flush : W → W
  pub write_line : Text → W → Bool × W

-- BoringSSL's key generation, with the public key first, and the random byte are the system's.
module _ {W : Type 0} (base64 : Base64) (io : Streams W)
    (generate_hpke_x25519_keypair : Option (List ℕ × List ℕ)) (random : ℕ) where
  unfoldable pub write_lines : List Text → W → Result GenError (Unit {0}) × W
  write_lines [] w = (ok tt, w)
  write_lines (l ∷ ls) w = elim (io.write_line l w).0 [
    | true ↦ write_lines ls (io.write_line l w).1
    | false ↦ (err write_failed, (io.write_line l w).1)
  ]

  abbrev pub publish : EchConfig → W → Option (List ℕ) → Result GenError (Unit {0}) × W
  publish config w none = (err panicked, w)
  publish config w (some list_bytes) =
      write_lines (guidance config.public_name config.config_id (base64.encode_string list_bytes)) w

  abbrev pub written : EchConfig → Bool × W → Result GenError (Unit {0}) × W
  written config (false, w) = (err write_failed, w)
  written config (true, w) = publish config (io.flush w) (encode_list (config ∷ []))

  abbrev pub save : EchConfig → W → Option Text → Result GenError (Unit {0}) × W
  save config w none = (err panicked, w)
  save config w (some pem) = written config (io.write_all pem w)

  abbrev pub with_keys :
      Text → W → Result GenError (List ℕ × List ℕ) → Result GenError (Unit {0}) × W
  with_keys public_name w (err e) = (err e, w)
  with_keys public_name w (ok (public_key, private_key)) =
      save (new_config random public_key public_name) w
        (encode_pair_pem base64 private_key (new_config random public_key public_name))

  unfoldable pub run : Text → W → Result GenError (Unit {0}) × W
  unfolding validate_public_name
  run public_name w =
      with_keys public_name w (
        validate_public_name public_name >>= λ _.
        ok_or generate_hpke_x25519_keypair generate_failed)
