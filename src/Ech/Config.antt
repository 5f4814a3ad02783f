-- ===== src/Ech/Config.antt =====
-- `EchConfig` of src/ech/config.rs: its encoding, its decoding and the list of configurations.
-- `none` of an encoder is the panic of an `expect` on a length that does not fit its field.
pub mod RoundTrip
pub mod Framing
pub mod Total
use zeromasque.Prelude.{
  ℕ, zero, suc, ◌+◌, ◌*◌, ◌/◌, ◌%◌, ◌^◌, List, [], ◌∷◌, ◌++◌, Option, none, some, Bool, not, ◌||◌,
  length, ltb, ◌==◌, if◌then◌else◌,
}
use zeromasque.Prelude.Maybe as Maybe
use zeromasque.Prelude.Result.{Result, ok, err, ◌>>=◌, ◌>>◌, bail_if, ok_or}
use zeromasque.Bytes.{be_bytes}
use zeromasque.Text.{Text}
use zeromasque.Text.Utf8.{from_utf8}
use zeromasque.Ech.Reader.{
  Reader, Error, unsupported_version, bad_suites_length, not_utf8, trailing_bytes, out_of_fuel, new,
  is_empty, remaining, read_u8, read_u16, read_slice,
}

abbrev pub ech_config_version_v18 : ℕ
ech_config_version_v18 = 0xfe0d

pub record CipherSuite : Type 0 where
  pub kdf_id : ℕ
  pub aead_id : ℕ

pub record EchConfig : Type 0 where
  pub config_id : ℕ
  pub kem_id : ℕ
  pub public_key : List ℕ
  pub cipher_suites : List CipherSuite
  pub maximum_name_length : ℕ
  pub public_name : Text

-- `u8::try_from(n)` and `u16::try_from(n)`
abbrev pub try_from : ℕ → ℕ → Option ℕ
try_from bits n = if ltb n (2 ^ bits) then some n else none

unfoldable pub suite_bytes : List CipherSuite → List ℕ
suite_bytes [] = []
suite_bytes (cs ∷ css) = be_bytes 2 cs.kdf_id ++ (be_bytes 2 cs.aead_id ++ suite_bytes css)

-- The contents, with the lengths of the key, the suites and the name.
unfoldable pub contents : EchConfig → ℕ → ℕ → ℕ → List ℕ
contents c pk_len cs_bytes_len pn_len =
    c.config_id
    ∷ (be_bytes 2 c.kem_id
        ++ (be_bytes 2 pk_len
            ++ (c.public_key
                ++ (be_bytes 2 cs_bytes_len
                    ++ (suite_bytes c.cipher_suites
                        ++ (c.maximum_name_length ∷ pn_len ∷ (c.public_name ++ 0 ∷ 0 ∷ [])))))))

abbrev pub frame : List ℕ → ℕ → List ℕ
frame body len = be_bytes 2 ech_config_version_v18 ++ (be_bytes 2 len ++ body)

unfoldable pub encode : EchConfig → Option (List ℕ)
encode c = Maybe.◌>>=◌ (try_from 16 (length c.public_key)) λ pk_len.
    Maybe.◌>>=◌ (try_from 16 (length c.cipher_suites * 4)) λ cs_bytes_len.
      Maybe.◌>>=◌ (try_from 8 (length c.public_name)) λ pn_len.
        let body = contents c pk_len cs_bytes_len pn_len in
        Maybe.◌>>=◌ (try_from 16 (length body)) λ contents_len. some (frame body contents_len)

-- `while !csr.is_empty()`, on fuel: a round takes four bytes, so as many rounds as there are bytes
-- are enough.
unfoldable pub read_suites : ℕ → Reader → Result Error (List CipherSuite)
read_suites zero csr = if is_empty csr then ok [] else err out_of_fuel
read_suites (suc fuel) csr =
    let round = do
      (kdf_id, r) ← read_u16 csr
      (aead_id, r') ← read_u16 r
      suites ← read_suites fuel r'
      ok (record { kdf_id = kdf_id; aead_id = aead_id } ∷ suites)
    in if is_empty csr then ok [] else round

-- The second half of `decode_from`, on the contents. Bytes behind the extensions are ignored.
unfoldable pub decode_contents : List ℕ → Result Error EchConfig
decode_contents bytes = do
  (config_id, r1) ← read_u8 (new bytes)
  (kem_id, r2) ← read_u16 r1
  (pk_len, r3) ← read_u16 r2
  (public_key, r4) ← read_slice pk_len r3
  (cs_bytes_len, r5) ← read_u16 r4
  bail_if (not (cs_bytes_len % 4 == 0) || cs_bytes_len == 0) bad_suites_length
  (cs_bytes, r6) ← read_slice cs_bytes_len r5
  cipher_suites ← read_suites (length cs_bytes) (new cs_bytes)
  (maximum_name_length, r7) ← read_u8 r6
  (pn_len, r8) ← read_u8 r7
  (pn_bytes, r9) ← read_slice pn_len r8
  public_name ← ok_or (from_utf8 pn_bytes) not_utf8
  (ext_len, r10) ← read_u16 r9
  (ext_bytes, r11) ← read_slice ext_len r10
  ok (record {
    config_id = config_id;
    kem_id = kem_id;
    public_key = public_key;
    cipher_suites = cipher_suites;
    maximum_name_length = maximum_name_length;
    public_name = public_name;
  })

-- The configuration, and the reader behind it.
unfoldable pub decode_from : Reader → Result Error (EchConfig × Reader)
decode_from r = do
  (version, r1) ← read_u16 r
  (contents_len, r2) ← read_u16 r1
  (body, r3) ← read_slice contents_len r2
  bail_if (not (version == ech_config_version_v18)) unsupported_version
  c ← decode_contents body
  ok (c, r3)

unfoldable pub decode : List ℕ → Result Error EchConfig
decode bytes = do
  (cfg, r) ← decode_from (new bytes)
  bail_if (not (is_empty r)) trailing_bytes
  ok cfg

-- The body of an ECHConfigList.
unfoldable pub encode_all : List EchConfig → Option (List ℕ)
encode_all [] = some []
encode_all (c ∷ cs) =
    Maybe.◌>>=◌ (encode c) λ bytes. Maybe.◌>>=◌ (encode_all cs) λ more. some (bytes ++ more)

unfoldable pub encode_list : List EchConfig → Option (List ℕ)
encode_list configs =
    Maybe.◌>>=◌ (encode_all configs)
      λ body. Maybe.◌>>=◌ (try_from 16 (length body)) λ body_len. some (be_bytes 2 body_len ++ body)
