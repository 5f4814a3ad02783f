-- ===== src/Ech/Key/RoundTrip.antt =====
-- `encode_pair_pem` and `parse_pem_bundle` of src/ech/key.rs against each other.
use zeromasque.Prelude.{
  ℕ, ◌<◌, ◌≡◌, refl, ap, subst, ◌∙◌, List, [], ◌∷◌, ◌++◌, Option, some, arith, All, All-append,
  append_assoc, append-nil,
}
use zeromasque.Prelude.Maybe as Maybe
use zeromasque.Prelude.Maybe.{>>=-eq-some}
use zeromasque.Prelude.Members.{All-map}
use zeromasque.Prelude.Result.{ok}
use mathlib.Core.Option.{some-injective}
use zeromasque.Bytes.{IsByte, be_bytes}
use zeromasque.Bytes.Laws.{be_bytes-IsByte}
use zeromasque.Text.{Text, codes}
use zeromasque.Text.Trim.{lines}
use zeromasque.Text.Utf8.{is_utf8_ascii, from_utf8_valid}
use zeromasque.Io.{chunks}
use zeromasque.Ech.Config.{CipherSuite, EchConfig, encode, suite_bytes, contents}
use zeromasque.Ech.Config.RoundTrip.{IsConfig}
use zeromasque.Ech.Config.Framing.{decode-encode_config, encode-some}
use zeromasque.Ech.Pem.{
  Base64, PemBlock, block, dashes, scan_lines, parse_pem_blocks, write_pem_block, begin_line,
  end_line, body_lines,
}
use zeromasque.Ech.Pem.RoundTrip.{IsBase64, Encodes, idle, scan_block, chunks-All}
use zeromasque.Ech.Key.{
  EchKeyPair, pem_label_key, pem_label_config, pair_blocks, parse_pem_bundle, encode_pair_pem,
}

-- The bytes of a configuration of the Rust type are bytes.
pub record HasBytes (c : EchConfig) : Type 0 where
  pub id : IsByte c.config_id
  pub key : All IsByte c.public_key
  pub max : IsByte c.maximum_name_length
  pub name : All IsByte c.public_name

suite_bytes-IsByte : (css : List CipherSuite) → All IsByte (suite_bytes css)
unfolding suite_bytes
suite_bytes-IsByte [] = tt
suite_bytes-IsByte (cs ∷ css) =
    All-append IsByte (be_bytes 2 cs.kdf_id) _ (be_bytes-IsByte 2 cs.kdf_id) (
      All-append IsByte (be_bytes 2 cs.aead_id) _ (be_bytes-IsByte 2 cs.aead_id)
        (suite_bytes-IsByte css))

contents-IsByte :
    (c : EchConfig) (pk cs pn : ℕ) → HasBytes c → IsByte pn → All IsByte (contents c pk cs pn)
unfolding contents
contents-IsByte c pk cs pn h small = (
  h.id,
  All-append IsByte (be_bytes 2 c.kem_id) _ (be_bytes-IsByte 2 c.kem_id) (
      All-append IsByte (be_bytes 2 pk) _ (be_bytes-IsByte 2 pk) (
        All-append IsByte c.public_key _ h.key (
          All-append IsByte (be_bytes 2 cs) _ (be_bytes-IsByte 2 cs) (
            All-append IsByte (suite_bytes c.cipher_suites) _ (suite_bytes-IsByte c.cipher_suites)
              (h.max, (small, All-append IsByte c.public_name _ h.name (omega arith))))))),
)

pub encode-IsByte :
    (c : EchConfig) (bytes : List ℕ) → HasBytes c → encode c ≡ some bytes → All IsByte bytes
encode-IsByte c bytes h e =
    let (fits, same) = encode-some c bytes e in
    rw same (
      All-append IsByte (be_bytes 2 _) _ (be_bytes-IsByte 2 _) (
        All-append IsByte (be_bytes 2 _) _ (be_bytes-IsByte 2 _)
          (contents-IsByte c _ _ _ h (omega arith))))

-- A pair that can be in a key set.
abbrev pub IsPair : EchKeyPair → Type 0
IsPair p = All IsByte p.private_key × IsConfig p.config × HasBytes p.config

module _ (base64 : Base64) where
  -- The bundles of pairs, one behind the other.
  abbrev pub encode_pairs : List EchKeyPair → Option Text
  encode_pairs [] = some []
  encode_pairs (p ∷ ps) =
      Maybe.◌>>=◌ (encode_pair_pem base64 p.private_key p.config)
        λ pem. Maybe.◌>>=◌ (encode_pairs ps) λ rest. some (pem ++ rest)

  -- The blocks that a scan finds in a text, and the pairs that they stand for.
  abbrev Reads : Text → List EchKeyPair → Type 0
  Reads text ps =
      (bs : List PemBlock) × ((out : List PemBlock)
        → scan_lines base64 (idle base64 out) (lines text) ≡ ok (out ++ bs))
      × (pair_blocks bs ≡ ok ps)
      × All (λ b. b < 128) text

  abbrev pub pem_of : List ℕ → List ℕ → Text
  pem_of key bytes =
      write_pem_block base64 pem_label_key key ++ write_pem_block base64 pem_label_config bytes

  module _ (e : Encodes base64) where
    body_lines-ascii :
        (cs : List Text) → All (All IsBase64) cs → All (λ b. b < 128) (body_lines base64 cs)
    unfolding body_lines
    body_lines-ascii [] h = tt
    body_lines-ascii (c ∷ cs) h =
        All-append _ c _ (All-map (λ b k. ground arith) c h.0)
          (omega arith, body_lines-ascii cs h.1)

    block-ascii :
        (label : Text) (bytes : List ℕ)
        → All (λ b. b < 128) label
        → All IsByte bytes
        → All (λ b. b < 128) (write_pem_block base64 label bytes)
    unfolding write_pem_block
    block-ascii label bytes hl hb =
        All-append _ (begin_line label) _
          (All-append _ (codes "-----BEGIN ") _ (omega arith)
            (All-append _ label dashes hl (omega arith)))
          (
            omega arith,
            All-append _ (body_lines base64 (chunks 64 (base64.encode_string bytes))) _
                (body_lines-ascii _ (chunks-All IsBase64 64 _ (e.alphabet bytes hb)))
                (All-append _ (end_line label) (10 ∷ [])
                  (All-append _ (codes "-----END ") _ (omega arith)
                    (All-append _ label dashes hl (omega arith)))
                  (omega arith)),
          )

    scan_pair :
        (key bytes : List ℕ) (rest : Text) (out : List PemBlock)
        → All IsByte key
        → All IsByte bytes
        → scan_lines base64 (idle base64 out) (lines (pem_of key bytes ++ rest))
          ≡ scan_lines base64
              (idle base64 (
                (out ++ block base64 pem_label_key key ∷ [])
                ++ block base64 pem_label_config bytes ∷ []))
              (lines rest)
    scan_pair key bytes rest out hk hb =
        ap (λ t. scan_lines base64 (idle base64 out) (lines t))
          (append_assoc (write_pem_block base64 pem_label_key key) _ rest)
        ∙ scan_block base64 pem_label_key key out _ (ground arith) (e.alphabet key hk)
            (e.decodes key hk)
        ∙ scan_block base64 pem_label_config bytes _ rest (ground arith) (e.alphabet bytes hb)
            (e.decodes bytes hb)

    read_pair :
        (p : EchKeyPair) (ps : List EchKeyPair) (bytes : List ℕ) (rest : Text)
        → IsPair p
        → encode p.config ≡ some bytes
        → Reads rest ps
        → Reads (pem_of p.private_key bytes ++ rest) (p ∷ ps)
    unfolding pair_blocks
    read_pair p ps bytes rest (hk, hc, hb) enc (bs, scans, pairs, ascii) =
        let bytes_ok = encode-IsByte p.config bytes hb enc in
        (
          block base64 pem_label_key p.private_key ∷ block base64 pem_label_config bytes ∷ bs,
          λ out.
              scan_pair p.private_key bytes rest out hk bytes_ok
              ∙ scans _
              ∙ ap ok (
                  append_assoc (out ++ block base64 pem_label_key p.private_key ∷ []) _ bs
                  ∙ append_assoc out _ _),
          rw ((decode-encode_config p.config bytes hc enc).0, pairs) refl,
          All-append _ (pem_of p.private_key bytes) rest
              (All-append _ (write_pem_block base64 pem_label_key p.private_key) _
                (block-ascii pem_label_key p.private_key (omega arith) hk)
                (block-ascii pem_label_config bytes (omega arith) bytes_ok))
              ascii,
        )

    encode_pairs-Reads :
        (ps : List EchKeyPair) (text : Text)
        → All IsPair ps
        → encode_pairs ps ≡ some text
        → Reads text ps
    unfolding encode_pair_pem scan_lines lines pair_blocks
    encode_pairs-Reads [] text h k =
        subst (λ t. Reads t []) (some-injective _ _ k) ([], λ out. rw append-nil refl, refl, tt)
    encode_pairs-Reads (p ∷ ps) text h k =
        let (pem, k1, k2) = >>=-eq-some (encode_pair_pem base64 p.private_key p.config) _ k in
        let (bytes, enc, k3) = >>=-eq-some (encode p.config) _ k1 in
        let (rest, k4, k5) = >>=-eq-some (encode_pairs ps) _ k2 in
        subst (λ t. Reads t (p ∷ ps))
          (ap (λ t. t ++ rest) (some-injective _ _ k3) ∙ some-injective _ _ k5)
          (read_pair p ps bytes rest h.0 enc (encode_pairs-Reads ps rest h.1 k4))

    -- Key bundles are read back: for pairs of bytes whose configurations have a cipher suite and a name
    -- in UTF-8, what `encode_pair_pem` writes for them, one bundle behind the other, is read by
    -- `parse_pem_bundle` as these pairs, in their order.
    pub parse_pem_bundle-encode_pairs :
        (ps : List EchKeyPair) (text : Text)
        → All IsPair ps
        → encode_pairs ps ≡ some text
        → parse_pem_bundle base64 text ≡ ok ps
    unfolding parse_pem_bundle parse_pem_blocks
    parse_pem_bundle-encode_pairs ps text h k =
        let (bs, scans, pairs, ascii) = encode_pairs-Reads ps text h k in
        rw (from_utf8_valid text (is_utf8_ascii text ascii), scans []) pairs
