-- ===== src/Ech/Config/Framing.antt =====
-- The framing of src/ech/config.rs: a configuration with its version and length, and the list.
use zeromasque.Prelude.{
  ℕ, ◌+◌, ◌*◌, ◌^◌, ◌<◌, ◌≡◌, ◌↔◌, ◌∙◌, refl, sym, ap, List, [], ◌∷◌, ◌++◌, some, arith, true,
  append-nil, append_assoc, length, All, Option-cases, inl, inr,
}
use zeromasque.Prelude.Result.{ok, err}
use zeromasque.Bytes.{be_bytes}
use zeromasque.Ech.Reader.{Reader, trailing_bytes, new, advance, remaining, is_empty, read_u16}
use zeromasque.Ech.Reader.Laws.{At, advance-At, remaining-At, read_u16-At, read_slice-At}
use zeromasque.Ech.Config.{
  EchConfig, contents, encode, encode_all, encode_list, decode_from, decode, frame,
  ech_config_version_v18,
}
use zeromasque.Ech.Config.RoundTrip.{IsConfig, IsU16, u16_behind, decode_contents-contents}

-- The contents with their own lengths.
abbrev pub body : EchConfig → List ℕ
body c = contents c (length c.public_key) (length c.cipher_suites * 4) (length c.public_name)

-- What the four `expect`s of `encode` need.
abbrev pub Fits : EchConfig → Type 0
Fits c =
    IsU16 (length c.public_key)
    × IsU16 (length c.cipher_suites * 4)
    × (length c.public_name < 2 ^ 8)
    × IsU16 (length (body c))

pub encode-some :
    (c : EchConfig) (bytes : List ℕ)
    → encode c ≡ some bytes
    → Fits c × (bytes ≡ frame (body c) (length (body c)))
unfolding encode
encode-some c bytes h = ground arith

Fits-encode : (c : EchConfig) → Fits c → encode c ≡ some (frame (body c) (length (body c)))
unfolding encode
Fits-encode c f = ground arith

-- `encode` does not panic exactly when each length fits its field.
pub encode-Fits : (c : EchConfig) → ((bytes : List ℕ) × (encode c ≡ some bytes)) ↔ Fits c
encode-Fits c =
    (λ w. (encode-some c w.0 w.1).0, λ f. (frame (body c) (length (body c)), Fits-encode c f))

pub decode_from-frame :
    (c : EchConfig) (r : Reader) (rest : List ℕ)
    → IsConfig c
    → Fits c
    → At r (frame (body c) (length (body c)) ++ rest)
    → decode_from r ≡ ok (c, advance (length (body c)) (advance 2 (advance 2 r)))
unfolding decode_from be_bytes
decode_from-frame c r rest v f a =
    let b : List ℕ = body c in
    let r1 = advance 2 r in
    let r2 = advance 2 r1 in
    let w1 : List ℕ = be_bytes 2 (length b) ++ (b ++ rest) in
    let w : List ℕ = be_bytes 2 ech_config_version_v18 ++ w1 in
    let a0 : At r w =
      a
      ∙ ap (◌++◌ (be_bytes 2 ech_config_version_v18))
          (append_assoc (be_bytes 2 (length b)) b rest) in
    let a1 : At r1 w1 = u16_behind r ech_config_version_v18 w1 a0 in
    let a2 : At r2 (b ++ rest) = u16_behind r1 (length b) (b ++ rest) a1 in
    rw
      (
        read_u16-At r ech_config_version_v18 w1 (omega arith) a0,
        read_u16-At r1 (length b) (b ++ rest) f.3 a1,
        read_slice-At r2 (length b) b rest refl a2,
        decode_contents-contents c _ _ _ v refl refl refl f.0 f.1,
      )
      refl

-- A configuration that `encode` wrote at the reader, whatever follows it, is read back whole, and
-- the reader stands behind it.
pub decode_from-encode :
    (c : EchConfig) (bytes : List ℕ) (r : Reader) (rest : List ℕ)
    → IsConfig c
    → encode c ≡ some bytes
    → At r (bytes ++ rest)
    → (decode_from r ≡ ok (c, advance (length bytes) r)) × At (advance (length bytes) r) rest
decode_from-encode c bytes r rest v h a =
    let (f, e) = encode-some c bytes h in
    let size : length bytes ≡ 4 + length (body c) = ap length e ∙ unfold be_bytes in omega arith in
    let there : r.pos + 2 + 2 + length (body c) ≡ r.pos + length bytes = omega arith in
    (
      decode_from-frame c r rest v f (a ∙ ap (λ t. t ++ rest) e)
          ∙ ap (λ k. ok (c, record r { pos = k })) there,
      advance-At r bytes rest (length bytes) refl a,
    )

-- `decode` reads back what `encode` writes of a configuration that has a cipher suite, a name that
-- is a text, and bytes and numbers that fit their fields; it refuses bytes behind the configuration.
pub decode-encode_config :
    (c : EchConfig) (bytes : List ℕ)
    → IsConfig c
    → encode c ≡ some bytes
    → (decode bytes ≡ ok c)
      × ((x : ℕ) (more : List ℕ) → decode (bytes ++ x ∷ more) ≡ err trailing_bytes)
unfolding decode
decode-encode_config c bytes v h = (exact, longer)
  where
    exact : decode bytes ≡ ok c
    exact =
        let (read, end) = decode_from-encode c bytes (new bytes) [] v h (sym (append-nil bytes)) in
        rw read (ground (arith, remaining-At (advance (length bytes) (new bytes)) [] end))

    longer : (x : ℕ) (more : List ℕ) → decode (bytes ++ x ∷ more) ≡ err trailing_bytes
    longer x more =
        let (read, end) =
          decode_from-encode c bytes (new (bytes ++ x ∷ more)) (x ∷ more) v h refl in
        rw read (
          ground
            (arith, remaining-At (advance (length bytes) (new (bytes ++ x ∷ more))) (x ∷ more) end))

-- `decode_from`, called again and again, gives these configurations and then nothing is left.
abbrev pub Yields : Reader → List EchConfig → Type 0
Yields r [] = is_empty r ≡ true
Yields r (c ∷ cs) = (r' : Reader) × (decode_from r ≡ ok (c, r')) × Yields r' cs

encode_all-Yields :
    (cs : List EchConfig) (bytes : List ℕ) (r : Reader)
    → All IsConfig cs
    → encode_all cs ≡ some bytes
    → At r bytes
    → Yields r cs
unfolding encode_all
encode_all-Yields [] bytes r v h a = ground (arith, remaining-At r bytes a)
encode_all-Yields (c ∷ cs) bytes r v h a = elim (Option-cases (encode c)) [
  | inl gone ↦ absurd (ground (arith, gone))
  | inr (b, one) ↦ elim (Option-cases (encode_all cs)) [
    | inl gone ↦ absurd (ground (arith, one, gone))
    | inr (more, others) ↦
        let joined : bytes ≡ b ++ more = ground (arith, one, others) in
        let (read, end) = decode_from-encode c b r more v.0 one (a ∙ joined) in
        (
          advance (length b) r,
          read,
          encode_all-Yields cs more (advance (length b) r) v.1 others end,
        )
  ]
]

list-some :
    (cs : List EchConfig) (b bytes : List ℕ)
    → encode_all cs ≡ some b
    → encode_list cs ≡ some bytes
    → IsU16 (length b) × (bytes ≡ be_bytes 2 (length b) ++ b)
unfolding encode_list
list-some cs b bytes all h = ground (arith, all)

-- Where every configuration has a cipher suite, a name that is a text, and bytes and numbers that fit
-- their fields, the encoded ECHConfigList is its length in two bytes and then configurations that
-- `decode_from` reads back in their order, up to the end.
pub encode_list-Yields :
    (cs : List EchConfig) (bytes : List ℕ)
    → All IsConfig cs
    → encode_list cs ≡ some bytes
    → (len : ℕ) × (r : Reader) × (read_u16 (new bytes) ≡ ok (len, r))
      × (len ≡ remaining r)
      × Yields r cs
unfolding encode_list
encode_list-Yields cs bytes v h = elim (Option-cases (encode_all cs)) [
  | inl gone ↦ absurd (ground (arith, gone))
  | inr (b, all) ↦
      let (small, e) = list-some cs b bytes all h in
      let start : At (new bytes) (be_bytes 2 (length b) ++ b) = e in
      let end : At (advance 2 (new bytes)) b = u16_behind (new bytes) (length b) b start in
      (
        length b,
        advance 2 (new bytes),
        read_u16-At (new bytes) (length b) b small start,
        sym (remaining-At _ b end),
        encode_all-Yields cs b (advance 2 (new bytes)) v all end,
      )
]
