-- ===== src/Ech/Keygen/Bundle.antt =====
-- `run` of src/ech/keygen.rs: what it prints, against the readers of src/ech/key.rs.
use zeromasque.Prelude.{
  ℕ, ◌+◌, ◌<◌, ◌≡◌, refl, ap, List, [], ◌∷◌, ◌++◌, Option, some, true, arith, All, length,
  length-append, append-nil, lt→ltb, subst,
}
use zeromasque.Prelude.Members.{All-map}
use zeromasque.Prelude.Result.{ok, err, Result-cases}
use mathlib.Core.Logic.{inl, inr}
use zeromasque.Bytes.{IsByte, be_bytes}
use zeromasque.Text.{Text}
use zeromasque.Text.Utf8.{is_utf8_ascii}
use zeromasque.Ech.Config.{EchConfig, encode, encode_all, encode_list, contents, suite_bytes}
use zeromasque.Ech.Config.RoundTrip.{IsConfig}
use zeromasque.Ech.Config.Framing.{body, Fits, encode-Fits, encode-some}
use zeromasque.Ech.Pem.{Base64}
use zeromasque.Ech.Pem.RoundTrip.{Encodes}
use zeromasque.Ech.Key.{EchKeyPair, parse_pem_bundle, encode_pair_pem, config_list_bytes}
use zeromasque.Ech.Key.RoundTrip.{HasBytes, IsPair, pem_of, parse_pem_bundle-encode_pairs}
use zeromasque.Ech.Keygen.{
  GenError, new_config, Streams, guidance, write_lines, run, validate_public_name,
}
use zeromasque.Ech.Keygen.Laws.{IsNameByte, IsPublicName, validate_public_name_lem}

name_bytes : (s : Text) → All IsNameByte s → All (λ b. b < 128) s
name_bytes s = All-map (λ c h. ground arith) s

-- A new configuration is short: its contents have 47 bytes and the name.
length-body :
    (id : ℕ) (pk : List ℕ) (name : Text)
    → length pk ≡ 32
    → length (body (new_config id pk name)) ≡ 47 + length name
unfolding contents suite_bytes be_bytes
length-body id pk name h = omega (
  arith,
  length-append pk (0 ∷ 4 ∷ 0 ∷ 1 ∷ 0 ∷ 1 ∷ 0 ∷ length name ∷ (name ++ 0 ∷ 0 ∷ [])),
  length-append name (0 ∷ 0 ∷ []),
)

module _ (id : ℕ) (pk : List ℕ) (name : Text) (p : IsPublicName name) (size : length pk ≡ 32) where
  new-Fits : Fits (new_config id pk name)
  new-Fits = (omega arith, omega arith, omega arith, omega (arith, length-body id pk name size))

  new-IsConfig : IsConfig (new_config id pk name)
  new-IsConfig = record {
    kem = omega arith;
    suites = ((omega arith, omega arith), tt);
    some_suite = λ e. cc e;
    name = is_utf8_ascii name (name_bytes name p.3);
  }

  new-HasBytes : IsByte id → All IsByte pk → HasBytes (new_config id pk name)
  new-HasBytes h k = record {
    id = h;
    key = k;
    max = omega arith;
    name = All-map (λ c b. omega arith) name (name_bytes name p.3);
  }

  length-encode :
      (bytes : List ℕ)
      → encode (new_config id pk name) ≡ some bytes
      → length bytes ≡ 51 + length name
  unfolding be_bytes
  length-encode bytes e = omega (
    arith,
    ap length (encode-some (new_config id pk name) bytes e).1,
    length-body id pk name size,
  )

  list_yields :
      (bytes : List ℕ)
      → encode (new_config id pk name) ≡ some bytes
      → encode_list (new_config id pk name ∷ []) ≡ some (be_bytes 2 (length bytes) ++ bytes)
  unfolding encode_list encode_all
  list_yields bytes e =
      rw
        (
          e,
          append-nil bytes,
          lt→ltb (length bytes) 65536 (omega (arith, length-encode bytes e, p.1)),
        )
        refl

module _ {W : Type 0} (base64 : Base64) (e : Encodes base64) (io : Streams W) (id : ℕ) where
  abbrev pair : List ℕ → List ℕ → Text → EchKeyPair
  pair pk sk name = record { private_key = sk; config = new_config id pk name }

  pem_made :
      (sk : List ℕ) (c : EchConfig) (bytes : List ℕ)
      → encode c ≡ some bytes
      → encode_pair_pem base64 sk c ≡ some (pem_of base64 sk bytes)
  unfolding encode_pair_pem
  pem_made sk c bytes enc = rw enc refl

  -- The bundle of one pair is read back.
  read_one :
      (q : EchKeyPair) (pem : Text)
      → IsPair q
      → encode_pair_pem base64 q.private_key q.config ≡ some pem
      → parse_pem_bundle base64 pem ≡ ok (q ∷ [])
  read_one q pem h made =
      subst (λ t. parse_pem_bundle base64 t ≡ ok (q ∷ [])) (append-nil pem)
        (parse_pem_bundle-encode_pairs base64 e (q ∷ []) (pem ++ []) (h, tt) (rw made refl))

  -- What a run leaves, and what the files that it leads to hold.
  abbrev pub Generates : List ℕ → List ℕ → Text → W → Type 0
  Generates pk sk name w =
      (pem : Text) × (list : List ℕ) × (run base64 io (some (pk, sk)) id name w
        ≡ write_lines base64 io (some (pk, sk)) id (guidance name id (base64.encode_string list))
            (io.flush (io.write_all pem w).1))
      × (parse_pem_bundle base64 pem ≡ ok (pair pk sk name ∷ []))
      × (config_list_bytes (record { pairs = pair pk sk name ∷ [] }) ≡ some list)

  -- A key pair of 32 bytes each is made into a bundle for a valid name: where the write to stdout
  -- succeeds, `run` writes a text that `parse_pem_bundle` reads as this one pair, whose configuration
  -- has the name, and then prints in base64 the very list of configurations that a server which loads
  -- the pair publishes.
  pub run-Generates :
      (pk sk : List ℕ) (name : Text) (w : W)
      → IsPublicName name
      → IsByte id
      → length pk ≡ 32
      → All IsByte pk
      → All IsByte sk
      → ((text : Text) → (io.write_all text w).0 ≡ true)
      → Generates pk sk name w
  unfolding run config_list_bytes
  run-Generates pk sk name w p hid size hpk hsk writes =
      let (bytes, enc) = (encode-Fits (new_config id pk name)).1 (new-Fits id pk name p size) in
      let pem = pem_of base64 sk bytes in
      let made = pem_made sk (new_config id pk name) bytes enc in
      let list = be_bytes 2 (length bytes) ++ bytes in
      let listed = list_yields id pk name p size bytes enc in
      (
        pem,
        list,
        rw ((validate_public_name_lem name).1 p, made, writes pem, listed) refl,
        read_one (pair pk sk name) pem
            (hsk, new-IsConfig id pk name p size, new-HasBytes id pk name p size hid hpk) made,
        listed,
      )

  -- Another name is refused, and nothing is written.
  pub run_refuses :
      (keys : Option (List ℕ × List ℕ)) (name : Text) (w : W)
      → ¬ IsPublicName name
      → (x : GenError) × (run base64 io keys id name w ≡ (err x, w))
  unfolding run
  run_refuses keys name w bad = elim (Result-cases (validate_public_name name)) [
    | inl (u, h) ↦ absurd (bad ((validate_public_name_lem name).0 h))
    | inr (x, h) ↦ (x, rw h refl)
  ]
