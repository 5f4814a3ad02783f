-- ===== src/Ech/Config/RoundTrip.antt =====
-- `decode` and `decode_from` of src/ech/config.rs on what `encode` wrote.
use zeromasque.Prelude.{
  ℕ, zero, suc, ◌*◌, ◌%◌, ◌^◌, ◌≤◌, ◌<◌, ◌≡◌, ◌≢◌, refl, sym, List, [], ◌∷◌, ◌++◌, not, ◌||◌, arith,
  true, false, length, length-append, All, ◌==◌,
}
use zeromasque.Prelude.Result.{ok}
use zeromasque.Bytes.{be_bytes}
use zeromasque.Bytes.Laws.{length-be_bytes}
use zeromasque.Text.Utf8.{is_utf8, from_utf8_valid}
use zeromasque.Ech.Reader.{Reader, new, advance, remaining, is_empty}
use zeromasque.Ech.Reader.Laws.{
  At, advance-At, remaining-At, read_u8-At, read_u16-At, read_slice-At,
}
use zeromasque.Ech.Config.{
  CipherSuite, EchConfig, suite_bytes, contents, read_suites, decode_contents,
}

abbrev pub IsU16 : ℕ → Type 0
IsU16 v = v < 2 ^ 16

abbrev pub IsSuite : CipherSuite → Type 0
IsSuite cs = IsU16 cs.kdf_id × IsU16 cs.aead_id

-- A configuration of the Rust type, with at least one cipher suite. Lengths are left to `encode`.
pub record IsConfig (c : EchConfig) : Type 0 where
  pub kem : IsU16 c.kem_id
  pub suites : All IsSuite c.cipher_suites
  pub some_suite : c.cipher_suites ≢ []
  pub name : is_utf8 c.public_name ≡ true

length-suite_bytes : (css : List CipherSuite) → length (suite_bytes css) ≡ length css * 4
unfolding suite_bytes be_bytes
length-suite_bytes [] = omega arith
length-suite_bytes (cs ∷ css) = omega (arith, length-suite_bytes css)

pos_beq_zero : (n : ℕ) → 0 < n → (n == 0) ≡ false
pos_beq_zero n h = ground arith

-- Two bytes behind the reader.
pub u16_behind :
    (r : Reader) (v : ℕ) (rest : List ℕ) → At r (be_bytes 2 v ++ rest) → At (advance 2 r) rest
u16_behind r v rest h = advance-At r (be_bytes 2 v) rest 2 (sym (length-be_bytes 2 v)) h

read_suites-suite_bytes :
    (fuel : ℕ) (css : List CipherSuite) (r : Reader)
    → length css ≤ fuel
    → All IsSuite css
    → At r (suite_bytes css)
    → read_suites fuel r ≡ ok css
unfolding read_suites suite_bytes
read_suites-suite_bytes zero [] r h v a = ground (arith, remaining-At r [] a)
read_suites-suite_bytes zero (cs ∷ css) r h v a = absurd (omega arith)
read_suites-suite_bytes (suc fuel) [] r h v a = ground (arith, remaining-At r [] a)
read_suites-suite_bytes (suc fuel) (cs ∷ css) r h v a =
    rw
      (
        full,
        read_u16-At r cs.kdf_id _ v.0.0 a,
        read_u16-At (advance 2 r) cs.aead_id _ v.0.1 a',
        read_suites-suite_bytes fuel css (advance 2 (advance 2 r)) (omega arith) v.1 a'',
      )
      refl
  where
    a' : At (advance 2 r) (be_bytes 2 cs.aead_id ++ suite_bytes css)
    a' = u16_behind r cs.kdf_id _ a

    a'' : At (advance 2 (advance 2 r)) (suite_bytes css)
    a'' = u16_behind (advance 2 r) cs.aead_id _ a'

    full : is_empty r ≡ false
    full = pos_beq_zero (remaining r) (
        omega (
          arith,
          remaining-At r _ a,
          length-be_bytes 2 cs.kdf_id,
          length-append (be_bytes 2 cs.kdf_id) (be_bytes 2 cs.aead_id ++ suite_bytes css),
        ))

suites_length_ok :
    (css : List CipherSuite) (n : ℕ)
    → css ≢ []
    → n ≡ length css * 4
    → (not (n % 4 == 0) || n == 0) ≡ false
suites_length_ok [] n h e = absurd (h refl)
suites_length_ok (cs ∷ css) n h e = ground arith

-- The contents with the right lengths in them decode to the configuration.
pub decode_contents-contents :
    (c : EchConfig) (p s n : ℕ)
    → IsConfig c
    → p ≡ length c.public_key
    → s ≡ length c.cipher_suites * 4
    → n ≡ length c.public_name
    → IsU16 p
    → IsU16 s
    → decode_contents (contents c p s n) ≡ ok c
unfolding decode_contents contents be_bytes
decode_contents-contents c p s n v ep es en hp hs =
    let b0 : List ℕ = contents c p s n in
    let w8 : List ℕ = 0 ∷ 0 ∷ [] in
    let w7 : List ℕ = c.public_name ++ w8 in
    let w6 : List ℕ = c.maximum_name_length ∷ n ∷ w7 in
    let w5 : List ℕ = suite_bytes c.cipher_suites ++ w6 in
    let w4 : List ℕ = be_bytes 2 s ++ w5 in
    let w3 : List ℕ = c.public_key ++ w4 in
    let w2 : List ℕ = be_bytes 2 p ++ w3 in
    let w1 : List ℕ = be_bytes 2 c.kem_id ++ w2 in
    let r0 = new b0 in
    let r1 = advance 1 r0 in
    let r2 = advance 2 r1 in
    let r3 = advance 2 r2 in
    let r4 = advance p r3 in
    let r5 = advance 2 r4 in
    let r6 = advance s r5 in
    let r7 = advance 1 r6 in
    let r8 = advance 1 r7 in
    let r9 = advance n r8 in
    let a1 : At r1 w1 = advance-At r0 (c.config_id ∷ []) w1 1 refl refl in
    let a2 : At r2 w2 = u16_behind r1 c.kem_id w2 a1 in
    let a3 : At r3 w3 = u16_behind r2 p w3 a2 in
    let a4 : At r4 w4 = advance-At r3 c.public_key w4 p ep a3 in
    let a5 : At r5 w5 = u16_behind r4 s w5 a4 in
    let es' : s ≡ length (suite_bytes c.cipher_suites) =
      omega (arith, length-suite_bytes c.cipher_suites) in
    let a6 : At r6 w6 = advance-At r5 (suite_bytes c.cipher_suites) w6 s es' a5 in
    let a7 : At r7 (n ∷ w7) = advance-At r6 (c.maximum_name_length ∷ []) (n ∷ w7) 1 refl a6 in
    let a8 : At r8 w7 = advance-At r7 (n ∷ []) w7 1 refl a7 in
    let a9 : At r9 w8 = advance-At r8 c.public_name w8 n en a8 in
    let a10 : At (advance 2 r9) [] = advance-At r9 w8 [] 2 refl a9 in
    rw
      (
        read_u8-At r0 c.config_id w1 refl,
        read_u16-At r1 c.kem_id w2 v.kem a1,
        read_u16-At r2 p w3 hp a2,
        read_slice-At r3 p c.public_key w4 ep a3,
        read_u16-At r4 s w5 hs a4,
        suites_length_ok c.cipher_suites s v.some_suite es,
        read_slice-At r5 s (suite_bytes c.cipher_suites) w6 es' a5,
        read_suites-suite_bytes (length (suite_bytes c.cipher_suites)) c.cipher_suites
            (new (suite_bytes c.cipher_suites)) (omega (arith, length-suite_bytes c.cipher_suites))
            v.suites refl,
        read_u8-At r6 c.maximum_name_length (n ∷ w7) a6,
        read_u8-At r7 n w7 a7,
        read_slice-At r8 n c.public_name w8 en a8,
        from_utf8_valid c.public_name v.name,
        read_u16-At r9 0 [] (omega arith) a9,
        read_slice-At (advance 2 r9) 0 [] [] refl a10,
      )
      refl
