-- ===== src/Ech/Config/Total.antt =====
-- `decode_from` of src/ech/config.rs on any bytes: it ends, and what it accepts.
use zeromasque.Prelude.{
  ℕ, zero, suc, ◌+◌, ◌*◌, ◌%◌, ◌≤◌, ◌≡◌, ◌≢◌, ◌⊎◌, ◌∙◌, refl, ap, List, [], Bool, Option, none,
  some, not, ◌||◌, arith, true, false, length, length-take, length-drop, ltb, Bool-cases, inl, inr,
  ◌==◌, drop,
}
use zeromasque.Prelude.Result.{Result, ok, err, ◌>>=◌, bail_if, ok_or, Result-cases}
use zeromasque.Text.Utf8.{is_utf8, from_utf8, from_utf8-some}
use zeromasque.Ech.Reader.{
  Reader, Error, short_read, not_utf8, bad_suites_length, unsupported_version, out_of_fuel, new,
  advance, remaining, is_empty, read_u8, read_u16, read_slice, get_or,
}
use zeromasque.Ech.Config.{
  CipherSuite, EchConfig, read_suites, decode_contents, decode_from, ech_config_version_v18,
}

-- A read that fails is short.
read_u16_cases :
    (r : Reader)
    → ((v : ℕ) × (read_u16 r ≡ ok (v, advance 2 r)) × (2 ≤ remaining r))
      ⊎ (read_u16 r ≡ err short_read)
unfolding read_u16
read_u16_cases r = elim (Bool-cases (ltb (remaining r) 2)) [
  | inl e ↦ inr (rw e)
  | inr e ↦ inl (get_or r.buf r.pos 0 * 256 + get_or r.buf (r.pos + 1) 0, rw e, ground arith)
]

-- The loop over the suites ends, and takes four bytes for each suite.
read_suites_total :
    (fuel : ℕ) (r : Reader)
    → remaining r ≤ fuel
    → (read_suites fuel r ≢ err out_of_fuel)
      × ((css : List CipherSuite) → read_suites fuel r ≡ ok css → length css * 4 ≡ remaining r)
unfolding read_suites
read_suites_total zero r h = (λ e. ground arith, λ css e. ground arith)
read_suites_total (suc fuel) r h = elim (Bool-cases (is_empty r)) [
  | inl done ↦ (λ e. ground (arith, done), λ css e. ground (arith, done))
  | inr more ↦ elim (read_u16_cases r) [
    | inr short ↦ (λ e. ground (arith, more, short), λ css e. ground (arith, more, short))
    | inl (v, one, room) ↦ elim (read_u16_cases (advance 2 r)) [
      | inr short ↦
          (λ e. ground (arith, more, one, short), λ css e. ground (arith, more, one, short))
      | inl (w, two, room') ↦
          let (ends, takes) = read_suites_total fuel (advance 2 (advance 2 r)) (omega arith) in
          elim (Result-cases (read_suites fuel (advance 2 (advance 2 r)))) [
            | inr (x, e) ↦
                (λ f. ground (arith, more, one, two, e), λ css f. ground (arith, more, one, two, e))
            | inl (css, e) ↦ (
              λ f. ground (arith, more, one, two, e),
              λ css' f. ground (arith, more, one, two, e, takes css e),
            )
          ]
    ]
  ]
]

-- The model's own error, and how a chain of steps keeps clear of it.
abbrev Ends {ℓ} : {A : Type ℓ} → Result Error A → Type ℓ
Ends m = m ≢ err out_of_fuel

Ends-bind :
    {A B : Type 0} (m : Result Error A) (f : A → Result Error B)
    → Ends m
    → ((a : A) → Ends (f a))
    → Ends (m >>= f)
Ends-bind (ok a) f h k = k a
Ends-bind (err e) f h k = λ q. h (ground arith)

read_u8-Ends : (r : Reader) → Ends (read_u8 r)
unfolding read_u8
read_u8-Ends r e = ground arith

read_u16-Ends : (r : Reader) → Ends (read_u16 r)
unfolding read_u16
read_u16-Ends r e = ground arith

read_slice-Ends : (n : ℕ) (r : Reader) → Ends (read_slice n r)
unfolding read_slice
read_slice-Ends n r e = ground arith

bail_if-Ends : (b : Bool) (e : Error) → e ≢ out_of_fuel → Ends (bail_if b e)
bail_if-Ends true e h q = h (ground arith)
bail_if-Ends false e h q = ground arith

ok_or-Ends : {A : Type 0} (o : Option A) (e : Error) → e ≢ out_of_fuel → Ends (ok_or o e)
ok_or-Ends none e h q = h (ground arith)
ok_or-Ends (some a) e h q = ground arith

suites-Ends : (bytes : List ℕ) → Ends (read_suites (length bytes) (new bytes))
suites-Ends bytes = (read_suites_total (length bytes) (new bytes) (omega arith)).0

decode_contents-Ends : (bytes : List ℕ) → Ends (decode_contents bytes)
unfolding decode_contents
decode_contents-Ends bytes = Ends-bind _ _ (read_u8-Ends _) λ p1.
    Ends-bind _ _ (read_u16-Ends _) λ p2. Ends-bind _ _ (read_u16-Ends _) λ p3.
      Ends-bind _ _ (read_slice-Ends _ _) λ p4. Ends-bind _ _ (read_u16-Ends _) λ p5.
        Ends-bind _ _ (bail_if-Ends _ _ (λ e. cc)) λ p6. Ends-bind _ _ (read_slice-Ends _ _) λ p7.
          Ends-bind _ _ (suites-Ends _) λ p8. Ends-bind _ _ (read_u8-Ends _) λ p9.
            Ends-bind _ _ (read_u8-Ends _) λ p10. Ends-bind _ _ (read_slice-Ends _ _) λ p11.
              Ends-bind _ _ (ok_or-Ends _ _ (λ e. cc)) λ p12.
                Ends-bind _ _ (read_u16-Ends _)
                  λ p13. Ends-bind _ _ (read_slice-Ends _ _) λ p14. λ e. cc

-- On any bytes the decoder ends: its loop over the cipher suites never runs out of rounds.
pub decode_from-ends : (r : Reader) → decode_from r ≢ err out_of_fuel
unfolding decode_from
decode_from-ends r = Ends-bind _ _ (read_u16-Ends _) λ p1. Ends-bind _ _ (read_u16-Ends _) λ p2.
    Ends-bind _ _ (read_slice-Ends _ _) λ p3.
      Ends-bind _ _ (bail_if-Ends _ _ (λ e. cc))
        λ p4. Ends-bind _ _ (decode_contents-Ends _) λ c. λ e. cc

-- Inversion of the checks in the chain.
passed : (b : Bool) (e : Error) (u : Unit {0}) → bail_if {E = Error} b e ≡ ok u → b ≡ false
passed true e u h = cc
passed false e u h = refl

found : {A : Type 0} (o : Option A) (e : Error) (a : A) → ok_or o e ≡ ok a → o ≡ some a
found none e a h = cc
found (some b) e a h = ground arith

slice-length : (n : ℕ) (r : Reader) (p : List ℕ × Reader) → read_slice n r ≡ ok p → length p.0 ≡ n
unfolding read_slice
slice-length n r p h = ground (arith, length-take n (drop r.pos r.buf), length-drop r.pos r.buf)

-- What an accepted configuration satisfies.
pub record Accepted (c : EchConfig) : Type 0 where
  pub some_suite : c.cipher_suites ≢ []
  pub name : is_utf8 c.public_name ≡ true

nonempty_suites :
    (n : ℕ) (css : List CipherSuite)
    → (not (n % 4 == 0) || n == 0) ≡ false
    → length css * 4 ≡ n
    → css ≢ []
nonempty_suites n css h e q = absurd (ground (arith, ap length q))

accept :
    (n : ℕ) (css : List CipherSuite) (bytes name : List ℕ) (c : EchConfig)
    → (not (n % 4 == 0) || n == 0) ≡ false
    → length css * 4 ≡ n
    → (is_utf8 bytes ≡ true) × (name ≡ bytes)
    → css ≡ c.cipher_suites
    → name ≡ c.public_name
    → Accepted c
accept n css bytes name c check four valid suites text = record {
  some_suite = rw (← suites) (nonempty_suites n css check four);
  name = rw (← text, valid.1) valid.0;
}

-- Inversion of a step in the chain, with the value of the step as a variable.
past :
    {A B C : Type 0} (m : Result Error A) (f : A → Result Error B) {b : B}
    → (m >>= f) ≡ ok b
    → ((a : A) → m ≡ ok a → f a ≡ ok b → C)
    → C
past (ok a) f h k = k a refl h
past (err e) f h k = cc

suites_take_all :
    (bytes : List ℕ) (css : List CipherSuite)
    → read_suites (length bytes) (new bytes) ≡ ok css
    → length css * 4 ≡ length bytes
suites_take_all bytes css h =
    omega (arith, (read_suites_total (length bytes) (new bytes) (omega arith)).1 css h)

decode_contents-Accepted :
    (bytes : List ℕ) (c : EchConfig) → decode_contents bytes ≡ ok c → Accepted c
unfolding decode_contents
decode_contents-Accepted bytes c h0 = past (read_u8 (new bytes)) _ h0 λ p1 _ h1.
    past (read_u16 p1.1) _ h1 λ p2 _ h2. past (read_u16 p2.1) _ h2 λ p3 _ h3.
      past (read_slice p3.0 p3.1) _ h3 λ p4 _ h4. past (read_u16 p4.1) _ h4 λ p5 _ h5.
        past (bail_if (not (p5.0 % 4 == 0) || p5.0 == 0) bad_suites_length) _ h5 λ u e6 h6.
          past (read_slice p5.0 p5.1) _ h6 λ p7 e7 h7.
            past (read_suites (length p7.0) (new p7.0)) _ h7 λ css e8 h8.
              past (read_u8 p7.1) _ h8 λ p9 _ h9. past (read_u8 p9.1) _ h9 λ p10 _ h10.
                past (read_slice p10.0 p10.1) _ h10 λ p11 _ h11.
                  past (ok_or (from_utf8 p11.0) not_utf8) _ h11 λ name e12 h12.
                    past (read_u16 p11.1) _ h12 λ p13 _ h13.
                      past (read_slice p13.0 p13.1) _ h13 λ p14 _ h14.
                        accept p5.0 css p11.0 name c (passed _ _ u e6)
                          (suites_take_all p7.0 css e8 ∙ slice-length p5.0 p5.1 p7 e7)
                          (from_utf8-some p11.0 name (found _ _ _ e12)) (ground (arith, h14))
                          (ground (arith, h14))

-- On any bytes: a configuration that the decoder accepts has a cipher suite and a public name that
-- is UTF-8.
pub decode_from-Accepted :
    (r : Reader) (c : EchConfig) (r' : Reader) → decode_from r ≡ ok (c, r') → Accepted c
unfolding decode_from
decode_from-Accepted r c r' h0 = past (read_u16 r) _ h0 λ p1 _ h1.
    past (read_u16 p1.1) _ h1 λ p2 _ h2. past (read_slice p2.0 p2.1) _ h2 λ p3 _ h3.
      past (bail_if (not (p1.0 == ech_config_version_v18)) unsupported_version) _ h3 λ u _ h4.
        past (decode_contents p3.0) _ h4
          λ d e h5. decode_contents-Accepted p3.0 c (e ∙ ap ok (ground (arith, h5)))
