-- ===== src/Quic/Calls.antt =====
-- The steps of src/quic.rs, and the calls that they add.
use zeromasque.Prelude.{
  ◌≡◌, inl, inr, refl, sym, ◌∙◌, List, [], ◌∷◌, ◌++◌, Bool, true, false, arith, append_assoc,
  append-nil, Bool-cases,
}
use zeromasque.Prelude.Result.{Result, ok, err, Result-cases}
use zeromasque.Text.{Text, codes}
use zeromasque.Quic.{
  Call, QuicError, failed, Config, Step, skip, note, call, ◌>>◌, apply_transport_params,
  application_protos, cc_algorithm_name, max_idle_timeout, max_recv_udp_payload_size,
  max_send_udp_payload_size, initial_max_data, initial_max_stream_data_bidi_local,
  initial_max_stream_data_bidi_remote, initial_max_stream_data_uni, initial_max_streams_bidi,
  initial_max_streams_uni, disable_active_migration, enable_dgram,
}

abbrev pub Calls : Type 1
Calls = List Call → Type 0

-- First these calls, and then others.
abbrev pub First : List Call → Calls → Calls
First [] P cs = P cs
First (x ∷ xs) P [] = ⊥
First (x ∷ xs) P (c ∷ cs) = (c ≡ x) × First xs P cs

abbrev pub Done : Calls
Done cs = cs ≡ []

-- A step that succeeds adds such calls.
abbrev pub Adds : Calls → Step → Type 0
Adds P m = (c c' : Config) → m c ≡ ok c' → (cs : List Call) × (c' ≡ c ++ cs) × P cs

-- A step in front of any other.
abbrev pub Puts : (Calls → Calls) → Step → Type 1
Puts T m = (P : Calls) (k : Step) → Adds P k → Adds (T P) (m >> k)

pub then_ok :
    (m k : Step) (c c' : Config) → (m >> k) c ≡ ok c' → (d : Config) × (m c ≡ ok d) × (k d ≡ ok c')
unfolding ◌>>◌
then_ok m k c c' h = elim (Result-cases (m c)) [
  | inl (d, e) ↦ (d, e, ground (arith, e, h))
  | inr (x, e) ↦ absurd (ground (arith, e, h))
]

ok_same : {c d : Config} → ◌≡◌ {A = Result QuicError Config} (ok c) (ok d) → c ≡ d
ok_same h = cc

pub then_assoc : (m n k : Step) (c : Config) → ((m >> n) >> k) c ≡ (m >> (n >> k)) c
unfolding ◌>>◌
then_assoc m n k c = elim (Result-cases (m c)) [
  | inl (d, e) ↦ rw (e, ◌>>◌) refl
  | inr (x, e) ↦ rw (e, ◌>>◌) refl
]

later :
    (m : Step) {k l : Step} → ((d : Config) → k d ≡ l d) → (c : Config) → (m >> k) c ≡ (m >> l) c
unfolding ◌>>◌
later m same c = elim (Result-cases (m c)) [
  | inl (d, e) ↦ rw (e, ◌>>◌) (same d)
  | inr (x, e) ↦ rw (e, ◌>>◌) refl
]

pub Puts-note : (x : Call) → Puts (First (x ∷ [])) (note x)
unfolding ◌>>◌ note
Puts-note x P k h c c' e =
    let (cs, same, p) = h (c ++ x ∷ []) c' e in
    (x ∷ cs, same ∙ append_assoc c (x ∷ []) cs, (refl, p))

pub Puts-skip : Puts (λ P. P) skip
unfolding ◌>>◌ skip
Puts-skip P k h c c' e = h c c' e

pub Puts-then :
    (T U : Calls → Calls) (m n : Step) → Puts T m → Puts U n → Puts (λ P. T (U P)) (m >> n)
Puts-then T U m n f g P k h c c' e = f (U P) (n >> k) (g P k h) c c' (sym (then_assoc m n k c) ∙ e)

pub Puts-assoc :
    (T : Calls → Calls) (m n o : Step) → Puts T ((m >> n) >> o) → Puts T (m >> (n >> o))
Puts-assoc T m n o f P k h c c' e = f P k h c c' (
    then_assoc (m >> n) o k c
    ∙ then_assoc m n (o >> k) c
    ∙ sym (later m (then_assoc n o k) c)
    ∙ sym (then_assoc m (n >> o) k c)
    ∙ e)

pub Adds-Done : (T : Calls → Calls) (m : Step) → Puts T m → Adds (T Done) m
unfolding ◌>>◌ skip
Adds-Done T m f c c' e =
    f Done skip (λ d d' e'. ([], sym (ok_same e') ∙ sym (append-nil d), refl)) c c'
      (rw (e, ◌>>◌) refl)

module _ (succeeds : Config → Call → Bool) (exists : Text → Bool) where
  pub Puts-call : (x : Call) → Puts (First (x ∷ [])) (call succeeds exists x)
  unfolding ◌>>◌ call note
  Puts-call x P k h c c' e = elim (Bool-cases (succeeds c x)) [
    | inl done ↦ Puts-note x P k h c c' (sym (called done) ∙ e)
    | inr not_done ↦ absurd (cc (sym (refused not_done) ∙ e))
  ]
    where
      called : succeeds c x ≡ true → (call succeeds exists x >> k) c ≡ k (c ++ x ∷ [])
      called b = rw (b, ◌>>◌) refl

      refused : succeeds c x ≡ false → (call succeeds exists x >> k) c ≡ err (failed x)
      refused b = rw (b, ◌>>◌) refl

  -- The parameters of the transport.
  abbrev pub transport : List Call
  transport =
      application_protos (codes "h3")
      ∷ max_idle_timeout 10000
      ∷ cc_algorithm_name (codes "bbr2_gcongestion")
      ∷ max_recv_udp_payload_size 1400
      ∷ max_send_udp_payload_size 1400
      ∷ initial_max_data 10000000
      ∷ initial_max_stream_data_bidi_local 2000000
      ∷ initial_max_stream_data_bidi_remote 2000000
      ∷ initial_max_stream_data_uni 2000000
      ∷ initial_max_streams_bidi 128
      ∷ initial_max_streams_uni 128
      ∷ disable_active_migration true
      ∷ enable_dgram true 65536 65536
      ∷ []

  pub called :
      (x : Call) (U : Calls → Calls) (n : Step)
      → Puts U n
      → Puts (λ P. First (x ∷ []) (U P)) (call succeeds exists x >> n)
  called x U n h = Puts-then _ _ _ _ (Puts-call x) h

  pub noted :
      (x : Call) (U : Calls → Calls) (n : Step)
      → Puts U n
      → Puts (λ P. First (x ∷ []) (U P)) (note x >> n)
  noted x U n h = Puts-then _ _ _ _ (Puts-note x) h

  pub Puts-transport : Puts (First transport) (apply_transport_params succeeds exists)
  unfolding apply_transport_params
  Puts-transport = called _ _ _ (
      noted _ _ _ (
        called _ _ _ (
          noted _ _ _ (
            noted _ _ _ (
              noted _ _ _ (
                noted _ _ _ (
                  noted _ _ _
                    (noted _ _ _ (noted _ _ _ (noted _ _ _ (noted _ _ _ (Puts-note _))))))))))))
