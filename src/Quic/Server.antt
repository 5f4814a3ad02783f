-- ===== src/Quic/Server.antt =====
-- `build_server_config` of src/quic.rs.
use zeromasque.Prelude.{
  ℕ, ◌≡◌, refl, sym, ◌∙◌, List, [], ◌∷◌, Option, none, some, Bool, true, subst,
}
use zeromasque.Prelude.Result.{ok, err}
use zeromasque.Text.{Text}
use zeromasque.Ech.Config.{encode}
use zeromasque.Ech.Key.{EchKeyPair, EchKeySet}
use zeromasque.Quic.{
  Call, panicked, Config, call, ◌>>◌, add_key, add_keys, install_ech_keys, install_ech,
  build_server_config, new_context, min_tls13, max_tls13, certificate_chain_file, private_key_file,
  check_private_key, new_ech_keys, hpke_key, add_ech_key, set_ech_keys, select_certificate_callback,
  with_context,
}
use zeromasque.Quic.Calls.{
  Calls, First, Done, Puts, then_ok, then_assoc, Puts-skip, Puts-then, Puts-assoc, Adds-Done,
  Puts-call, called, noted, transport, Puts-transport,
}

module _ (succeeds : Config → Call → Bool) (exists : Text → Bool) where
  abbrev pub key_calls : EchKeyPair → List ℕ → List Call
  key_calls p bytes = hpke_key p.private_key ∷ add_ech_key true bytes p.private_key ∷ []

  -- Each key with its own configuration, as one for retries.
  abbrev pub Keys : List EchKeyPair → Calls → Calls
  Keys [] P cs = P cs
  Keys (p ∷ ps) P cs =
      (bytes : List ℕ) × (encode p.config ≡ some bytes) × First (key_calls p bytes) (Keys ps P) cs

  abbrev pub Ech : Option EchKeySet → Calls → Calls
  Ech none P = P
  Ech (some ech) P = First (new_ech_keys ∷ []) (Keys ech.pairs (First (set_ech_keys ∷ []) P))

  Puts-key :
      (p : EchKeyPair) (o : Option (List ℕ))
      → encode p.config ≡ o
      → Puts
          (λ P cs.
            (bytes : List ℕ) × (encode p.config ≡ some bytes) × First (key_calls p bytes) P cs)
          (call succeeds exists (hpke_key p.private_key) >> add_key succeeds exists p.private_key o)
  Puts-key p (some bytes) e P k h c c' e' =
      let (cs, same, q) =
        called succeeds exists _ _ _ (Puts-call succeeds exists _) P k h c c' e' in
      (cs, same, (bytes, e, q))
  Puts-key p none e P k h c c' e' =
      let (d, _, e1) = then_ok _ _ c c' (sym (then_assoc _ _ k c) ∙ e') in
      let (d', e2, _) = then_ok (λ c. err panicked) k d c' e1 in absurd (cc e2)

  Puts-keys : (ps : List EchKeyPair) → Puts (Keys ps) (add_keys succeeds exists ps)
  unfolding add_keys
  Puts-keys [] = Puts-skip
  Puts-keys (p ∷ ps) =
      Puts-assoc _ _ _ _ (Puts-then _ _ _ _ (Puts-key p (encode p.config) refl) (Puts-keys ps))

  Puts-ech : (o : Option EchKeySet) → Puts (Ech o) (install_ech succeeds exists o)
  unfolding install_ech_keys
  Puts-ech none = Puts-skip
  Puts-ech (some ech) =
      called succeeds exists _ _ _
        (Puts-then _ _ _ _ (Puts-keys ech.pairs) (Puts-call succeeds exists _))

  abbrev pub certificate_calls : Text → Text → List Call
  certificate_calls cert key =
      new_context
      ∷ min_tls13
      ∷ max_tls13
      ∷ certificate_chain_file cert
      ∷ private_key_file key
      ∷ check_private_key
      ∷ []

  -- The calls of a server configuration.
  abbrev pub ServerCalls : Text → Text → Option EchKeySet → List Text → Calls
  ServerCalls cert key ech hosts = First (certificate_calls cert key) (
      Ech ech (
        First (select_certificate_callback hosts ∷ with_context ∷ [])
          (First (transport succeeds exists) Done)))

  -- A server configuration that is built has been given, in this order: TLS 1.3 alone, the certificate
  -- chain, the private key and the check that they belong together, the ECH keys of the set, if there
  -- is one, each with its own configuration and as one for retries, the guard on the SNI for the hosts
  -- that are allowed, and the parameters of the transport; and nothing else.
  pub build_server_config-ServerCalls :
      (cert key : Text) (ech : Option EchKeySet) (hosts : List Text) (c : Config)
      → build_server_config succeeds exists cert key ech hosts ≡ ok c
      → ServerCalls cert key ech hosts c
  unfolding build_server_config
  build_server_config-ServerCalls cert key ech hosts c h =
      let (cs, same, calls) =
        Adds-Done _ _
          (called succeeds exists _ _ _ (
            called succeeds exists _ _ _ (
              called succeeds exists _ _ _ (
                called succeeds exists _ _ _ (
                  called succeeds exists _ _ _ (
                    called succeeds exists _ _ _ (
                      Puts-then _ _ _ _ (Puts-ech ech) (
                        noted succeeds exists _ _ _
                          (called succeeds exists _ _ _ (Puts-transport succeeds exists))))))))))
          [] c h in
      subst (ServerCalls cert key ech hosts) (sym same) calls
