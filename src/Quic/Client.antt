-- ===== src/Quic/Client.antt =====
-- `build_client_config` of src/quic.rs.
use zeromasque.Prelude.{
  ap, ◌++◌, append-nil, append_assoc, ℕ, ◌≡◌, ◌⊎◌, inl, inr, refl, sym, ◌∙◌, List, [], ◌∷◌, Option,
  none, some, Bool, true, false, ◌&&◌, Bool-cases, &&-true,
}
use zeromasque.Prelude.Result.{Result, ok}
use zeromasque.Text.{Text}
use zeromasque.Quic.{
  QuicError, skip, call, Call, Config, Verify, roots, insecure, note, build_client_config,
  first_bundle, default_paths, load_system_roots, extra_ca, set_verify, install_client_ech,
  ca_bundle_paths, new_context, min_tls13, max_tls13, verify_none, verify_peer,
  default_verify_paths, ca_file, info_callback, with_context,
}
use zeromasque.Quic.Calls.{
  then_ok, Calls, First, Done, Puts, Puts-note, Puts-skip, Puts-then, Adds-Done, called, transport,
  Puts-transport,
}

ok_same : {c d : Config} → ◌≡◌ {A = Result QuicError Config} (ok c) (ok d) → c ≡ d
ok_same h = cc

-- The calls before the roots of the system are loaded.
abbrev pub start : Config
start = new_context ∷ min_tls13 ∷ max_tls13 ∷ verify_peer ∷ []

-- The CA file of the arguments.
abbrev pub extra : Option Text → List Call
extra none = []
extra (some ca) = ca_file ca ∷ []

module _ (succeeds : Config → Call → Bool) (exists : Text → Bool) where
  -- The default paths are loaded after these calls exactly if that succeeds.
  abbrev pub Default : Config → List Call → Type 0
  Default c cs =
      ((succeeds c default_verify_paths ≡ true) × (cs ≡ default_verify_paths ∷ []))
      ⊎ ((succeeds c default_verify_paths ≡ false) × (cs ≡ []))

  -- The first of the bundles that is there and loads after these calls, or none if there is no such.
  abbrev pub Bundle : Config → List Text → List Call → Type 0
  Bundle c [] cs = cs ≡ []
  Bundle c (p ∷ ps) cs =
      ((exists p ≡ true) × (succeeds c (ca_file p) ≡ true) × (cs ≡ ca_file p ∷ []))
      ⊎ (((exists p && succeeds c (ca_file p)) ≡ false) × Bundle c ps cs)

  abbrev pub Verifies : Verify → List Call → Type 0
  Verifies insecure cs = cs ≡ verify_none ∷ []
  Verifies (roots file) cs =
      (default : List Call) × (bundle : List Call) × Default start default
      × Bundle (start ++ default) ca_bundle_paths bundle
      × (cs ≡ verify_peer ∷ (default ++ (bundle ++ extra file)))

  call_ok : (x : Call) (c d : Config) → call succeeds exists x c ≡ ok d → d ≡ c ++ x ∷ []
  unfolding call
  call_ok x c d h = elim (Bool-cases (succeeds c x)) [
    | inl e ↦ sym (ok_same (rw e at h))
    | inr e ↦ cc (rw e at h)
  ]

  from_system :
      (c d : Config)
      → default_paths succeeds exists c ≡ ok d
      → (cs : List Call) × Default c cs × (d ≡ c ++ cs)
  from_system c d h = elim (Bool-cases (succeeds c default_verify_paths)) [
    | inl e ↦ (default_verify_paths ∷ [], inl (e, refl), sym (ok_same (rw e at h)))
    | inr e ↦ ([], inr (e, refl), sym (ok_same (rw e at h)) ∙ sym (append-nil c))
  ]

  from_file :
      (paths : List Text) (c d : Config)
      → first_bundle succeeds exists paths c ≡ ok d
      → (cs : List Call) × Bundle c paths cs × (d ≡ c ++ cs)
  unfolding first_bundle
  from_file [] c d h = ([], refl, sym (ok_same h) ∙ sym (append-nil c))
  from_file (p ∷ ps) c d h = elim (Bool-cases (exists p && succeeds c (ca_file p))) [
    | inl e ↦
        let (there, loads) = &&-true (exists p) (succeeds c (ca_file p)) e in
        (ca_file p ∷ [], inl (there, loads, refl), sym (ok_same (rw e at h)))
    | inr e ↦ let (cs, first, is) = from_file ps c d (rw e at h) in (cs, inr (e, first), is)
  ]

  extra_ok :
      (file : Option Text) (c d : Config)
      → extra_ca succeeds exists file c ≡ ok d
      → d ≡ c ++ extra file
  unfolding skip
  extra_ok none c d h = sym (ok_same h) ∙ sym (append-nil c)
  extra_ok (some ca) c d h = call_ok (ca_file ca) c d h

  verify_ok :
      (v : Verify) (d : Config)
      → set_verify succeeds exists v (new_context ∷ min_tls13 ∷ max_tls13 ∷ []) ≡ ok d
      → (cs : List Call) × Verifies v cs × (d ≡ new_context ∷ min_tls13 ∷ max_tls13 ∷ cs)
  unfolding load_system_roots note
  verify_ok insecure d h = (verify_none ∷ [], refl, sym (ok_same h))
  verify_ok (roots file) d h =
      let (c1, e1, h1) = then_ok (note verify_peer) _ _ d h in
      let (c2, e2, h2) = then_ok (load_system_roots succeeds exists) _ c1 d h1 in
      let (c3, e3, h3) = then_ok (default_paths succeeds exists) _ c1 c2 e2 in
      let (default, def, is3) =
        from_system start c3 (ap (default_paths succeeds exists) (ok_same e1) ∙ e3) in
      let (bundle, bun, is2) =
        from_file ca_bundle_paths (start ++ default) c2
          (ap (first_bundle succeeds exists ca_bundle_paths) (sym is3) ∙ h3) in
      (
        verify_peer ∷ (default ++ (bundle ++ extra file)),
        (default, bundle, def, bun, refl),
        extra_ok file c2 d h2
            ∙ ap (λ t. t ++ extra file) is2
            ∙ append_assoc (start ++ default) bundle (extra file)
            ∙ append_assoc start default (bundle ++ extra file),
      )

  abbrev pub Offers : Option (List ℕ) → Calls → Calls
  Offers none P = P
  Offers (some list) P = First (info_callback list ∷ []) P

  Puts-offer : (o : Option (List ℕ)) → Puts (Offers o) (install_client_ech succeeds exists o)
  Puts-offer none = Puts-skip
  Puts-offer (some list) = Puts-note (info_callback list)

  -- The calls of a client configuration.
  abbrev pub ClientCalls : Verify → Option (List ℕ) → Config → Type 0
  ClientCalls verify list c =
      (vs : List Call) × (cs : List Call) × (c ≡ new_context ∷ min_tls13 ∷ max_tls13 ∷ (vs ++ cs))
      × Verifies verify vs
      × Offers list (First (with_context ∷ []) (First (transport succeeds exists) Done)) cs

  -- A client configuration that is built has been given, in this order: TLS 1.3 alone; then either no
  -- verification, exactly where the client asked for that, or the verification of the server with the
  -- default paths, unless they do not load, with the first of the bundles of the system that is there and
  -- loads, unless none does, and with the CA file of the arguments; then the ECH configurations, if there
  -- are any, and the parameters of the transport; and nothing else.
  pub build_client_config-ClientCalls :
      (verify : Verify) (list : Option (List ℕ)) (c : Config)
      → build_client_config succeeds exists verify list ≡ ok c
      → ClientCalls verify list c
  unfolding build_client_config
  build_client_config-ClientCalls verify list c h =
      let (c1, e1, h1) = then_ok (call succeeds exists new_context) _ [] c h in
      let (c2, e2, h2) = then_ok (call succeeds exists min_tls13) _ c1 c h1 in
      let (c3, e3, h3) = then_ok (call succeeds exists max_tls13) _ c2 c h2 in
      let (c4, e4, h4) = then_ok (set_verify succeeds exists verify) _ c3 c h3 in
      let at3 : c3 ≡ new_context ∷ min_tls13 ∷ max_tls13 ∷ [] =
        call_ok max_tls13 c2 c3 e3
        ∙ ap (λ t. t ++ max_tls13 ∷ [])
            (call_ok min_tls13 c1 c2 e2
              ∙ ap (λ t. t ++ min_tls13 ∷ []) (call_ok new_context [] c1 e1)) in
      let (vs, verifies, at4) =
        verify_ok verify c4 (ap (set_verify succeeds exists verify) (sym at3) ∙ e4) in
      let (cs, is, rest) =
        Adds-Done _ _
          (Puts-then _ _ _ _ (Puts-offer list)
            (called succeeds exists _ _ _ (Puts-transport succeeds exists)))
          c4 c h4 in
      (vs, cs, is ∙ ap (λ t. t ++ cs) at4, verifies, rest)
