-- ===== src/Startup/Served.antt =====
-- The configuration that `serve` of src/main.rs starts with, and the ones that src/reload.rs puts in its
-- place, against the requests that src/rules.rs serves.
use zeromasque.Prelude.{◌≡◌, inl, inr, sym, List, [], ◌∷◌, Option, none, some, true, subst}
use zeromasque.Prelude.Members.{In}
use zeromasque.Prelude.Result.{Result, ok, err, >>=-eq-ok}
use zeromasque.Text.{Text, to_ascii_lowercase}
use zeromasque.Rules.{RuleMatch, match_target, sni_guard, allowed_sni_hosts, host_of_authority}
use zeromasque.Rules.Hosts.{match_target-sni_guard}
use zeromasque.Ech.Pem.{Base64}
use zeromasque.Ech.Key.{EchKeyPair, EchKeySet}
use zeromasque.Quic.{
  Call, Config, new_ech_keys, set_ech_keys, with_context, select_certificate_callback,
  build_server_config,
}
use zeromasque.Quic.Calls.{Calls, First, Done, transport}
use zeromasque.Quic.Server.{Keys, Ech, ServerCalls, key_calls, certificate_calls}
use zeromasque.Reload.{
  ReloadPaths, ServerConfig, Disk, ReloadError, keys_of, rules_of, config_of, load_keys, load_rules,
  reload_task,
}
use zeromasque.Reload.History.{
  keys_of-ok, rules_of-ok, config_of-ok, IsFrom, build-IsFrom, Latest, reload_task-Latest,
}
use zeromasque.Startup.{StartError, loaded, announce, serve_config}

loaded-ok {ℓ} : {A : Type ℓ} (r : Result ReloadError A) (a : A) → loaded r ≡ ok a → r ≡ ok a
loaded-ok (ok b) a h = cc
loaded-ok (err e) a h = cc

-- A call that the rest holds is held behind other calls too.
module _ (x : Call) (P : Calls) (h : (cs : List Call) → P cs → In x cs) where
  First-In : (xs cs : List Call) → First xs P cs → In x cs
  First-In [] cs f = h cs f
  First-In (y ∷ xs) [] f = absurd f
  First-In (y ∷ xs) (c ∷ cs) f = inr (First-In xs cs f.1)

Keys-In :
    (disk : Disk) (x : Call) (P : Calls)
    → ((cs : List Call) → P cs → In x cs)
    → (ps : List EchKeyPair) (cs : List Call) → Keys disk.succeeds disk.exists ps P cs
    → In x cs
Keys-In disk x P h [] cs f = h cs f
Keys-In disk x P h (p ∷ ps) cs (bytes, e, f) =
    First-In x (Keys disk.succeeds disk.exists ps P) (Keys-In disk x P h ps)
      (key_calls disk.succeeds disk.exists p bytes) cs f

Ech-In :
    (disk : Disk) (x : Call) (P : Calls)
    → ((cs : List Call) → P cs → In x cs)
    → (o : Option EchKeySet) (cs : List Call) → Ech disk.succeeds disk.exists o P cs
    → In x cs
Ech-In disk x P h none cs f = h cs f
Ech-In disk x P h (some ech) cs f =
    First-In x _ (Keys-In disk x _ (First-In x P h (set_ech_keys ∷ [])) ech.pairs)
      (new_ech_keys ∷ []) cs f

-- The guard of a server configuration.
guarded : (x : Call) (P : Calls) (xs cs : List Call) → First (x ∷ xs) P cs → In x cs
guarded x P xs [] f = absurd f
guarded x P xs (c ∷ cs) f = inl (sym f.0)

ServerCalls-In :
    (disk : Disk) (cert key : Text) (ech : Option EchKeySet) (hosts : List Text) (c : Config)
    → ServerCalls disk.succeeds disk.exists cert key ech hosts c
    → In (select_certificate_callback hosts) c
ServerCalls-In disk cert key ech hosts c f =
    First-In (select_certificate_callback hosts) _
      (Ech-In disk _ _
        (guarded _ (First (with_context ∷ []) (First (transport disk.succeeds disk.exists) Done))
          [])
        ech)
      (certificate_calls disk.succeeds disk.exists cert key) c f

same_config : {a b : ServerConfig} → ◌≡◌ {A = Result StartError ServerConfig} (ok a) (ok b) → a ≡ b
same_config h = cc

module _ (base64 : Base64) (args : ReloadPaths) where
  serve_config-IsFrom :
      (disk : Disk) (sc : ServerConfig)
      → serve_config base64 args disk ≡ ok sc
      → IsFrom base64 args disk sc
  unfolding serve_config
  serve_config-IsFrom disk sc h =
      let (rules, e, h1) = >>=-eq-ok (loaded (rules_of (load_rules base64 disk args.rules))) _ h in
      let (ech, e1, h2) =
        >>=-eq-ok (loaded (keys_of (load_keys base64 disk.keys args.ech_key))) _ h1 in
      let (_, _, h3) = >>=-eq-ok (announce ech) _ h2 in
      let (config, e2, h4) =
        >>=-eq-ok
          (loaded (
            config_of (
              build_server_config disk.succeeds disk.exists args.cert args.key ech
                (allowed_sni_hosts rules))))
          _ h3 in
      subst (IsFrom base64 args disk) (same_config h4) (
        build-IsFrom base64 args disk ech rules config (keys_of-ok _ ech (loaded-ok _ ech e1))
          (rules_of-ok _ rules (loaded-ok _ rules e))
          (config_of-ok _ config (loaded-ok _ config e2)))

  -- The requests that are served, with the SNI of a connection that they can come over.
  abbrev pub Admits : ServerConfig → Type 0
  Admits sc =
      (hosts : List Text) × In (select_certificate_callback hosts) sc.config
      × ((authority path sni : Text) (m : RuleMatch)
          → match_target sc.rules authority path ≡ some m
          → to_ascii_lowercase sni ≡ to_ascii_lowercase (host_of_authority authority)
          → sni_guard hosts (some sni) ≡ true)

  IsFrom-Admits : (disk : Disk) (sc : ServerConfig) → IsFrom base64 args disk sc → Admits sc
  IsFrom-Admits disk sc (ech, _, _, calls) = (
    allowed_sni_hosts sc.rules,
    ServerCalls-In disk args.cert args.key ech _ sc.config calls,
    match_target-sni_guard sc.rules,
  )

  Latest-Admits :
      (signals : List (Option Disk)) (start sc : ServerConfig)
      → Latest base64 args signals start sc
      → Admits start
      → Admits sc
  Latest-Admits signals start sc (inl (fails, same)) h = subst Admits (sym same) h
  Latest-Admits signals start sc (inr (before, disk, after, split, from, fails)) h =
      IsFrom-Admits disk sc from

  -- Whenever the server has started, and after any sequence of reloads, a request that its rules serve
  -- can come over a connection for the host of its authority: the guard that the TLS configuration in
  -- use was built with accepts this host, in any case of its letters.
  pub serve_config-Admits :
      (disk : Disk) (signals : List (Option Disk)) (sc : ServerConfig)
      → serve_config base64 args disk ≡ ok sc
      → Admits (reload_task base64 args signals sc)
  serve_config-Admits disk signals sc h =
      Latest-Admits signals sc _ (reload_task-Latest base64 args signals sc)
        (IsFrom-Admits disk sc (serve_config-IsFrom disk sc h))
