-- ===== src/Reload/History.antt =====
-- `reload_task` of src/reload.rs: which configuration is in use after the signals so far.
use zeromasque.Prelude.{
  ◌≡◌, ◌⊎◌, inl, inr, refl, sym, ap, List, [], ◌∷◌, ◌++◌, Option, none, some, All, subst,
}
use zeromasque.Prelude.Result.{Result, ok, err, >>=-eq-ok, Result-cases}
use zeromasque.Rules.{RuleTable, LoadError, allowed_sni_hosts}
use zeromasque.Ech.Pem.{Base64}
use zeromasque.Ech.Key.{EchKeySet, KeyError}
use zeromasque.Quic.{Config, QuicError, build_server_config}
use zeromasque.Quic.Server.{ServerCalls, build_server_config-ServerCalls}
use zeromasque.Reload.{
  ReloadPaths, ServerConfig, Disk, ReloadError, keys_of, rules_of, config_of, load_keys, load_rules,
  rebuild, swap, on_signal, reload_task,
}

pub keys_of-ok {ℓ} : {A : Type ℓ} (r : Result KeyError A) (a : A) → keys_of r ≡ ok a → r ≡ ok a
keys_of-ok (ok b) a h = cc
keys_of-ok (err e) a h = cc

pub rules_of-ok : (r : Result LoadError RuleTable) (a : RuleTable) → rules_of r ≡ ok a → r ≡ ok a
rules_of-ok (ok b) a h = cc
rules_of-ok (err e) a h = cc

pub config_of-ok : (r : Result QuicError Config) (a : Config) → config_of r ≡ ok a → r ≡ ok a
config_of-ok (ok b) a h = cc
config_of-ok (err e) a h = cc

same_config : {a b : ServerConfig} → ◌≡◌ {A = Result ReloadError ServerConfig} (ok a) (ok b) → a ≡ b
same_config h = cc

module _ (base64 : Base64) (paths : ReloadPaths) where
  -- The keys, the rules and the TLS configuration of one moment, and the guard for these rules.
  abbrev pub IsFrom : Disk → ServerConfig → Type 0
  IsFrom disk sc =
      (ech : Option EchKeySet) × (load_keys base64 disk.keys paths.ech_key ≡ ok ech)
      × (load_rules base64 disk paths.rules ≡ ok sc.rules)
      × ServerCalls disk.succeeds disk.exists paths.cert paths.key ech (allowed_sni_hosts sc.rules)
          sc.config

  pub build-IsFrom :
      (disk : Disk) (ech : Option EchKeySet) (rules : RuleTable) (config : Config)
      → load_keys base64 disk.keys paths.ech_key ≡ ok ech
      → load_rules base64 disk paths.rules ≡ ok rules
      → build_server_config disk.succeeds disk.exists paths.cert paths.key ech
          (allowed_sni_hosts rules)
        ≡ ok config
      → IsFrom disk (record { config = config; rules = rules })
  build-IsFrom disk ech rules config h k b = (
    ech,
    h,
    k,
    build_server_config-ServerCalls disk.succeeds disk.exists paths.cert paths.key ech _ config b,
  )

  rebuild-IsFrom :
      (disk : Disk) (sc : ServerConfig) → rebuild base64 paths disk ≡ ok sc → IsFrom disk sc
  unfolding rebuild
  rebuild-IsFrom disk sc h =
      let (ech, e, h1) = >>=-eq-ok (keys_of (load_keys base64 disk.keys paths.ech_key)) _ h in
      let (rules, e1, h2) = >>=-eq-ok (rules_of (load_rules base64 disk paths.rules)) _ h1 in
      let (config, e2, h3) =
        >>=-eq-ok
          (config_of (
            build_server_config disk.succeeds disk.exists paths.cert paths.key ech
              (allowed_sni_hosts rules)))
          _ h2 in
      subst (IsFrom disk) (same_config h3) (
        build-IsFrom disk ech rules config (keys_of-ok _ ech e) (rules_of-ok _ rules e1)
          (config_of-ok _ config e2))

  -- A signal after which nothing can be rebuilt.
  abbrev pub Fails : Option Disk → Type 0
  Fails none = Unit {0}
  Fails (some disk) = (e : ReloadError) × (rebuild base64 paths disk ≡ err e)

  -- The configuration is the first one, or that of the last signal at which all could be rebuilt.
  abbrev pub Latest : List (Option Disk) → ServerConfig → ServerConfig → Type 0
  Latest signals start sc =
      (All Fails signals × (sc ≡ start))
      ⊎ ((before : List (Option Disk)) × (disk : Disk) × (after : List (Option Disk)) × (signals
            ≡ before ++ some disk ∷ after)
          × IsFrom disk sc
          × All Fails after)

  after_first :
      (signal : Option Disk) (signals : List (Option Disk)) (start : ServerConfig)
      → All Fails signals
      → Latest (signal ∷ signals) start (on_signal base64 paths start signal)
  after_first none signals start h = inl ((tt, h), refl)
  after_first (some disk) signals start h = elim (Result-cases (rebuild base64 paths disk)) [
    | inl (next, e) ↦ rw e (inr ([], disk, signals, refl, rebuild-IsFrom disk next e, h))
    | inr (x, e) ↦
        subst (λ r. Latest (some disk ∷ signals) start (swap base64 start r)) (sym e)
          (inl (((x, e), h), refl))
  ]

  -- After any sequence of signals the server uses its first configuration, if at none of them all could
  -- be rebuilt, and otherwise that of the last signal at which all could: its keys, its rules and its
  -- TLS configuration are all of that one moment, with the guard on the SNI for just these rules. No
  -- failure on the way leaves a part of a configuration behind.
  pub reload_task-Latest :
      (signals : List (Option Disk)) (start : ServerConfig)
      → Latest signals start (reload_task base64 paths signals start)
  unfolding reload_task
  reload_task-Latest [] start = inl (tt, refl)
  reload_task-Latest (signal ∷ signals) start =
      elim (reload_task-Latest signals (on_signal base64 paths start signal)) [
        | inl (fails, same) ↦
            subst (Latest (signal ∷ signals) start) (sym same)
              (after_first signal signals start fails)
        | inr (before, disk, after, split, from, fails) ↦
            inr (signal ∷ before, disk, after, ap (◌∷◌ signal) split, from, fails)
      ]
