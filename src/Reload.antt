-- ===== src/Reload.antt =====
-- src/reload.rs: `rebuild`, and the loop of `reload_task` over the signals.
pub mod History
use zeromasque.Prelude.{List, [], ◌∷◌, Option, none, some, Bool}
use zeromasque.Prelude.Result.{Result, ok, err, ◌>>=◌}
use zeromasque.Text.{Text}
use zeromasque.Net.{SocketAddr}
use zeromasque.Rules as Rules
use zeromasque.Rules.{RuleTable, RuleJson, LoadError, allowed_sni_hosts}
use zeromasque.Ech.Pem.{Base64}
use zeromasque.Ech.Key as Key
use zeromasque.Ech.Key.{FileSystem, KeyError, EchKeySet}
use zeromasque.Quic.{Call, Config, QuicError, build_server_config}

pub record ReloadPaths : Type 0 where
  pub cert : Text
  pub key : Text
  pub ech_key : Option Text
  pub rules : Text

pub record ServerConfig : Type 0 where
  pub config : Config
  pub rules : RuleTable

-- What the system answers at one moment: the key files, a file's text, the resolver, the JSON reader,
-- and the calls of the TLS library.
pub record Disk : Type 0 where
  pub keys : FileSystem
  pub read_to_string : Text → Option Text
  pub to_socket_addrs : Text → Option (List SocketAddr)
  pub from_str : Text → Option (List RuleJson)
  pub succeeds : Config → Call → Bool
  pub exists : Text → Bool

pub data ReloadError : Type 0 where
  bad_keys : KeyError → ReloadError
  bad_rules : LoadError → ReloadError
  bad_config : QuicError → ReloadError

abbrev pub keys_of {ℓ} : {A : Type ℓ} → Result KeyError A → Result ReloadError A
keys_of (ok a) = ok a
keys_of (err e) = err (bad_keys e)

abbrev pub rules_of : Result LoadError RuleTable → Result ReloadError RuleTable
rules_of (ok a) = ok a
rules_of (err e) = err (bad_rules e)

abbrev pub config_of : Result QuicError Config → Result ReloadError Config
config_of (ok a) = ok a
config_of (err e) = err (bad_config e)

module _ (base64 : Base64) where
  abbrev pub load_keys : FileSystem → Option Text → Result KeyError (Option EchKeySet)
  load_keys fs none = ok none
  load_keys fs (some path) = do set ← Key.load base64 fs path; ok (some set)

  abbrev pub load_rules : Disk → Text → Result LoadError RuleTable
  load_rules disk path = Rules.load disk.to_socket_addrs disk.from_str (disk.read_to_string path)

  unfoldable pub rebuild : ReloadPaths → Disk → Result ReloadError ServerConfig
  rebuild paths disk = do
    ech ← keys_of (load_keys disk.keys paths.ech_key)
    rules ← rules_of (load_rules disk paths.rules)
    config ← config_of (
        build_server_config disk.succeeds disk.exists paths.cert paths.key ech
          (allowed_sni_hosts rules))
    ok (record { config = config; rules = rules })

  abbrev pub swap : ServerConfig → Result ReloadError ServerConfig → ServerConfig
  swap current (ok rebuilt) = rebuilt
  swap current (err e) = current

  -- One round: the read of the signal fails, or the configuration is rebuilt.
  abbrev pub on_signal : ReloadPaths → ServerConfig → Option Disk → ServerConfig
  on_signal paths current none = current
  on_signal paths current (some disk) = swap current (rebuild paths disk)

  unfoldable pub reload_task : ReloadPaths → List (Option Disk) → ServerConfig → ServerConfig
  reload_task paths [] current = current
  reload_task paths (signal ∷ signals) current =
      reload_task paths signals (on_signal paths current signal)
