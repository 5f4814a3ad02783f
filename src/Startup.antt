-- ===== src/Startup.antt =====
-- src/main.rs: what `serve` and `client` load before the runtime starts.
pub mod Served
pub mod Published
use zeromasque.Prelude.{List, [], ◌∷◌, Option, none, some, Bool, ℕ, if◌then◌else◌}
use zeromasque.Prelude.Result.{Result, ok, err, ◌>>=◌, ◌>>◌, ok_or}
use zeromasque.Text.{Text}
use zeromasque.Text.Trim.{trim}
use zeromasque.Net.{SocketAddr}
use zeromasque.Endpoint as Endpoint
use zeromasque.Endpoint.{Endpoint}
use zeromasque.Rules.{allowed_sni_hosts}
use zeromasque.Ech.Pem.{Base64}
use zeromasque.Ech.Key.{EchKeySet, config_list_bytes}
use zeromasque.Quic.{Verify, roots, insecure, build_server_config}
use zeromasque.Reload.{
  ReloadPaths, ServerConfig, Disk, ReloadError, keys_of, rules_of, config_of, load_keys, load_rules,
}

-- `panicked` is the panic of a length in `encode_list`.
pub data StartError : Type 0 where
  bad_load : ReloadError → StartError
  panicked : StartError

abbrev pub loaded {ℓ} : {A : Type ℓ} → Result ReloadError A → Result StartError A
loaded (ok a) = ok a
loaded (err e) = err (bad_load e)

-- The list that is printed for the DNS record.
abbrev pub announce : Option EchKeySet → Result StartError (Option (List ℕ))
announce none = ok none
announce (some set) = do bytes ← ok_or (config_list_bytes set) panicked; ok (some bytes)

module _ (base64 : Base64) where
  -- The first half of `serve`.
  unfoldable pub serve_config : ReloadPaths → Disk → Result StartError ServerConfig
  serve_config args disk = do
    rule_table ← loaded (rules_of (load_rules base64 disk args.rules))
    ech ← loaded (keys_of (load_keys base64 disk.keys args.ech_key))
    list ← announce ech
    config ← loaded (
        config_of (
          build_server_config disk.succeeds disk.exists args.cert args.key ech
            (allowed_sni_hosts rule_table)))
    ok (record { config = config; rules = rule_table })

-- The arguments of the client.
pub record ClientArgs : Type 0 where
  pub endpoint : Text
  pub listen : SocketAddr
  pub proxy_addr : Option SocketAddr
  pub insecure : Bool
  pub ca : Option Text
  pub ech_config : Option Text
  pub ech_config_file : Option Text

pub record ConnectParams : Type 0 where
  pub endpoint : Endpoint
  pub proxy_addr : Option SocketAddr
  pub verify : Verify
  pub ech_config_list : Option (List ℕ)

pub record ProxyOptions : Type 0 where
  pub conn : ConnectParams
  pub listen : SocketAddr

pub data ClientError : Type 0 where
  bad_endpoint : Endpoint.Error → ClientError
  read_failed bad_base64 : ClientError

abbrev pub endpoint_of : Result Endpoint.Error Endpoint → Result ClientError Endpoint
endpoint_of (ok e) = ok e
endpoint_of (err e) = err (bad_endpoint e)

module _ (base64 : Base64) (read_to_string : Text → Option Text) where
  abbrev pub decoded : Text → Result ClientError (Option (List ℕ))
  decoded b64 = do bytes ← ok_or (base64.decode_vec b64) bad_base64; ok (some bytes)

  abbrev pub ech_source : Option Text → Option Text → Result ClientError (Option (List ℕ))
  ech_source (some s) file = decoded (trim s)
  ech_source none (some path) = do
    text ← ok_or (read_to_string path) read_failed
    decoded (trim text)
  ech_source none none = ok none

  unfoldable pub load_ech_config : ClientArgs → Result ClientError (Option (List ℕ))
  load_ech_config args = ech_source args.ech_config args.ech_config_file

  -- The first half of `client`.
  unfoldable pub client_options : ClientArgs → Result ClientError ProxyOptions
  unfolding load_ech_config
  client_options args = do
    endpoint ← endpoint_of (Endpoint.parse args.endpoint)
    list ← load_ech_config args
    ok (record {
      conn = record {
        endpoint = endpoint;
        proxy_addr = args.proxy_addr;
        verify = if args.insecure then insecure else roots args.ca;
        ech_config_list = list;
      };
      listen = args.listen;
    })
