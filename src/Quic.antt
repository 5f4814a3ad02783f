-- ===== src/Quic.antt =====
-- src/quic.rs: the TLS contexts and the QUIC configurations of the server and the client. The calls
-- of BoringSSL and quiche are recorded: a configuration is the list of the calls that made it.
pub mod Calls
pub mod Server
pub mod Client
use zeromasque.Prelude.{
  ℕ, ◌*◌, List, [], ◌∷◌, ◌++◌, Option, none, some, Bool, true, false, ◌&&◌, if◌then◌else◌,
}
use zeromasque.Prelude.Result.{Result, ok, err}
use zeromasque.Text.{Text, codes}
use zeromasque.Ech.Config.{encode}
use zeromasque.Ech.Key.{EchKeyPair, EchKeySet}

abbrev pub max_udp_payload : ℕ
max_udp_payload = 1400

abbrev pub idle_timeout_ms : ℕ
idle_timeout_ms = 10000

abbrev pub dgram_queue_len : ℕ
dgram_queue_len = 65536

pub data Call : Type 0 where
  new_context min_tls13 max_tls13 : Call
  certificate_chain_file private_key_file : Text → Call
  check_private_key new_ech_keys : Call
  hpke_key : List ℕ → Call
  -- Whether it is a retry configuration, the configuration, and the private key.
  add_ech_key : Bool → List ℕ → List ℕ → Call
  set_ech_keys : Call
  select_certificate_callback : List Text → Call
  verify_none verify_peer default_verify_paths : Call
  ca_file : Text → Call
  info_callback : List ℕ → Call
  with_context : Call
  application_protos cc_algorithm_name : Text → Call
  max_idle_timeout max_recv_udp_payload_size max_send_udp_payload_size : ℕ → Call
  initial_max_data initial_max_stream_data_bidi_local initial_max_stream_data_bidi_remote : ℕ → Call
  initial_max_stream_data_uni initial_max_streams_bidi initial_max_streams_uni : ℕ → Call
  disable_active_migration : Bool → Call
  enable_dgram : Bool → ℕ → ℕ → Call

pub data QuicError : Type 0 where
  failed : Call → QuicError
  panicked : QuicError

-- The calls so far.
abbrev pub Config : Type 0
Config = List Call

abbrev pub Step : Type 0
Step = Config → Result QuicError Config

pub data Verify : Type 0 where
  roots : Option Text → Verify
  insecure : Verify

abbrev pub ca_bundle_paths : List Text
ca_bundle_paths =
    codes "/etc/ssl/certs/ca-certificates.crt"
    ∷ codes "/etc/pki/tls/certs/ca-bundle.crt"
    ∷ codes "/etc/ssl/cert.pem"
    ∷ codes "/etc/ssl/ca-bundle.pem"
    ∷ []

infixr 5 ◌>>◌
unfoldable pub ◌>>◌ : Step → Step → Step
◌>>◌ m k c = elim (m c) [ ok c' ↦ k c' | err e ↦ err e ]

unfoldable pub skip : Step
skip c = ok c

-- A call that cannot fail.
unfoldable pub note : Call → Step
note x c = ok (c ++ x ∷ [])

-- Whether a call succeeds after the calls so far, and whether a file is there, is the system's.
module _ (succeeds : Config → Call → Bool) (exists : Text → Bool) where
  unfoldable pub call : Call → Step
  call x c = if succeeds c x then ok (c ++ x ∷ []) else err (failed x)

  unfoldable pub apply_transport_params : Step
  apply_transport_params =
      call (application_protos (codes "h3"))
      >> note (max_idle_timeout idle_timeout_ms)
      >> call (cc_algorithm_name (codes "bbr2_gcongestion"))
      >> note (max_recv_udp_payload_size max_udp_payload)
      >> note (max_send_udp_payload_size max_udp_payload)
      >> note (initial_max_data 10000000)
      >> note (initial_max_stream_data_bidi_local 2000000)
      >> note (initial_max_stream_data_bidi_remote 2000000)
      >> note (initial_max_stream_data_uni 2000000)
      >> note (initial_max_streams_bidi 128)
      >> note (initial_max_streams_uni 128)
      >> note (disable_active_migration true)
      >> note (enable_dgram true dgram_queue_len dgram_queue_len)

  abbrev pub add_key : List ℕ → Option (List ℕ) → Step
  add_key private_key none = λ c. err panicked
  add_key private_key (some bytes) = call (add_ech_key true bytes private_key)

  unfoldable pub add_keys : List EchKeyPair → Step
  add_keys [] = skip
  add_keys (pair ∷ pairs) =
      call (hpke_key pair.private_key)
      >> add_key pair.private_key (encode pair.config)
      >> add_keys pairs

  unfoldable pub install_ech_keys : EchKeySet → Step
  install_ech_keys ech = call new_ech_keys >> add_keys ech.pairs >> call set_ech_keys

  abbrev pub install_ech : Option EchKeySet → Step
  install_ech none = skip
  install_ech (some ech) = install_ech_keys ech

  unfoldable pub build_server_config :
      Text → Text → Option EchKeySet → List Text → Result QuicError Config
  build_server_config cert_path key_path ech allowed_sni_hosts =
      (call new_context
          >> call min_tls13
          >> call max_tls13
          >> call (certificate_chain_file cert_path)
          >> call (private_key_file key_path)
          >> call check_private_key
          >> install_ech ech
          >> note (select_certificate_callback allowed_sni_hosts)
          >> call with_context
          >> apply_transport_params)
        []

  -- The first bundle that is there and loads.
  unfoldable pub first_bundle : List Text → Step
  first_bundle [] c = ok c
  first_bundle (path ∷ paths) c =
      let more = first_bundle paths c in
      if exists path && succeeds c (ca_file path) then ok (c ++ ca_file path ∷ []) else more

  -- A failure of the default paths is ignored.
  abbrev pub default_paths : Step
  default_paths c =
      if succeeds c default_verify_paths then ok (c ++ default_verify_paths ∷ []) else ok c

  unfoldable pub load_system_roots : Step
  load_system_roots = default_paths >> first_bundle ca_bundle_paths

  abbrev pub extra_ca : Option Text → Step
  extra_ca none = skip
  extra_ca (some ca) = call (ca_file ca)

  abbrev pub set_verify : Verify → Step
  set_verify insecure = note verify_none
  set_verify (roots file) = note verify_peer >> load_system_roots >> extra_ca file

  abbrev pub install_client_ech : Option (List ℕ) → Step
  install_client_ech none = skip
  install_client_ech (some list) = note (info_callback list)

  unfoldable pub build_client_config : Verify → Option (List ℕ) → Result QuicError Config
  build_client_config verify ech_config_list =
      (call new_context
          >> call min_tls13
          >> call max_tls13
          >> set_verify verify
          >> install_client_ech ech_config_list
          >> call with_context
          >> apply_transport_params)
        []
