-- ===== src/Examples/Serving.antt =====
-- Examples of the TLS configurations, of the start of a server and of its reloads.
use zeromasque.Prelude.{◌≡◌, refl, List, [], ◌∷◌, none, some, Bool, true, false}
use zeromasque.Prelude.Result.{ok}
use zeromasque.Text.{Text, codes}
use zeromasque.Endpoint.{parse}
use zeromasque.Rules.{
  allowed_sni_hosts, load, load_rules, load_rule, resolve, rule_spec, default_idle_secs,
}
use zeromasque.Text.{split_once, find_byte}
use zeromasque.Examples.Table.{resolver, reader}
use zeromasque.Quic.{
  Call, Config, roots, build_server_config, build_client_config, new_context, min_tls13, max_tls13,
  certificate_chain_file, private_key_file, check_private_key, select_certificate_callback,
  verify_peer, ca_file, with_context, call, note, skip, apply_transport_params, load_system_roots,
  first_bundle, ◌>>◌,
}
use zeromasque.Quic.Calls.{transport}
use zeromasque.Quic.Server.{ServerCalls, build_server_config-ServerCalls}
use zeromasque.Quic.Client.{ClientCalls, build_client_config-ClientCalls}
use zeromasque.Reload.{ReloadPaths, ServerConfig, Disk, reload_task}
use zeromasque.Reload.History.{Latest, reload_task-Latest}
use zeromasque.Startup.{serve_config}
use zeromasque.Startup.Served.{Admits, serve_config-Admits}
use zeromasque.Examples.Bundles.{letters, disk}
use zeromasque.Examples.Toy.{table}

-- The default paths fail, and all other calls succeed.
abbrev answers : Config → Call → Bool
answers c Call.default_verify_paths = false
answers c x = true

abbrev there : Text → Bool
there path = true

abbrev server : List Text → Config
server hosts =
    new_context
    ∷ min_tls13
    ∷ max_tls13
    ∷ certificate_chain_file (codes "c")
    ∷ private_key_file (codes "k")
    ∷ check_private_key
    ∷ select_certificate_callback hosts
    ∷ with_context
    ∷ transport answers there

server_built :
    (hosts : List Text)
    → build_server_config answers there (codes "c") (codes "k") none hosts ≡ ok (server hosts)
unfolding build_server_config call note skip apply_transport_params ◌>>◌
server_built hosts = refl

build_server_config-ServerCalls_example :
    ServerCalls answers there
      (codes "c")
      (codes "k")
      none
      (codes "a" ∷ [])
      (server (codes "a" ∷ []))
build_server_config-ServerCalls_example =
    build_server_config-ServerCalls answers there (codes "c") (codes "k") none (codes "a" ∷ [])
      (server (codes "a" ∷ [])) (server_built (codes "a" ∷ []))

abbrev client : Config
client =
    new_context
    ∷ min_tls13
    ∷ max_tls13
    ∷ verify_peer
    ∷ ca_file (codes "/etc/ssl/certs/ca-certificates.crt")
    ∷ with_context
    ∷ transport answers there

client_built : build_client_config answers there (roots none) none ≡ ok client
unfolding build_client_config call note skip apply_transport_params load_system_roots first_bundle
    ◌>>◌
client_built = refl

build_client_config-ClientCalls_example : ClientCalls answers there (roots none) none client
build_client_config-ClientCalls_example =
    build_client_config-ClientCalls answers there (roots none) none client client_built

abbrev today : Disk
today = record {
  keys = disk;
  read_to_string = λ path. some (codes "x");
  to_socket_addrs = resolver;
  from_str = reader;
  succeeds = answers;
  exists = there;
}

-- The rules are gone.
abbrev broken : Disk
broken = record today { read_to_string = λ path. none }

abbrev args : ReloadPaths
args = record { cert = codes "c"; key = codes "k"; ech_key = none; rules = codes "r" }

abbrev started : ServerConfig
started = record { config = server (allowed_sni_hosts table); rules = table }

rules_loaded : load resolver reader (some (codes "x")) ≡ ok table
unfolding load load_rules load_rule resolve rule_spec default_idle_secs parse split_once find_byte
rules_loaded = refl

starts : serve_config letters args today ≡ ok started
unfolding serve_config
starts = rw (rules_loaded, server_built (allowed_sni_hosts table)) refl

serve_config-Admits_example :
    Admits letters args (reload_task letters args (some today ∷ none ∷ some broken ∷ []) started)
serve_config-Admits_example =
    serve_config-Admits letters args today (some today ∷ none ∷ some broken ∷ []) started starts

reload_task-Latest_example :
    Latest letters args
      (some today ∷ some broken ∷ [])
      started
      (reload_task letters args (some today ∷ some broken ∷ []) started)
reload_task-Latest_example = reload_task-Latest letters args (some today ∷ some broken ∷ []) started
