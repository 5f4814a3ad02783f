-- ===== src/Examples/Local.antt =====
-- Examples of the client.
use zeromasque.Prelude.{
  ℕ, zero, suc, List, Bool, ◌≡◌, refl, [], ◌∷◌, Option, none, some, true, false, nat_eq,
}
use zeromasque.Prelude.Result.{ok}
use zeromasque.Text.{codes, split_once}
use zeromasque.Text.Utf8.{is_utf8}
use zeromasque.Net.{SocketAddr, addr_eq}
use zeromasque.Map.{get}
use zeromasque.Endpoint.{path_only}
use zeromasque.Client.{FlowState, Tunnel, on_local, open_pending_flows}
use zeromasque.Quic.{
  Config, Call, insecure, build_client_config, call, note, skip, apply_transport_params, ◌>>◌,
}
use zeromasque.Startup.{ConnectParams}
use zeromasque.Client.Dial.{Dialing, Dialed, Dialer, dial, peer_of, resolve_authority}
use zeromasque.Client.Proxy.{run_proxy, Results, run_proxy-waits}
use zeromasque.Client.Reconnect.{doubled_waits}
use zeromasque.Client.Total.{EndsAt}
use zeromasque.Client.Dial.Admission.{Admitted, dial-Admitted}
use zeromasque.Client.Sources.{IsState, Linked}
use zeromasque.Client.Session.{Reachable, start, local, open_flows, session_lem}
use zeromasque.Client.Turn.{Wake, begin, turn}
use zeromasque.Client.Total.{SoundEnds, turn_lem}
use zeromasque.Examples.Toy.{Conn, idle, toy, toy_drains, localhost, table, rule}

abbrev empty : Tunnel Conn (Unit {0})
empty = record { conn = idle; http3 = tt; by_addr = []; flows = [] }

abbrev waiting : Tunnel Conn (Unit {0})
waiting = record empty {
  conn = (on_local toy (5 ∷ []) (localhost 7) idle []).0;
  by_addr = (on_local toy (5 ∷ []) (localhost 7) idle []).1;
}

abbrev one_source : Tunnel Conn (Unit {0})
one_source = open_pending_flows toy (codes "A:1") (codes "/p") waiting

reached : Reachable toy one_source
reached =
    open_flows waiting (codes "A:1") (codes "/p")
      (local empty (5 ∷ []) (localhost 7) (start idle tt))

session_lem_example :
    ((src : SocketAddr) (st : FlowState) → get src one_source.by_addr ≡ some st → IsState st)
    × ((fid : ℕ) (src : SocketAddr)
        → get fid one_source.flows ≡ some src
        → Linked one_source.by_addr (fid, src))
session_lem_example = session_lem toy one_source reached

authority_text : is_utf8 (codes "A:1") ≡ true
unfolding is_utf8
authority_text = refl

path_text : is_utf8 (codes "/p?q") ≡ true
unfolding is_utf8
path_text = refl

same_path : path_only (codes "/p?q") ≡ path_only (codes "/p")
unfolding path_only split_once
same_path = refl

abbrev burst : Wake
burst = record {
  proxy_pkts = (1 ∷ 2 ∷ [], localhost 443) ∷ [];
  local_pkts = (5 ∷ [], localhost 7) ∷ (6 ∷ [], localhost 8) ∷ [];
  do_timeout = true;
  do_keepalive = false;
}

abbrev no_send : List ℕ → SocketAddr → ℕ → ℕ
no_send p to w = suc w

abbrev always : Conn → ℕ → Bool × Conn × ℕ
always c w = (true, c, w)

turn_lem_example :
    SoundEnds toy toy_drains (localhost 1) (codes "A:1") (codes "/p") no_send always (λ fuel.
      turn toy (localhost 1) (codes "A:1") (codes "/p") no_send always fuel burst (begin idle) 0)
turn_lem_example =
    turn_lem toy toy_drains (localhost 1) (codes "A:1") (codes "/p") no_send always burst
      (begin idle) 0 (tt, tt, tt)

abbrev all_well : Config → Call → Bool
all_well c x = true

abbrev no_file : List ℕ → Bool
no_file path = false

-- A counter of the connections.
abbrev dialer : Dialer ℕ ℕ
dialer = record {
  to_socket_addrs = λ a. some (localhost 1 ∷ []);
  bind_udp = λ a w. (true, w);
  enlarge_udp_buffers = λ w. w;
  local_addr = λ w. some (localhost 50000);
  random_scid = λ w. (1 ∷ 2 ∷ [], w);
  connect = λ x w. (some w, suc w);
}

abbrev params : ConnectParams
params = record {
  endpoint = record { authority = codes "A:1"; path = codes "/p?q" };
  proxy_addr = none;
  verify = insecure;
  ech_config_list = none;
}

abbrev third : Dialed ℕ
third = record {
  conn = 3;
  local_addr = localhost 50000;
  path = codes "/p?q";
  authority = codes "A:1";
}

dialed_third : dial all_well no_file dialer params 3 ≡ (ok third, 4)
unfolding dial build_client_config call note skip apply_transport_params ◌>>◌ resolve_authority
dialed_third = refl

dial-Admitted_example :
    (x : Dialing) × (u : ℕ) × (dialer.connect x u ≡ (some 3, 4))
    × (peer_of all_well no_file dialer params none ≡ ok x.peer)
    × Admitted all_well no_file dialer table rule x third
dial-Admitted_example =
    dial-Admitted all_well no_file dialer table rule params 3 4 third authority_text path_text
      ([], [], refl, tt, (refl, same_path)) dialed_third

-- Every second connection fails.
abbrev redialed : ℕ → Option Conn × ℕ
redialed zero = (some idle, 1)
redialed (suc w) = (none, 0)

abbrev redialer : Dialer ℕ Conn
redialer = record {
  to_socket_addrs = λ a. some (localhost 1 ∷ []);
  bind_udp = λ a w. (true, w);
  enlarge_udp_buffers = λ w. w;
  local_addr = λ w. some (localhost 50000);
  random_scid = λ w. (1 ∷ 2 ∷ [], w);
  connect = λ x w. redialed w;
}

abbrev h3_works : ℕ → Bool
h3_works w = true

abbrev three : List (List Wake)
three = (burst ∷ burst ∷ []) ∷ [] ∷ (burst ∷ []) ∷ []

run_proxy-waits_example :
    (established : List Bool) × (v : ℕ) × Results toy all_well no_file redialer no_send always
      h3_works params three 0 established v
    × EndsAt
        (λ fuel.
          run_proxy toy all_well no_file redialer no_send always h3_works fuel params three 0)
        (doubled_waits 0 established, v)
run_proxy-waits_example =
    run_proxy-waits toy all_well no_file redialer no_send always h3_works toy_drains params three 0
