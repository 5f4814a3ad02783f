-- ===== src/Examples/Proxy.antt =====
-- Examples of the server and of the batches.
use zeromasque.Prelude.{ℕ, ◌≡◌, ◌↔◌, refl, List, [], ◌∷◌, none, some, arith, nat_eq, bytes_eq}
use zeromasque.Prelude.Result.{ok, err}
use zeromasque.Text.{codes}
use zeromasque.Net.{SocketAddr}
use zeromasque.Map.{Map, get, update}
use zeromasque.Transport.{Header, headers}
use zeromasque.Dgram
use zeromasque.Dgram.{Parsed}
use zeromasque.Varint
use zeromasque.Bytes.{read_be}
use zeromasque.Rules.{RuleTable}
use zeromasque.Io.{Packet}
use zeromasque.Io.Chunks.{IsSegmented}
use zeromasque.Server.Request.{ConnectRequest, parse}
use zeromasque.Server.Request.Parse.{connect_request_parse_lem, Requests}
use zeromasque.Server.Request.Refusal.{parse-Refusal, Refusal}
use zeromasque.Server.Session.{
  Flow, Client, Work, header, handle_connect_request, on_datagram, drain_client_datagrams,
  process_client,
}
use zeromasque.Server.Session.Ends.{Ends, EndsFor}
use zeromasque.Server.Session.Total.{process_client-Ends}
use zeromasque.Server.Session.Requests.{Effect, Opens, Unsent, Refused, handle_connect_request_lem}
use zeromasque.Server.Session.Datagrams.{Receives, Relays, payloads_for, drain_client_datagrams_lem}
use zeromasque.Server.Routing.{Server, on_packet, sweep_idle_flows}
use zeromasque.Server.Routing.Invariant.{IsRouted}
use zeromasque.Server.Routing.Packets.{Handles, on_packet-Handles}
use zeromasque.Server.Routing.Sweep.{Stays, sweep_idle_flows_lem}
use zeromasque.Server.Loop.{Wake, packets, timeout, sweep, run, run-Handles}
use zeromasque.Client.{connect_headers}
use zeromasque.Examples.Toy.{Conn, idle, toy, toy_drains, system, quic, localhost, table, sixteen}

-- A connection with a request on stream 4 and a datagram for its flow.
abbrev request : List Header
request = connect_headers (codes "A:1") (codes "/p")

abbrev for_one : List ℕ
for_one = 1 ∷ 0 ∷ 9 ∷ []

abbrev busy : Conn
busy = record idle { events = (4, headers request) ∷ []; datagrams = for_one ∷ [] }

abbrev wakes : List (RuleTable × Wake)
wakes =
    (table, packets ((1 ∷ 2 ∷ [], localhost 9) ∷ (3 ∷ [], localhost 9) ∷ []))
    ∷ (table, sweep)
    ∷ (table, timeout)
    ∷ []

abbrev client : Client Conn (Unit {0})
client = record { conn = busy; http3 = none; flows = []; peer = localhost 9 }

abbrev flow : Flow
flow = record { to_target = []; last_activity = 0; idle_timeout = some 35 }

abbrev flows : Map ℕ Flow
flows = (1, flow) ∷ []

abbrev server : Server Conn (Unit {0})
server = record {
  local_addr = localhost 443;
  clients = (sixteen 0, record client { flows = flows }) ∷ [];
  routes = (1 ∷ 2 ∷ [], sixteen 0) ∷ [];
}

there : get (sixteen 0) server.clients ≡ some (record client { flows = flows })
unfolding get
there = refl

routed : IsRouted server
unfolding get
routed = (refl, tt)

run-Handles_example :
    (r : Server Conn (Unit {0}) × ℕ) × Ends
      (λ fuel. run toy system (quic busy) fuel wakes server 0)
      r
    × IsRouted r.0
run-Handles_example = run-Handles toy system (quic busy) toy_drains wakes server 0 routed

on_packet-Handles_example :
    Handles toy system
      (quic busy)
      toy_drains
      table
      (λ fuel. on_packet toy system (quic busy) table fuel server (1 ∷ 2 ∷ []) (localhost 9) 0)
on_packet-Handles_example =
    on_packet-Handles toy system (quic busy) toy_drains table server (1 ∷ 2 ∷ []) (localhost 9) 0
      routed

process_client-Ends_example :
    EndsFor (λ fuel. process_client toy system table (sixteen 0) fuel client 0)
process_client-Ends_example = process_client-Ends toy system toy_drains table (sixteen 0) client 0

abbrev work : Work Conn (Unit {0}) ℕ
work = record { conn = busy; http3 = tt; flows = []; os = 0 }

handle_connect_request_lem_example :
    Effect toy system 1
      (Opens toy system table 4 (localhost 9) (sixteen 0) work request)
      (Unsent toy system table 4 (localhost 9) (sixteen 0) work request)
      (Refused toy system table 4 (localhost 9) (sixteen 0) work request)
      []
      (handle_connect_request toy system table 4 request (localhost 9) (sixteen 0) work).flows
handle_connect_request_lem_example =
    handle_connect_request_lem toy system table 4 (localhost 9) (sixteen 0) work request

abbrev drained_flows : Map ℕ Flow
drained_flows = (1, record flow { to_target = (9 ∷ []) ∷ []; last_activity = 5 }) ∷ []

drains :
    drain_client_datagrams toy system 2 5 busy flows
    ≡ ok (record busy { datagrams = [] }, drained_flows)
unfolding drain_client_datagrams on_datagram Dgram.decode Varint.decode read_be update
drains = refl

drain_client_datagrams_lem_example :
    (ds : List (List ℕ)) × Receives toy system busy ds (record busy { datagrams = [] })
    × ((f : ℕ) → Relays toy system f (payloads_for f ds) 5 (get f flows) (get f drained_flows))
drain_client_datagrams_lem_example =
    drain_client_datagrams_lem toy system 2 5 busy (record busy { datagrams = [] }) flows
      drained_flows drains

sweep_idle_flows_lem_example :
    (client' : Client Conn (Unit {0})) × (get
        (sixteen 0)
        (sweep_idle_flows toy system (quic busy) server 40000000000).clients
      ≡ some client')
    × ((f : ℕ) (x : Flow)
        → (get f client'.flows ≡ some x)
          ↔ ((get f flows ≡ some x) × Stays toy system (quic busy) 40000000000 x))
sweep_idle_flows_lem_example =
    sweep_idle_flows_lem toy system (quic busy) server 40000000000 (sixteen 0)
      (record client { flows = flows }) there ((λ i. i), tt)

asked : ConnectRequest
asked = record { authority = codes "A:1"; path = codes "/p" }

connect_request_parse_lem_example : (parse request ≡ ok asked) ↔ Requests request asked
connect_request_parse_lem_example = connect_request_parse_lem request asked

abbrev get_request : List Header
get_request = header (codes ":method") (codes "GET") ∷ []

refused : parse get_request ≡ err 405
unfolding parse
refused = refl

parse-Refusal_example : Refusal get_request 405
parse-Refusal_example = parse-Refusal get_request 405 refused

abbrev outs : List (Packet × SocketAddr)
outs = (1 ∷ 2 ∷ [], localhost 9) ∷ (3 ∷ 4 ∷ [], localhost 9) ∷ (5 ∷ [], localhost 9) ∷ []

segmented : IsSegmented 2 ((1 ∷ 2 ∷ []) ∷ (3 ∷ []) ∷ [])
segmented = (refl, (omega arith, omega arith))
