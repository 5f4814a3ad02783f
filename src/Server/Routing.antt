-- ===== src/Server/Routing.antt =====
-- The connections of src/server.rs: how packets find them, and how they come and go.
pub mod Sweep
pub mod Packets
pub mod Invariant
use zeromasque.Prelude.{
  ℕ, ◌+◌, ◌-◌, ◌*◌, ◌&&◌, List, [], ◌∷◌, Option, none, some, Bool, true, false, not, min, leb, ◌==◌,
  if◌then◌else◌, length, nat_eq, bytes_eq, bytes_beq,
}
use zeromasque.Prelude.Result.{Result, ok, err, ◌>>=◌}
use zeromasque.Net.{SocketAddr}
use zeromasque.Map.{Map, get, insert, remove, update, retain, map_values, contains_key}
use zeromasque.Transport.{Transport, Direction, read, write}
use zeromasque.Dgram
use zeromasque.Rules.{RuleTable}
use zeromasque.Server.Session.{Scid, Flow, Client, Stop, panicked, System, process_client}

abbrev pub local_conn_id_len : ℕ
local_conn_id_len = 16

abbrev pub nanos_per_sec : ℕ
nanos_per_sec = 1000000000

-- The header of a QUIC packet, as far as the server reads it.
pub record PacketHeader : Type 0 where
  pub is_initial : Bool
  pub version : ℕ
  pub scid : List ℕ
  pub dcid : List ℕ

-- What the server uses of the quiche crate, of `rand` and of its socket besides a connection.
pub record Quic (C W : Type 0) : Type 0 where
  -- `Header::from_slice`, for local connection ids of the length.
  pub from_slice : List ℕ → ℕ → Option PacketHeader
  pub version_is_supported : ℕ → Bool
  pub negotiate_version : List ℕ → List ℕ → Option (List ℕ)
  pub random_scid : W → Scid × W
  -- The id, the local address and the peer's.
  pub accept : Scid → SocketAddr → SocketAddr → W → Option C × W
  pub send_udp : List ℕ → SocketAddr → W → W
  -- What `io::flush_connection` leaves of a connection.
  pub flush : C → W → C × W

pub record Server (C H : Type 0) : Type 0 where
  pub local_addr : SocketAddr
  pub clients : Map Scid (Client C H)
  pub routes : Map (List ℕ) Scid

pub record ToClient : Type 0 where
  pub conn_id : Scid
  pub flow_id : ℕ
  pub payload : List ℕ

abbrev pub least : Option ℕ → Option ℕ → Option ℕ
least none b = b
least (some a) none = some a
least (some a) (some b) = some (min a b)

module _ {C H W S : Type 0} (t : Transport C H) (sys : System W S) (q : Quic C W) where
  unfoldable pub min_timeout : Map Scid (Client C H) → Option ℕ
  min_timeout [] = none
  min_timeout ((_, c) ∷ clients) = least (t.timeout c.conn) (min_timeout clients)

  abbrev accepted_as : Server C H → Scid → List ℕ → SocketAddr → C → Server C H
  accepted_as s scid original_dcid from conn = record s {
    clients = insert scid (record { conn = conn; http3 = none; flows = []; peer = from }) s.clients;
    routes = insert original_dcid scid s.routes;
  }

  abbrev accept_result :
      Server C H → Scid → List ℕ → SocketAddr → Option C × W → Option Scid × Server C H × W
  accept_result s scid original_dcid from (none, w) = (none, s, w)
  accept_result s scid original_dcid from (some conn, w) =
      (some scid, accepted_as s scid original_dcid from conn, w)

  -- The id of the new connection, if quiche accepts it.
  unfoldable pub accept : Server C H → List ℕ → SocketAddr → W → Option Scid × Server C H × W
  accept s original_dcid from w =
      let (scid, w') = q.random_scid w in
      accept_result s scid original_dcid from (q.accept scid s.local_addr from w')

  abbrev version_packet : Option (List ℕ) → SocketAddr → W → W
  version_packet none from w = w
  version_packet (some out) from w = q.send_udp out from w

  unfoldable pub send_version_negotiation : PacketHeader → SocketAddr → W → W
  send_version_negotiation hdr from w =
      version_packet (q.negotiate_version hdr.scid hdr.dcid) from w

  -- The connection that a packet is for: by our id, or by the client's first destination id.
  unfoldable pub route : Server C H → List ℕ → Option Scid
  route s dcid =
      if length dcid == local_conn_id_len && contains_key dcid s.clients
      then some dcid
      else get dcid s.routes

  abbrev stored : Server C H → Scid → Result Stop (Client C H × W) → Result Stop (Server C H × W)
  stored s conn_key (err e) = err e
  stored s conn_key (ok (client, w)) =
      ok (record s { clients = update conn_key (λ c. client) s.clients }, w)

  abbrev received :
      RuleTable → ℕ → Server C H → Scid → Client C H → W → Bool × C → Result Stop (Server C H × W)
  received rules fuel s conn_key client w (true, c) =
      stored s conn_key (process_client t sys rules conn_key fuel (record client { conn = c }) w)
  received rules fuel s conn_key client w (false, c) =
      stored s conn_key (ok (record client { conn = c }, w))

  -- `self.clients.get_mut(&conn_key).unwrap()` and what follows.
  abbrev to_client :
      RuleTable
      → ℕ
      → Server C H
      → Scid
      → List ℕ
      → SocketAddr
      → W
      → Option (Client C H)
      → Result Stop (Server C H × W)
  to_client rules fuel s conn_key pkt from w none = err panicked
  to_client rules fuel s conn_key pkt from w (some client) =
      received rules fuel s conn_key (record client { peer = from }) w
        (t.recv pkt s.local_addr from client.conn)

  unfoldable pub deliver :
      RuleTable → ℕ → Server C H → Scid → List ℕ → SocketAddr → W → Result Stop (Server C H × W)
  deliver rules fuel s conn_key pkt from w =
      to_client rules fuel s conn_key pkt from w (get conn_key s.clients)

  abbrev after_accept :
      RuleTable
      → ℕ
      → List ℕ
      → SocketAddr
      → Option Scid × Server C H × W
      → Result Stop (Server C H × W)
  after_accept rules fuel pkt from (none, s, w) = ok (s, w)
  after_accept rules fuel pkt from (some scid, s, w) = deliver rules fuel s scid pkt from w

  abbrev to_route :
      RuleTable
      → ℕ
      → Server C H
      → List ℕ
      → SocketAddr
      → PacketHeader
      → W
      → Option Scid
      → Result Stop (Server C H × W)
  to_route rules fuel s pkt from hdr w (some scid) = deliver rules fuel s scid pkt from w
  to_route rules fuel s pkt from hdr w none =
      if not hdr.is_initial
      then ok (s, w)
      else if not (q.version_is_supported hdr.version)
      then ok (s, send_version_negotiation hdr from w)
      else after_accept rules fuel pkt from (accept s hdr.dcid from w)

  abbrev with_header :
      RuleTable
      → ℕ
      → Server C H
      → List ℕ
      → SocketAddr
      → W
      → Option PacketHeader
      → Result Stop (Server C H × W)
  with_header rules fuel s pkt from w none = ok (s, w)
  with_header rules fuel s pkt from w (some hdr) =
      to_route rules fuel s pkt from hdr w (route s hdr.dcid)

  unfoldable pub on_packet :
      RuleTable → ℕ → Server C H → List ℕ → SocketAddr → W → Result Stop (Server C H × W)
  unfolding deliver accept route send_version_negotiation
  on_packet rules fuel s pkt from w =
      with_header rules fuel s pkt from w (q.from_slice pkt local_conn_id_len)

  abbrev pub touch : ℕ → Flow → Flow
  touch now f = record f { last_activity = now }

  abbrev pub reply : ToClient → ℕ → Client C H → Client C H
  reply tc now client = record client {
    conn = (t.dgram_send (Dgram.encode tc.flow_id tc.payload) client.conn).1;
    flows = update tc.flow_id (touch now) client.flows;
  }

  unfoldable pub on_target_payload : Server C H → ToClient → ℕ → Server C H
  on_target_payload s tc now = record s { clients = update tc.conn_id (reply tc now) s.clients }

  -- `flush_all`: one connection after the other.
  abbrev flush_clients : Map Scid (Client C H) → W → Map Scid (Client C H) × W
  flush_clients [] w = ([], w)
  flush_clients ((scid, client) ∷ clients) w =
      let (c, w') = q.flush client.conn w in
      let (rest, w'') = flush_clients clients w' in ((scid, record client { conn = c }) ∷ rest, w'')

  unfoldable pub flush_all : Server C H → W → Server C H × W
  flush_all s w =
      let (clients, w') = flush_clients s.clients w in (record s { clients = clients }, w')

  -- The closure of `retain` in `reap_closed`, run over the clients: it keeps those that are not
  -- closed, and drops the routes to the others.
  abbrev reap :
      Map Scid (Client C H) → Map (List ℕ) Scid → Map Scid (Client C H) × Map (List ℕ) Scid
  reap [] routes = ([], routes)
  reap ((cid, client) ∷ clients) routes =
      if t.is_closed client.conn
      then reap clients (retain (λ _ scid. not (bytes_beq scid cid)) routes)
      else let (kept, routes') = reap clients routes in ((cid, client) ∷ kept, routes')

  unfoldable pub reap_closed : Server C H → Server C H
  reap_closed s =
      let (clients, routes) = reap s.clients s.routes in
      record s { clients = clients; routes = routes }

  abbrev pub expired_after : ℕ → Flow → Option ℕ → Bool
  expired_after now f none = false
  expired_after now f (some d) = leb (d * nanos_per_sec) (now - f.last_activity)

  abbrev pub is_expired : ℕ → Flow → Bool
  is_expired now f = expired_after now f f.idle_timeout

  unfoldable pub expired_ids : ℕ → Map ℕ Flow → List ℕ
  expired_ids now [] = []
  expired_ids now ((flow_id, f) ∷ flows) =
      let rest = expired_ids now flows in if is_expired now f then flow_id ∷ rest else rest

  abbrev pub close_flow : ℕ → Client C H → Client C H
  close_flow flow_id client = record client {
    flows = remove flow_id client.flows;
    conn =
        t.stream_shutdown (flow_id * 4) read 0x100
          (t.stream_shutdown (flow_id * 4) write 0x100 client.conn);
  }

  unfoldable pub close_flows : List ℕ → Client C H → Client C H
  close_flows [] client = client
  close_flows (flow_id ∷ ids) client = close_flows ids (close_flow flow_id client)

  unfoldable pub sweep_client : ℕ → Client C H → Client C H
  unfolding expired_ids close_flows
  sweep_client now client = close_flows (expired_ids now client.flows) client

  unfoldable pub sweep_idle_flows : Server C H → ℕ → Server C H
  unfolding sweep_client
  sweep_idle_flows s now = record s { clients = map_values (sweep_client now) s.clients }

  abbrev timed_out : Client C H → Client C H
  timed_out client = record client { conn = t.on_timeout client.conn }

  -- The `timeout` arm of the loop in `run`.
  abbrev pub on_timeout : Server C H → Server C H
  on_timeout s = record s { clients = map_values timed_out s.clients }
