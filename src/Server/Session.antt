-- ===== src/Server/Session.antt =====
-- One connection of src/server.rs: its flows, the CONNECT requests, and the datagrams from the client.
pub mod Requests
pub mod Datagrams
pub mod Ends
pub mod Total
use zeromasque.Prelude.{
  ℕ, zero, suc, ◌+◌, ◌*◌, ◌/◌, ◌%◌, List, [], ◌∷◌, ◌++◌, Option, none, some, Bool, true, false, not,
  ◌&&◌, ◌||◌, leb, ◌==◌, if◌then◌else◌, nat_eq,
}
use zeromasque.Prelude.Result.{Result, ok, err, ◌>>=◌}
use zeromasque.Text.{codes}
use zeromasque.Net.{SocketAddr}
use zeromasque.Map.{Map, get, insert, remove, update}
use zeromasque.Transport.{
  Header, Event, headers, body, finished, reset, other, Polled, event, no_more, Transport,
}
use zeromasque.Dgram
use zeromasque.Dgram.{Parsed, context_id_udp}
use zeromasque.Rules.{RuleTable, RuleMatch, match_target}
use zeromasque.Server.Request.{ConnectRequest, parse}
use zeromasque.Server.Bind.{Sockets, BindError, bind_target}

-- A connection id that the server chose: 16 bytes.
abbrev pub Scid : Type 0
Scid = List ℕ

-- `to_target` is what the channel to the flow's task holds. The clock counts nanoseconds, the
-- timeout is in seconds.
pub record Flow : Type 0 where
  pub to_target : List (List ℕ)
  pub last_activity : ℕ
  pub idle_timeout : Option ℕ

pub record Client (C H : Type 0) : Type 0 where
  pub conn : C
  pub http3 : Option H
  pub flows : Map ℕ Flow
  pub peer : SocketAddr

-- The program stops at an `unwrap` of nothing; the model also where its fuel is spent.
pub data Stop : Type 0 where
  panicked out_of_fuel : Stop

abbrev pub status_text : ℕ → List ℕ
status_text n = (48 + n / 100) ∷ (48 + n / 10 % 10) ∷ (48 + n % 10) ∷ []

abbrev pub header : List ℕ → List ℕ → Header
header n v = record { name = n; value = v }

-- The 200 response of a flow.
abbrev pub accepted : List Header
accepted =
    header (codes ":status") (codes "200") ∷ header (codes "capsule-protocol") (codes "?1") ∷ []

-- The system: its clock, its sockets, the tasks that it starts and the channels that it keeps.
pub record System (W S : Type 0) : Type 0 where
  pub now : W → ℕ
  pub linux : Bool
  pub sockets : Sockets W S
  -- `monoio::spawn(target_task(…))`
  pub spawn : S → Scid → ℕ → W → W
  -- Whether `try_send` to the task of the flow takes one more at this moment, where its channel holds
  -- these payloads: it may be full, or the task may have ended.
  pub has_room : ℕ → ℕ → List (List ℕ) → Bool

-- What a handler works on: the connection, its HTTP/3 layer, the flows and the system's state.
pub record Work (C H W : Type 0) : Type 0 where
  pub conn : C
  pub http3 : H
  pub flows : Map ℕ Flow
  pub os : W

module _ {C H W S : Type 0} (t : Transport C H) (sys : System W S) where
  abbrev after_response : Work C H W → Bool × H × C → Work C H W
  after_response k (sent, h, c) = record k { http3 = h; conn = c }

  unfoldable pub respond_status : ℕ → ℕ → Work C H W → Work C H W
  respond_status stream_id status k = after_response k (
      t.send_response stream_id (header (codes ":status") (status_text status) ∷ []) true k.http3
        k.conn)

  -- Where the 200 response cannot be sent, the flow goes.
  abbrev pub unless_sent : ℕ → Work C H W → Bool × H × C → Work C H W
  unless_sent flow_id k (true, h, c) = record k { http3 = h; conn = c }
  unless_sent flow_id k (false, h, c) = record k {
    http3 = h;
    conn = c;
    flows = remove flow_id k.flows;
  }

  -- The task of a flow has been started.
  abbrev pub spawned : ℕ → Scid → S → W → W
  spawned flow_id conn_id target_sock w = sys.spawn target_sock conn_id flow_id w

  abbrev pub new_flow : RuleMatch → W → Flow
  new_flow rule w = record {
    to_target = [];
    last_activity = sys.now w;
    idle_timeout = rule.idle_timeout;
  }

  abbrev pub started : ℕ → Scid → RuleMatch → S → Work C H W → Work C H W
  started flow_id conn_id rule target_sock k =
      let w = spawned flow_id conn_id target_sock k.os in
      record k { os = w; flows = insert flow_id (new_flow rule w) k.flows }

  unfoldable pub open_flow : ℕ → Scid → RuleMatch → S → Work C H W → Work C H W
  open_flow stream_id conn_id rule target_sock k =
      unless_sent (stream_id / 4) (started (stream_id / 4) conn_id rule target_sock k)
        (t.send_response stream_id accepted false k.http3 k.conn)

  abbrev with_socket : ℕ → Scid → RuleMatch → Work C H W → Result BindError S × W → Work C H W
  with_socket stream_id conn_id rule k (ok s, w) =
      open_flow stream_id conn_id rule s (record k { os = w })
  with_socket stream_id conn_id rule k (err e, w) =
      respond_status stream_id 502 (record k { os = w })

  abbrev with_rule : ℕ → SocketAddr → Scid → Work C H W → Option RuleMatch → Work C H W
  with_rule stream_id client_addr conn_id k none = respond_status stream_id 404 k
  with_rule stream_id client_addr conn_id k (some rule) =
      with_socket stream_id conn_id rule k (
        bind_target sys.linux sys.sockets rule.target client_addr rule.transparent rule.fwmark k.os)

  abbrev with_request :
      RuleTable → ℕ → SocketAddr → Scid → Work C H W → Result ℕ ConnectRequest → Work C H W
  with_request rules stream_id client_addr conn_id k (err status) =
      respond_status stream_id status k
  with_request rules stream_id client_addr conn_id k (ok req) =
      with_rule stream_id client_addr conn_id k (match_target rules req.authority req.path)

  unfoldable pub handle_connect_request :
      RuleTable → ℕ → List Header → SocketAddr → Scid → Work C H W → Work C H W
  unfolding open_flow respond_status
  handle_connect_request rules stream_id list client_addr conn_id k =
      with_request rules stream_id client_addr conn_id k (parse list)

  -- The inner loop of `process_client` that reads a body and drops it.
  unfoldable pub drain_body : ℕ → ℕ → Work C H W → Result Stop (Work C H W)
  drain_body zero stream_id k = err out_of_fuel
  drain_body (suc fuel) stream_id k =
      let r = t.recv_body stream_id k.http3 k.conn in
      let k' = record k { http3 = r.1; conn = r.2 } in
      elim r.0 [
        | none ↦ ok k'
        | some n ↦ elim n [ zero ↦ ok k' | suc m ↦ drain_body fuel stream_id k' ]
      ]

  -- One event of the loop in `process_client`.
  unfoldable pub on_event :
      RuleTable → SocketAddr → Scid → ℕ → ℕ → Event → Work C H W → Result Stop (Work C H W)
  unfolding drain_body handle_connect_request
  on_event rules client_addr conn_id fuel stream_id (headers list) k =
      ok (handle_connect_request rules stream_id list client_addr conn_id k)
  on_event rules client_addr conn_id fuel stream_id body k = drain_body fuel stream_id k
  on_event rules client_addr conn_id fuel stream_id finished k =
      ok (record k { flows = remove (stream_id / 4) k.flows })
  on_event rules client_addr conn_id fuel stream_id reset k =
      ok (record k { flows = remove (stream_id / 4) k.flows })
  on_event rules client_addr conn_id fuel stream_id other k = ok k

  -- The loop: events until there is none. Every round has the fuel for its bodies.
  unfoldable pub process_events :
      RuleTable → SocketAddr → Scid → ℕ → ℕ → Work C H W → Result Stop (Work C H W)
  process_events rules client_addr conn_id fuel zero k = err out_of_fuel
  process_events rules client_addr conn_id fuel (suc rounds) k =
      let r = t.poll k.http3 k.conn in
      let k' = record k { http3 = r.1; conn = r.2 } in
      elim r.0 [
        | no_more ↦ ok k'
        | event stream_id e ↦
            on_event rules client_addr conn_id fuel stream_id e k'
            >>= (λ k''. process_events rules client_addr conn_id fuel rounds k'')
      ]

  -- A payload for a flow: dropped where the channel does not take it, but traffic all the same.
  abbrev pub deliver : ℕ → List ℕ → ℕ → Flow → Flow
  deliver flow_id payload now f = record f {
    to_target =
        if sys.has_room flow_id now f.to_target then f.to_target ++ payload ∷ [] else f.to_target;
    last_activity = now;
  }

  abbrev pub on_parsed : Option Parsed → ℕ → Map ℕ Flow → Map ℕ Flow
  on_parsed none now flows = flows
  on_parsed (some parsed) now flows =
      if parsed.context_id == context_id_udp
      then update parsed.flow_id (deliver parsed.flow_id parsed.payload now) flows
      else flows

  unfoldable pub on_datagram : List ℕ → ℕ → Map ℕ Flow → Map ℕ Flow
  on_datagram buf = on_parsed (Dgram.decode buf)

  unfoldable pub drain_client_datagrams : ℕ → ℕ → C → Map ℕ Flow → Result Stop (C × Map ℕ Flow)
  drain_client_datagrams zero now c flows = err out_of_fuel
  drain_client_datagrams (suc fuel) now c flows =
      let r = t.dgram_recv c in
      elim r.0 [
        | none ↦ ok (r.1, flows)
        | some buf ↦ drain_client_datagrams fuel now r.1 (on_datagram buf now flows)
      ]

  abbrev drained : ℕ → Client C H → Work C H W → Result Stop (Client C H × W)
  drained fuel client k =
      drain_client_datagrams fuel (sys.now k.os) k.conn k.flows
      >>= (λ r. ok (record client { conn = r.0; http3 = some k.http3; flows = r.1 }, k.os))

  abbrev serve : RuleTable → Scid → ℕ → Client C H → W → H → C → Result Stop (Client C H × W)
  serve rules conn_id fuel client w h c =
      process_events rules client.peer conn_id fuel fuel
        (record { conn = c; http3 = h; flows = client.flows; os = w })
      >>= (λ k. drained fuel client k)

  -- With the HTTP/3 layer there, or made now.
  abbrev with_http3 :
      RuleTable → Scid → ℕ → Client C H → W → Option H → Result Stop (Client C H × W)
  with_http3 rules conn_id fuel client w (some h) = serve rules conn_id fuel client w h client.conn
  with_http3 rules conn_id fuel client w none =
      let r = t.with_transport client.conn in
      elim r.0 [
        | none ↦ ok (record client { conn = r.1 }, w)
        | some h ↦ serve rules conn_id fuel client w h r.1
      ]

  unfoldable pub process_client :
      RuleTable → Scid → ℕ → Client C H → W → Result Stop (Client C H × W)
  unfolding process_events drain_client_datagrams
  process_client rules conn_id fuel client w =
      if t.is_established client.conn || t.is_in_early_data client.conn
      then with_http3 rules conn_id fuel client w client.http3
      else ok (client, w)
