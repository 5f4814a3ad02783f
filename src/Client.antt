-- ===== src/Client.antt =====
-- src/client.rs: the local UDP proxy, with one flow for every local source address.
mod Names
mod Backoff
pub mod Reconnect
pub mod Dial
pub mod Proxy
pub mod Agreement
pub mod Sources
pub mod Flows
pub mod Opening
pub mod Session
pub mod Turn
pub mod Loops
pub mod Total
unfoldable pub use Names.*
unfoldable pub use Backoff.*
use zeromasque.Prelude.{
  ℕ, zero, suc, ◌+◌, ◌-◌, ◌/◌, List, [], ◌∷◌, ◌++◌, Option, none, some, Bool, true, false, ◌&&◌,
  ltb, leb, ◌==◌, length, if◌then◌else◌, nat_eq,
}
use zeromasque.Prelude.Result.{Result, ok, err}
use zeromasque.Text.{Text}
use zeromasque.Net.{SocketAddr, addr_eq}
use zeromasque.Map.{Map, keys, get, insert, remove, update, is_some}
use zeromasque.Transport.{
  Header, Event, headers, body, finished, reset, other, event, no_more, RequestError,
  stream_blocked, stream_limit, request_failed, Transport,
}
use zeromasque.Dgram
use zeromasque.Dgram.{Parsed, context_id_udp}

abbrev pub max_pending : ℕ
max_pending = 32

-- One local source's flow.
pub record FlowState : Type 0 where
  pub flow_id : Option ℕ
  pub established : Bool
  pub pending : List (List ℕ)

abbrev pub fresh : FlowState
fresh = record { flow_id = none; established = false; pending = [] }

-- The variables of `run_session` that its helpers change.
pub record Tunnel (C H : Type 0) : Type 0 where
  pub conn : C
  pub http3 : H
  pub by_addr : Map SocketAddr FlowState
  pub flows : Map ℕ SocketAddr

-- A local datagram that must wait: it is buffered while there is room.
abbrev pub push_pending : List ℕ → FlowState → FlowState
push_pending payload st =
    if ltb (length st.pending) max_pending
    then record st { pending = st.pending ++ payload ∷ [] }
    else st

abbrev or_fresh : Option FlowState → FlowState
or_fresh none = fresh
or_fresh (some st) = st

abbrev set_flow_id : ℕ → FlowState → FlowState
set_flow_id fid st = record st { flow_id = some fid }

unfoldable pub remove_all : List SocketAddr → Map SocketAddr FlowState → Map SocketAddr FlowState
remove_all [] m = m
remove_all (src ∷ srcs) m = remove_all srcs (remove src m)

abbrev establish : FlowState → FlowState
establish st = record st { established = true; pending = [] }

-- `None` where the loop has spent the fuel of the model.
module _ {C H : Type 0} (t : Transport C H) where
  unfoldable pub send_datagram : ℕ → List ℕ → C → C
  send_datagram flow_id payload c = (t.dgram_send (Dgram.encode flow_id payload) c).1

  unfoldable pub send_all : ℕ → List (List ℕ) → C → C
  unfolding send_datagram
  send_all flow_id [] c = c
  send_all flow_id (payload ∷ pending) c =
      send_all flow_id pending (send_datagram flow_id payload c)

  -- A local datagram of a source with this state: sent, or buffered.
  abbrev local_to : List ℕ → FlowState → Bool → Option ℕ → C → C × FlowState
  local_to payload st true (some fid) c = (send_datagram fid payload c, st)
  local_to payload st true none c = (c, push_pending payload st)
  local_to payload st false o c = (c, push_pending payload st)

  -- One round of the loop over `local_pkts`.
  unfoldable pub on_local :
      List ℕ → SocketAddr → C → Map SocketAddr FlowState → C × Map SocketAddr FlowState
  unfolding send_datagram
  on_local payload src c by_addr =
      let st = or_fresh (get src by_addr) in
      let (c', st') = local_to payload st st.established st.flow_id c in
      (c', insert src st' by_addr)

  -- One source in `open_pending_flows`, with the sources that are dropped after the loop.
  abbrev on_request :
      SocketAddr
      → Tunnel C H
      → List SocketAddr
      → Result RequestError ℕ × H × C
      → Tunnel C H × List SocketAddr
  on_request src k dropped (ok stream_id, h, c) = (
    record {
      conn = c;
      http3 = h;
      by_addr = update src (set_flow_id (stream_id / 4)) k.by_addr;
      flows = insert (stream_id / 4) src k.flows;
    },
    dropped,
  )
  on_request src k dropped (err stream_blocked, h, c) = (record k { conn = c; http3 = h }, dropped)
  on_request src k dropped (err stream_limit, h, c) =
      (record k { conn = c; http3 = h }, src ∷ dropped)
  on_request src k dropped (err request_failed, h, c) =
      (record k { conn = c; http3 = h }, src ∷ dropped)

  abbrev open_one :
      List Header
      → SocketAddr
      → Tunnel C H
      → List SocketAddr
      → Option FlowState
      → Tunnel C H × List SocketAddr
  open_one hs src k dropped none = (k, dropped)
  open_one hs src k dropped (some st) =
      if is_some st.flow_id
      then (k, dropped)
      else on_request src k dropped (t.send_request hs false k.http3 k.conn)

  unfoldable pub open_each :
      List Header → List SocketAddr → Tunnel C H → List SocketAddr → Tunnel C H × List SocketAddr
  open_each hs [] k dropped = (k, dropped)
  open_each hs (src ∷ srcs) k dropped =
      let (k', dropped') = open_one hs src k dropped (get src k.by_addr) in
      open_each hs srcs k' dropped'

  unfoldable pub open_pending_flows : Text → Text → Tunnel C H → Tunnel C H
  unfolding open_each remove_all connect_headers
  open_pending_flows authority path k =
      let (k', dropped) = open_each (connect_headers authority path) (keys k.by_addr) k [] in
      record k' { by_addr = remove_all dropped k'.by_addr }

  -- The flow is gone: its source starts over.
  abbrev forget : Tunnel C H → Option SocketAddr → Tunnel C H
  forget k none = k
  forget k (some src) = record k { by_addr = remove src k.by_addr }

  unfoldable pub drop_flow : ℕ → Tunnel C H → Tunnel C H
  drop_flow fid k = forget (record k { flows = remove fid k.flows }) (get fid k.flows)

  abbrev establish_at : ℕ → SocketAddr → Tunnel C H → Option FlowState → Tunnel C H
  establish_at fid src k none = k
  establish_at fid src k (some st) = record k {
    by_addr = update src establish k.by_addr;
    conn = send_all fid st.pending k.conn;
  }

  abbrev establish_for : ℕ → Tunnel C H → Option SocketAddr → Tunnel C H
  establish_for fid k none = k
  establish_for fid k (some src) = establish_at fid src k (get src k.by_addr)

  unfoldable pub accept_flow : ℕ → Tunnel C H → Tunnel C H
  unfolding send_all
  accept_flow fid k = establish_for fid k (get fid k.flows)

  abbrev on_status : ℕ → Tunnel C H → Option ℕ → Tunnel C H
  on_status fid k none = k
  on_status fid k (some s) = if leb 200 s && ltb s 300 then accept_flow fid k else drop_flow fid k

  unfoldable pub on_event : ℕ → Event → Tunnel C H → Tunnel C H
  unfolding status_of drop_flow accept_flow
  on_event stream_id (headers list) k = on_status (stream_id / 4) k (status_of list)
  on_event stream_id finished k = drop_flow (stream_id / 4) k
  on_event stream_id reset k = drop_flow (stream_id / 4) k
  on_event stream_id body k = k
  on_event stream_id other k = k

  unfoldable pub poll_responses : ℕ → Tunnel C H → Option (Tunnel C H)
  poll_responses zero k = none
  poll_responses (suc fuel) k =
      let r = t.poll k.http3 k.conn in
      let k' = record k { http3 = r.1; conn = r.2 } in
      elim r.0 [
        | no_more ↦ some k'
        | event stream_id e ↦ poll_responses fuel (on_event stream_id e k')
      ]

  -- `send_udp` on the local socket is the system's.
  module _ {W : Type 0} (send_udp : List ℕ → SocketAddr → W → W) where
    abbrev to_source : List ℕ → W → Option SocketAddr → W
    to_source payload w none = w
    to_source payload w (some src) = send_udp payload src w

    abbrev route_parsed : Option Parsed → Map ℕ SocketAddr → W → W
    route_parsed none flows w = w
    route_parsed (some p) flows w =
        if p.context_id == context_id_udp then to_source p.payload w (get p.flow_id flows) else w

    unfoldable pub route_tunnel_datagrams : ℕ → C → Map ℕ SocketAddr → W → Option (C × W)
    route_tunnel_datagrams zero c flows w = none
    route_tunnel_datagrams (suc fuel) c flows w =
        let r = t.dgram_recv c in
        elim r.0 [
          | none ↦ some (r.1, w)
          | some buf ↦
              route_tunnel_datagrams fuel r.1 flows (route_parsed (Dgram.decode buf) flows w)
        ]
