-- ===== src/Client/Turn.antt =====
-- `run_session` of src/client.rs: the rounds of its loop, each over what woke it.
use zeromasque.Prelude.{
  ℕ, List, [], ◌∷◌, Option, none, some, Bool, true, false, not, ◌&&◌, ◌||◌, if◌then◌else◌,
}
use zeromasque.Prelude.Maybe.{◌>>=◌}
use zeromasque.Text.{Text}
use zeromasque.Net.{SocketAddr}
use zeromasque.Map.{Map, is_some}
use zeromasque.Transport.{Transport}
use zeromasque.Client.{
  FlowState, Tunnel, on_local, open_pending_flows, poll_responses, route_tunnel_datagrams,
}

-- The variables of the loop.
pub record Session (C H : Type 0) : Type 0 where
  pub conn : C
  pub http3 : Option H
  pub established : Bool
  pub by_addr : Map SocketAddr FlowState
  pub flows : Map ℕ SocketAddr

-- What a round begins with: the packets that are there, and the timer that fired.
pub record Wake : Type 0 where
  pub proxy_pkts : List (List ℕ × SocketAddr)
  pub local_pkts : List (List ℕ × SocketAddr)
  pub do_timeout : Bool
  pub do_keepalive : Bool

-- The function returns, or the loop goes on.
pub data Turn (C H : Type 0) : Type 0 where
  ended : Bool → Turn C H
  goes_on : Session C H → Turn C H

abbrev pub begin : {C H : Type 0} → C → Session C H
begin c = record { conn = c; http3 = none; established = false; by_addr = []; flows = [] }

-- The address, the authority and the path are `dial`'s. `send_udp` on the local socket and
-- `flush_connection`, with whether it succeeds, are the system's.
module _ {C H W : Type 0} (t : Transport C H) (local_addr : SocketAddr) (authority path : Text)
    (send_udp : List ℕ → SocketAddr → W → W) (flush : C → W → Bool × C × W) where
  unfoldable pub recv_all : List (List ℕ × SocketAddr) → C → C
  recv_all [] c = c
  recv_all ((pkt, from) ∷ ps) c = recv_all ps (t.recv pkt local_addr from c).1

  abbrev pub timers : Wake → C → C
  timers wake c =
      let c' = if wake.do_timeout then t.on_timeout c else c in
      if wake.do_keepalive then t.send_ack_eliciting c' else c'

  unfoldable pub on_locals : List (List ℕ × SocketAddr) → Session C H → Session C H
  on_locals [] s = s
  on_locals ((p, src) ∷ ps) s = on_locals ps (record s {
    conn = (on_local t p src s.conn s.by_addr).0;
    by_addr = (on_local t p src s.conn s.by_addr).1;
  })

  abbrev pub made : Session C H → Option H × C → Option (Session C H)
  made s (none, c) = none
  made s (some h, c) = some (record s { conn = c; http3 = some h; established = true })

  -- The HTTP/3 layer, made once the handshake is done; nothing where that fails.
  abbrev pub with_http3 : Session C H → Option (Session C H)
  with_http3 s =
      if (t.is_established s.conn || t.is_in_early_data s.conn) && not (is_some s.http3)
      then made s (t.with_transport s.conn)
      else some s

  abbrev pub with_tunnel : Session C H → Tunnel C H → C → Session C H
  with_tunnel s k c = record s {
    conn = c;
    http3 = some k.http3;
    by_addr = k.by_addr;
    flows = k.flows;
  }

  abbrev pub tunnel : Session C H → H → Tunnel C H
  tunnel s h = record { conn = s.conn; http3 = h; by_addr = s.by_addr; flows = s.flows }

  abbrev pub routed : ℕ → Session C H → W → Tunnel C H → Option (Session C H × W)
  routed fuel s w k =
      route_tunnel_datagrams t send_udp fuel k.conn k.flows w
      >>= (λ r. some (with_tunnel s k r.0, r.1))

  abbrev pub serve : ℕ → Session C H → W → Option H → Option (Session C H × W)
  serve fuel s w none = some (s, w)
  serve fuel s w (some h) =
      poll_responses t fuel (open_pending_flows t authority path (tunnel s h)) >>= routed fuel s w

  abbrev pub after_flush : Session C H → Bool × C × W → Turn C H × W
  after_flush s (true, c, w) = (goes_on (record s { conn = c }), w)
  after_flush s (false, c, w) = (ended s.established, w)

  abbrev pub flushed : Session C H × W → Turn C H × W
  flushed (s, w) = after_flush s (flush s.conn w)

  abbrev pub ready : ℕ → Wake → W → Bool → Option (Session C H) → Option (Turn C H × W)
  ready fuel wake w established none = some (ended established, w)
  ready fuel wake w established (some s) =
      let s' = on_locals wake.local_pkts s in serve fuel s' w s'.http3 >>= (λ r. some (flushed r))

  -- One round.
  unfoldable pub turn : ℕ → Wake → Session C H → W → Option (Turn C H × W)
  unfolding recv_all on_locals
  turn fuel wake s w =
      let c = timers wake (recv_all wake.proxy_pkts s.conn) in
      if t.is_closed c
      then some (ended s.established, w)
      else ready fuel wake w s.established (with_http3 (record s { conn = c }))

  abbrev pub go_on : (Session C H → W → Option (Bool × W)) → Turn C H × W → Option (Bool × W)
  go_on f (ended established, w) = some (established, w)
  go_on f (goes_on s, w) = f s w

  -- The rounds, until the receive task ends: whether the tunnel was established.
  unfoldable pub rounds : ℕ → List Wake → Session C H → W → Option (Bool × W)
  rounds fuel [] s w = some (s.established, w)
  rounds fuel (wake ∷ wakes) s w = turn fuel wake s w >>= go_on (λ s' w'. rounds fuel wakes s' w')

  abbrev pub first_flush : ℕ → List Wake → Bool × C × W → Option (Bool × W)
  first_flush fuel wakes (true, c, w) = rounds fuel wakes (begin c) w
  first_flush fuel wakes (false, c, w) = some (false, w)

  -- The connection is `dial`'s; there is none where that or `build_h3_config` fails.
  unfoldable pub run_session : ℕ → List Wake → Option C → W → Option (Bool × W)
  run_session fuel wakes none w = some (false, w)
  run_session fuel wakes (some c) w = first_flush fuel wakes (flush c w)
