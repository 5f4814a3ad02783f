-- ===== src/Client/Session.antt =====
-- The session of src/client.rs as a step relation over what `run_session` keeps.
use zeromasque.Prelude.{ℕ, ◌≡◌, List, [], some}
use zeromasque.Text.{Text}
use zeromasque.Net.{SocketAddr, addr_eq}
use zeromasque.Prelude.{nat_eq}
use zeromasque.Map.{get}
use zeromasque.Map.Laws.{All-get}
use zeromasque.Transport.{Event, Transport}
use zeromasque.Client.{FlowState, Tunnel, on_local, open_pending_flows, on_event}
use zeromasque.Client.Sources.{IsState, Linked, on_local-IsSound}
use zeromasque.Client.Flows.{IsSoundTunnel, on_event-IsSound}
use zeromasque.Client.Opening.{open_pending_flows-IsSound}

module _ {C H : Type 0} (t : Transport C H) where
  -- The states of a session: local datagrams come, requests are sent, events are polled, and packets
  -- and timers change the connection in any way.
  pub data Reachable : Tunnel C H → Type 0 where
    start : (c : C) (h : H) → Reachable (record { conn = c; http3 = h; by_addr = []; flows = [] })
    transport :
        (k : Tunnel C H) (c : C) (h : H)
        → Reachable k
        → Reachable (record k { conn = c; http3 = h })
    local :
        (k : Tunnel C H) (payload : List ℕ) (src : SocketAddr)
        → Reachable k
        → Reachable (record k {
          conn = (on_local t payload src k.conn k.by_addr).0;
          by_addr = (on_local t payload src k.conn k.by_addr).1;
        })
    open_flows :
        (k : Tunnel C H) (authority path : Text)
        → Reachable k
        → Reachable (open_pending_flows t authority path k)
    polled :
        (k : Tunnel C H) (stream_id : ℕ) (e : Event)
        → Reachable k
        → Reachable (on_event t stream_id e k)

  Reachable-IsSound : (k : Tunnel C H) → Reachable k → IsSoundTunnel t k
  Reachable-IsSound _ (start c h) = (tt, tt, tt)
  Reachable-IsSound _ (transport k c h r) = Reachable-IsSound k r
  Reachable-IsSound _ (local k payload src r) =
      on_local-IsSound t payload src k.conn k.by_addr k.flows (Reachable-IsSound k r)
  Reachable-IsSound _ (open_flows k authority path r) =
      open_pending_flows-IsSound t authority path k (Reachable-IsSound k r)
  Reachable-IsSound _ (polled k stream_id e r) =
      on_event-IsSound t stream_id e k (Reachable-IsSound k r)

  -- In every state that a session reaches, no source has more than 32 datagrams waiting, a source whose
  -- flow is established has a flow id and nothing waiting, and the source that a flow leads to is there and
  -- has that flow's id.
  pub session_lem :
      (k : Tunnel C H)
      → Reachable k
      → ((src : SocketAddr) (st : FlowState) → get src k.by_addr ≡ some st → IsState st)
        × ((fid : ℕ) (src : SocketAddr) → get fid k.flows ≡ some src → Linked k.by_addr (fid, src))
  session_lem k r =
      let (states, links, distinct) = Reachable-IsSound k r in
      (
        λ src st e. All-get (λ x. IsState x.1) src k.by_addr st states e,
        λ fid src e. All-get (Linked k.by_addr) fid k.flows src links e,
      )
