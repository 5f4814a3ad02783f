-- ===== src/Client/Loops.antt =====
-- `poll_responses` and `route_tunnel_datagrams` of src/client.rs: their fuel.
use zeromasque.Prelude.{
  ℕ, zero, suc, ◌/◌, ◌≤◌, ◌<◌, ◌≡◌, refl, List, [], ◌∷◌, Option, none, some, arith, Option-cases,
  inl, inr, nat_eq, Bool-cases, ◌&&◌, leb, ltb,
}
use zeromasque.Net.{SocketAddr, addr_eq}
use zeromasque.Map.{Map, get, remove}
use zeromasque.Transport.{
  Polled-cases, Event, headers, body, finished, reset, other, event, no_more, Transport, Drains,
}
use zeromasque.Dgram.{decode}
use zeromasque.Client.{
  FlowState, Tunnel, send_datagram, send_all, establish_at, establish_for, accept_flow, forget,
  drop_flow, on_status, on_event, status_of, poll_responses, route_tunnel_datagrams, route_parsed,
}
use zeromasque.Client.Flows.{IsSoundTunnel, on_event-IsSound}

module _ {C H : Type 0} (t : Transport C H) (d : Drains t) where
  send_all-events :
      (fid : ℕ) (ps : List (List ℕ)) (h : H) (c : C)
      → d.events h (send_all t fid ps c) ≤ d.events h c
  unfolding send_all send_datagram
  send_all-events fid [] h c = omega arith
  send_all-events fid (p ∷ ps) h c = omega (
    arith,
    send_all-events fid ps h (send_datagram t fid p c),
    d.dgram_send_keeps (zeromasque.Dgram.encode fid p) h c,
  )

  abbrev events_of : Tunnel C H → ℕ
  events_of k = d.events k.http3 k.conn

  establish_at-events :
      (fid : ℕ) (src : SocketAddr) (k : Tunnel C H) (o : Option FlowState)
      → events_of (establish_at t fid src k o) ≤ events_of k
  establish_at-events fid src k none = omega arith
  establish_at-events fid src k (some st) = send_all-events fid st.pending k.http3 k.conn

  establish_for-events :
      (fid : ℕ) (k : Tunnel C H) (o : Option SocketAddr)
      → events_of (establish_for t fid k o) ≤ events_of k
  establish_for-events fid k none = omega arith
  establish_for-events fid k (some src) = establish_at-events fid src k (get src k.by_addr)

  forget-events : (k : Tunnel C H) (o : Option SocketAddr) → events_of (forget t k o) ≤ events_of k
  forget-events k none = omega arith
  forget-events k (some src) = omega arith

  drop-events : (fid : ℕ) (k : Tunnel C H) → events_of (drop_flow t fid k) ≤ events_of k
  unfolding drop_flow
  drop-events fid k = forget-events (record k { flows = remove fid k.flows }) (get fid k.flows)

  on_status-events :
      (fid : ℕ) (k : Tunnel C H) (o : Option ℕ) → events_of (on_status t fid k o) ≤ events_of k
  unfolding accept_flow
  on_status-events fid k none = omega arith
  on_status-events fid k (some s) = elim (Bool-cases (leb 200 s && ltb s 300)) [
    | inl e ↦ rw e (establish_for-events fid k (get fid k.flows))
    | inr e ↦ rw e (drop-events fid k)
  ]

  on_event-events :
      (stream_id : ℕ) (e : Event) (k : Tunnel C H)
      → events_of (on_event t stream_id e k) ≤ events_of k
  unfolding on_event
  on_event-events stream_id (headers list) k = on_status-events (stream_id / 4) k (status_of list)
  on_event-events stream_id finished k = drop-events (stream_id / 4) k
  on_event-events stream_id reset k = drop-events (stream_id / 4) k
  on_event-events stream_id body k = omega arith
  on_event-events stream_id other k = omega arith

  abbrev after_poll : Tunnel C H → Tunnel C H
  after_poll k = record k { http3 = (t.poll k.http3 k.conn).1; conn = (t.poll k.http3 k.conn).2 }

  -- With more fuel than events, the responses are worked off.
  abbrev pub PollEnds : ℕ → Tunnel C H → Type 0
  PollEnds n k =
      (k' : Tunnel C H) × ((fuel : ℕ) → n < fuel → poll_responses t fuel k ≡ some k')
      × IsSoundTunnel t k'

  poll_none :
      (n : ℕ) (k : Tunnel C H)
      → IsSoundTunnel t k
      → (t.poll k.http3 k.conn).0 ≡ no_more
      → PollEnds n k
  unfolding poll_responses
  poll_none n k h e = (after_poll k, go, h)
    where
      go : (fuel : ℕ) → n < fuel → poll_responses t fuel k ≡ some (after_poll k)
      go zero lt = absurd (omega arith)
      go (suc fuel) lt = rw (poll_responses, e) refl

  poll_event :
      (n s : ℕ) (ev : Event) (k : Tunnel C H)
      → (t.poll k.http3 k.conn).0 ≡ event s ev
      → PollEnds n (on_event t s ev (after_poll k))
      → PollEnds (suc n) k
  unfolding poll_responses
  poll_event n s ev k e (k', rest, h) = (k', go, h)
    where
      go : (fuel : ℕ) → suc n < fuel → poll_responses t fuel k ≡ some k'
      go zero lt = absurd (omega arith)
      go (suc fuel) lt = rw (poll_responses, e) (rest fuel (omega arith))

  pub poll_responses-Ends :
      (n : ℕ) (k : Tunnel C H) → IsSoundTunnel t k → events_of k ≤ n → PollEnds n k
  poll_responses-Ends zero k h le = elim (Polled-cases (t.poll k.http3 k.conn).0) [
    | inl e ↦ poll_none zero k h e
    | inr (s, ev, e) ↦ absurd (omega (arith, d.poll_takes k.http3 k.conn s ev e))
  ]
  poll_responses-Ends (suc n) k h le = elim (Polled-cases (t.poll k.http3 k.conn).0) [
    | inl e ↦ poll_none (suc n) k h e
    | inr (s, ev, e) ↦ poll_event n s ev k e (
        poll_responses-Ends n (on_event t s ev (after_poll k))
          (on_event-IsSound t s ev (after_poll k) h)
          (omega (arith, d.poll_takes k.http3 k.conn s ev e, on_event-events s ev (after_poll k))))
  ]

  module _ {W : Type 0} (send_udp : List ℕ → SocketAddr → W → W) where
    abbrev pub RouteEnds : ℕ → C → Map ℕ SocketAddr → W → Type 0
    RouteEnds n c flows w =
        (r : C × W) × ((fuel : ℕ)
          → n < fuel
          → route_tunnel_datagrams t send_udp fuel c flows w ≡ some r)

    abbrev routed_on : List ℕ → Map ℕ SocketAddr → W → W
    routed_on buf flows w = route_parsed t send_udp (decode buf) flows w

    route_none :
        (n : ℕ) (c : C) (flows : Map ℕ SocketAddr) (w : W)
        → (t.dgram_recv c).0 ≡ none
        → RouteEnds n c flows w
    unfolding route_tunnel_datagrams
    route_none n c flows w e = (((t.dgram_recv c).1, w), go)
      where
        go :
            (fuel : ℕ)
            → n < fuel
            → route_tunnel_datagrams t send_udp fuel c flows w ≡ some ((t.dgram_recv c).1, w)
        go zero lt = absurd (omega arith)
        go (suc fuel) lt = rw (route_tunnel_datagrams, e) refl

    route_some :
        (n : ℕ) (c : C) (flows : Map ℕ SocketAddr) (w : W) (buf : List ℕ)
        → (t.dgram_recv c).0 ≡ some buf
        → RouteEnds n (t.dgram_recv c).1 flows (routed_on buf flows w)
        → RouteEnds (suc n) c flows w
    unfolding route_tunnel_datagrams
    route_some n c flows w buf e (r, rest) = (r, go)
      where
        go : (fuel : ℕ) → suc n < fuel → route_tunnel_datagrams t send_udp fuel c flows w ≡ some r
        go zero lt = absurd (omega arith)
        go (suc fuel) lt = rw (route_tunnel_datagrams, e) (rest fuel (omega arith))

    pub route-Ends :
        (n : ℕ) (c : C) (flows : Map ℕ SocketAddr) (w : W)
        → d.datagrams c ≤ n
        → RouteEnds n c flows w
    route-Ends zero c flows w le = elim (Option-cases (t.dgram_recv c).0) [
      | inl e ↦ route_none zero c flows w e
      | inr (buf, e) ↦ absurd (omega (arith, d.dgram_recv_takes c buf e))
    ]
    route-Ends (suc n) c flows w le = elim (Option-cases (t.dgram_recv c).0) [
      | inl e ↦ route_none (suc n) c flows w e
      | inr (buf, e) ↦ route_some n c flows w buf e (
          route-Ends n (t.dgram_recv c).1 flows (routed_on buf flows w)
            (omega (arith, d.dgram_recv_takes c buf e)))
    ]
