-- ===== src/Client/Total.antt =====
-- `run_session` of src/client.rs: its fuel, and the local sources and flows from round to round.
use zeromasque.Prelude.{
  ℕ, suc, ◌+◌, ◌≤◌, ◌≡◌, refl, List, [], ◌∷◌, Option, none, some, Bool, arith, inl, inr, true,
  false, Bool-cases, not, ◌&&◌, ◌||◌,
}
use zeromasque.Prelude.Maybe.{◌>>=◌}
use zeromasque.Text.{Text}
use zeromasque.Net.{SocketAddr}
use zeromasque.Map.{is_some}
use zeromasque.Transport.{Transport, Drains}
use zeromasque.Client.{open_pending_flows, poll_responses, route_tunnel_datagrams, on_local}
use zeromasque.Client.Sources.{IsSound, on_local-IsSound}
use zeromasque.Client.Opening.{open_pending_flows-IsSound}
use zeromasque.Client.Loops.{poll_responses-Ends, route-Ends}
use zeromasque.Client.Turn.{
  Session, Wake, Turn, ended, goes_on, on_locals, made, with_http3, with_tunnel, tunnel, routed,
  serve, after_flush, flushed, ready, turn, go_on, rounds, first_flush, run_session, begin, timers,
  recv_all,
}

-- From some amount of fuel on, the answer is `a`.
abbrev pub EndsAt : {A : Type 0} → (ℕ → Option A) → A → Type 0
EndsAt f a = (enough : ℕ) × ((fuel : ℕ) → enough ≤ fuel → f fuel ≡ some a)

pub EndsAt-then :
    {A B : Type 0} (f : ℕ → Option A) (a : A) (g : ℕ → A → Option B) (b : B)
    → EndsAt f a
    → EndsAt (λ fuel. g fuel a) b
    → EndsAt (λ fuel. f fuel >>= g fuel) b
EndsAt-then f a g b (n, e) (m, h) =
    (n + m, λ fuel le. rw (e fuel (omega arith)) (h fuel (omega arith)))

abbrev pub IsSoundSession : {C H : Type 0} → Session C H → Type 0
IsSoundSession s = IsSound s.by_addr s.flows

-- What is left of the session after a round is sound.
abbrev pub StaysSound : {C H : Type 0} → Turn C H → Type 0
StaysSound (ended b) = Unit
StaysSound (goes_on s) = IsSoundSession s

abbrev pub StartsSound : {C H : Type 0} → Option (Session C H) → Type 0
StartsSound none = Unit
StartsSound (some s) = IsSoundSession s

module _ {C H W : Type 0} (t : Transport C H) (d : Drains t) (local_addr : SocketAddr)
    (authority path : Text) (send_udp : List ℕ → SocketAddr → W → W)
    (flush : C → W → Bool × C × W) where
  on_locals-IsSound :
      (ps : List (List ℕ × SocketAddr)) (s : Session C H)
      → IsSoundSession s
      → IsSoundSession (on_locals t local_addr authority path send_udp flush ps s)
  unfolding on_locals
  on_locals-IsSound [] s h = h
  on_locals-IsSound ((p, src) ∷ ps) s h =
      on_locals-IsSound ps
        (record s {
          conn = (on_local t p src s.conn s.by_addr).0;
          by_addr = (on_local t p src s.conn s.by_addr).1;
        })
        (on_local-IsSound t p src s.conn s.by_addr s.flows h)

  abbrev Served : Session C H → W → Option H → Type 0
  Served s w o =
      (r : Session C H × W) × EndsAt
        (λ fuel. serve t local_addr authority path send_udp flush fuel s w o) r
      × IsSoundSession r.0

  serve_lem : (s : Session C H) (w : W) (o : Option H) → IsSoundSession s → Served s w o
  serve_lem s w none h = ((s, w), (0, λ fuel le. refl), h)
  serve_lem s w (some x) h =
      let start = tunnel t local_addr authority path send_udp flush s x in
      let opened = open_pending_flows t authority path start in
      let (k, same, sound) =
        poll_responses-Ends t d (d.events opened.http3 opened.conn) opened
          (open_pending_flows-IsSound t authority path start h) (omega arith) in
      let (r, same') =
        route-Ends t d send_udp (d.datagrams k.conn) k.conn k.flows w (omega arith) in
      (
        (with_tunnel t local_addr authority path send_udp flush s k r.0, r.1),
        EndsAt-then (λ fuel. poll_responses t fuel opened) k
            (λ fuel k'. routed t local_addr authority path send_udp flush fuel s w k') _
            (suc (d.events opened.http3 opened.conn), λ fuel le. same fuel (omega arith))
            (EndsAt-then (λ fuel. route_tunnel_datagrams t send_udp fuel k.conn k.flows w) r
              (λ fuel r. some (with_tunnel t local_addr authority path send_udp flush s k r.0, r.1))
              _ (suc (d.datagrams k.conn), λ fuel le. same' fuel (omega arith))
              (0, λ fuel le. refl)),
        sound,
      )

  flush-StaysSound :
      (s : Session C H) (r : Bool × C × W)
      → IsSoundSession s
      → StaysSound (after_flush t local_addr authority path send_udp flush s r).0
  flush-StaysSound s (true, c, w) h = h
  flush-StaysSound s (false, c, w) h = tt

  abbrev pub SoundEnds : (ℕ → Option (Turn C H × W)) → Type 0
  SoundEnds f = (r : Turn C H × W) × EndsAt f r × StaysSound r.0

  made-IsSound :
      (s : Session C H) (r : Option H × C)
      → IsSoundSession s
      → StartsSound (made t local_addr authority path send_udp flush s r)
  made-IsSound s (none, c) h = tt
  made-IsSound s (some x, c) h = h

  with_http3-IsSound :
      (s : Session C H)
      → IsSoundSession s
      → StartsSound (with_http3 t local_addr authority path send_udp flush s)
  with_http3-IsSound s h =
      elim (Bool-cases
        ((t.is_established s.conn || t.is_in_early_data s.conn) && not (is_some s.http3))) [
          | inl e ↦ rw e (made-IsSound s (t.with_transport s.conn) h)
          | inr e ↦ rw e h
        ]

  ready_lem :
      (wake : Wake) (w : W) (b : Bool) (o : Option (Session C H))
      → StartsSound o
      → SoundEnds (λ fuel. ready t local_addr authority path send_udp flush fuel wake w b o)
  ready_lem wake w b none h = ((ended b, w), (0, λ fuel le. refl), tt)
  ready_lem wake w b (some s) h =
      let s' = on_locals t local_addr authority path send_udp flush wake.local_pkts s in
      let (r, ends, sound) = serve_lem s' w s'.http3 (on_locals-IsSound wake.local_pkts s h) in
      (
        flushed t local_addr authority path send_udp flush r,
        EndsAt-then (λ fuel. serve t local_addr authority path send_udp flush fuel s' w s'.http3) r
            (λ fuel r. some (flushed t local_addr authority path send_udp flush r)) _ ends
            (0, λ fuel le. refl),
        flush-StaysSound r.0 (flush r.0.conn r.1) sound,
      )

  -- For a transport that has finitely many events and datagrams to give, a round of a session ends,
  -- with the same result for every fuel that is enough, and where the session goes on, its local
  -- sources and its flows are as sound as they were before the round: each source is there once,
  -- holds at most the 32 datagrams that may wait, none once its flow is established, and every flow
  -- leads to a source that has the id of the flow.
  pub turn_lem :
      (wake : Wake) (s : Session C H) (w : W)
      → IsSoundSession s
      → SoundEnds (λ fuel. turn t local_addr authority path send_udp flush fuel wake s w)
  unfolding turn
  turn_lem wake s w h =
      let c =
        timers t local_addr authority path send_udp flush wake
          (recv_all t local_addr authority path send_udp flush wake.proxy_pkts s.conn) in
      elim (Bool-cases (t.is_closed c)) [
        | inl e ↦ ((ended s.established, w), (0, λ fuel le. rw e refl), tt)
        | inr e ↦
            let o = with_http3 t local_addr authority path send_udp flush (record s { conn = c }) in
            let (r, (n, same), sound) =
              ready_lem wake w s.established o (with_http3-IsSound (record s { conn = c }) h) in
            (r, (n, λ fuel le. rw e (same fuel le)), sound)
      ]

  abbrev pub RoundsEnd : List Wake → Session C H → W → Type 0
  RoundsEnd wakes s w =
      (r : Bool × W) × EndsAt
        (λ fuel. rounds t local_addr authority path send_udp flush fuel wakes s w) r

  abbrev RestEnds : List Wake → Turn C H × W → Type 0
  RestEnds wakes r =
      (b : Bool × W) × EndsAt
        (λ fuel.
          go_on t local_addr authority path send_udp flush
            (rounds t local_addr authority path send_udp flush fuel wakes) r)
        b

  after_turn :
      (wakes : List Wake) (r : Turn C H × W)
      → ((s : Session C H) (w : W) → IsSoundSession s → RoundsEnd wakes s w)
      → StaysSound r.0
      → RestEnds wakes r
  after_turn wakes (ended b, w) rest h = ((b, w), (0, λ fuel le. refl))
  after_turn wakes (goes_on s, w) rest h = rest s w h

  rounds_end :
      (wakes : List Wake) (s : Session C H) (w : W) → IsSoundSession s → RoundsEnd wakes s w
  unfolding rounds
  rounds_end [] s w h = ((s.established, w), (0, λ fuel le. refl))
  rounds_end (wake ∷ wakes) s w h =
      let (r, ends, sound) = turn_lem wake s w h in
      let (b, rest) = after_turn wakes r (rounds_end wakes) sound in
      (
        b,
        EndsAt-then (λ fuel. turn t local_addr authority path send_udp flush fuel wake s w) r
            (λ fuel.
              go_on t local_addr authority path send_udp flush
                (rounds t local_addr authority path send_udp flush fuel wakes))
            b ends rest,
      )

  abbrev pub SessionEnds : List Wake → Option C → W → Type 0
  SessionEnds wakes o w =
      (r : Bool × W) × EndsAt
        (λ fuel. run_session t local_addr authority path send_udp flush fuel wakes o w) r

  first_flush_ends :
      (wakes : List Wake) (r : Bool × C × W)
      → (b : Bool × W) × EndsAt
          (λ fuel. first_flush t local_addr authority path send_udp flush fuel wakes r)
          b
  first_flush_ends wakes (true, c, w) = rounds_end wakes (begin c) w (tt, tt, tt)
  first_flush_ends wakes (false, c, w) = ((false, w), (0, λ fuel le. refl))

  -- For a transport that has finitely many events and datagrams to give, a session comes to an end
  -- for every sequence of wakeups that ends, whether `dial` gives a connection or not, with whether
  -- the tunnel was established, which is the same for every fuel that is enough.
  pub run_session-Ends : (wakes : List Wake) (o : Option C) (w : W) → SessionEnds wakes o w
  unfolding run_session
  run_session-Ends wakes none w = ((false, w), (0, λ fuel le. refl))
  run_session-Ends wakes (some c) w = first_flush_ends wakes (flush c w)
