-- ===== src/Server/Session/Total.antt =====
-- The loops of a connection of src/server.rs, and their fuel.
use zeromasque.Prelude.{
  ℕ, zero, suc, ◌+◌, ◌≤◌, ◌<◌, ◌≡◌, refl, Option, none, some, ◌||◌, arith, Bool-cases, Option-cases,
  inl, inr,
}
use zeromasque.Prelude.Result.{ok}
use zeromasque.Net.{SocketAddr}
use zeromasque.Map.{Map}
use zeromasque.Transport.{Event, event, no_more, Polled-cases, Transport, Drains}
use zeromasque.Rules.{RuleTable}
use zeromasque.Server.Session.{
  Scid, Flow, Client, Work, System, on_event, process_events, on_datagram, drain_client_datagrams,
  process_client, with_http3, serve, drained,
}
use zeromasque.Server.Session.Ends.{
  Ends, EndsFor, EndsFor-then, Ends-ok, Ends-suc, events_of, on_event-Ends,
}

module _ {C H W S : Type 0} (t : Transport C H) (sys : System W S) (d : Drains t) where
  module _ (rules : RuleTable) (client_addr : SocketAddr) (conn_id : Scid) where
    abbrev LoopEnds : ℕ → Work C H W → Type 0
    LoopEnds n k =
        (k' : Work C H W) × (enough : ℕ) × ((fuel rounds : ℕ)
          → enough ≤ fuel
          → n < rounds
          → process_events t sys rules client_addr conn_id fuel rounds k ≡ ok k')

    abbrev after_poll : Work C H W → Work C H W
    after_poll k = record k { http3 = (t.poll k.http3 k.conn).1; conn = (t.poll k.http3 k.conn).2 }

    polled_none : (n : ℕ) (k : Work C H W) → (t.poll k.http3 k.conn).0 ≡ no_more → LoopEnds n k
    unfolding process_events
    polled_none n k e = (after_poll k, 0, go)
      where
        go :
            (fuel rounds : ℕ)
            → 0 ≤ fuel
            → n < rounds
            → process_events t sys rules client_addr conn_id fuel rounds k ≡ ok (after_poll k)
        go fuel zero le lt = absurd (omega arith)
        go fuel (suc rounds) le lt = rw (process_events, e) refl

    polled_event :
        (n stream_id : ℕ) (ev : Event) (k k' : Work C H W)
        → (t.poll k.http3 k.conn).0 ≡ event stream_id ev
        → Ends
            (λ fuel. on_event t sys rules client_addr conn_id fuel stream_id ev (after_poll k))
            k'
        → LoopEnds n k'
        → LoopEnds (suc n) k
    unfolding process_events
    polled_event n stream_id ev k k' e (enough, one) (k'', more, rest) = (k'', enough + more, go)
      where
        go :
            (fuel rounds : ℕ)
            → enough + more ≤ fuel
            → suc n < rounds
            → process_events t sys rules client_addr conn_id fuel rounds k ≡ ok k''
        go fuel zero le lt = absurd (omega arith)
        go fuel (suc rounds) le lt =
            rw (process_events, e, one fuel (omega arith))
              (rest fuel rounds (omega arith) (omega arith))

    process_events-Ends : (n : ℕ) (k : Work C H W) → events_of t sys d k ≤ n → LoopEnds n k
    process_events-Ends zero k le = elim (Polled-cases (t.poll k.http3 k.conn).0) [
      | inl e ↦ polled_none zero k e
      | inr (s, ev, e) ↦ absurd (omega (arith, d.poll_takes k.http3 k.conn s ev e))
    ]
    process_events-Ends (suc n) k le = elim (Polled-cases (t.poll k.http3 k.conn).0) [
      | inl e ↦ polled_none (suc n) k e
      | inr (s, ev, e) ↦
          let (k', one, kept) =
            on_event-Ends t sys d rules client_addr conn_id s ev (after_poll k) in
          polled_event n s ev k k' e one
            (process_events-Ends n k' (omega (arith, d.poll_takes k.http3 k.conn s ev e)))
    ]

  drain_client_datagrams-Ends :
      (now n : ℕ) (c : C) (flows : Map ℕ Flow)
      → d.datagrams c ≤ n
      → EndsFor (λ fuel. drain_client_datagrams t sys fuel now c flows)
  unfolding drain_client_datagrams
  drain_client_datagrams-Ends now zero c flows le = elim (Option-cases (t.dgram_recv c).0) [
    | inl e ↦ (
      ((t.dgram_recv c).1, flows),
      Ends-suc _ _ (0, λ fuel le'. rw (drain_client_datagrams, e) refl),
    )
    | inr (buf, e) ↦ absurd (omega (arith, d.dgram_recv_takes c buf e))
  ]
  drain_client_datagrams-Ends now (suc n) c flows le = elim (Option-cases (t.dgram_recv c).0) [
    | inl e ↦ (
      ((t.dgram_recv c).1, flows),
      Ends-suc _ _ (0, λ fuel le'. rw (drain_client_datagrams, e) refl),
    )
    | inr (buf, e) ↦
        let (r, (enough, same)) =
          drain_client_datagrams-Ends now n (t.dgram_recv c).1 (on_datagram t sys buf now flows)
            (omega (arith, d.dgram_recv_takes c buf e)) in
        (r, Ends-suc _ _ (enough, λ fuel le'. rw (drain_client_datagrams, e) (same fuel le')))
  ]

  serve-Ends :
      (rules : RuleTable) (conn_id : Scid) (client : Client C H) (w : W) (h : H) (c : C)
      → EndsFor (λ fuel. serve t sys rules conn_id fuel client w h c)
  serve-Ends rules conn_id client w h c =
      let start : Work C H W = record { conn = c; http3 = h; flows = client.flows; os = w } in
      let (k, enough, same) =
        process_events-Ends rules client.peer conn_id (events_of t sys d start) start
          (omega arith) in
      let ((c', flows), drains) =
        drain_client_datagrams-Ends (sys.now k.os) (d.datagrams k.conn) k.conn k.flows
          (omega arith) in
      EndsFor-then (λ fuel. process_events t sys rules client.peer conn_id fuel fuel start) k
        (λ fuel k'. drained t sys fuel client k')
        (
          enough + suc (events_of t sys d start),
          λ fuel le. same fuel fuel (omega arith) (omega arith),
        )
        (EndsFor-then (λ fuel. drain_client_datagrams t sys fuel (sys.now k.os) k.conn k.flows)
          (c', flows)
          (λ fuel r. ok (record client { conn = r.0; http3 = some k.http3; flows = r.1 }, k.os))
          drains (_, Ends-ok _))

  with_http3-Ends :
      (rules : RuleTable) (conn_id : Scid) (client : Client C H) (w : W) (o : Option H)
      → EndsFor (λ fuel. with_http3 t sys rules conn_id fuel client w o)
  with_http3-Ends rules conn_id client w (some h) = serve-Ends rules conn_id client w h client.conn
  with_http3-Ends rules conn_id client w none =
      elim (Option-cases (t.with_transport client.conn).0) [
        | inl e ↦ (
          (record client { conn = (t.with_transport client.conn).1 }, w),
          (0, λ fuel le. rw (with_http3, e) refl),
        )
        | inr (h, e) ↦
            let (r, (enough, same)) =
              serve-Ends rules conn_id client w h (t.with_transport client.conn).1 in
            (r, (enough, λ fuel le. rw (with_http3, e) (same fuel le)))
      ]

  -- Between two packets a connection is worked off: for a transport that has finitely many events,
  -- bytes and datagrams to give, the handlers end, and what they answer is the same for every
  -- fuel that is enough.
  pub process_client-Ends :
      (rules : RuleTable) (conn_id : Scid) (client : Client C H) (w : W)
      → EndsFor (λ fuel. process_client t sys rules conn_id fuel client w)
  unfolding process_client
  process_client-Ends rules conn_id client w =
      elim (Bool-cases (t.is_established client.conn || t.is_in_early_data client.conn)) [
        | inl e ↦
            let (r, (enough, same)) = with_http3-Ends rules conn_id client w client.http3 in
            (r, (enough, λ fuel le. rw e (same fuel le)))
        | inr e ↦ ((client, w), (0, λ fuel le. rw e refl))
      ]
