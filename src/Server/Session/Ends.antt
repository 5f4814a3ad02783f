-- ===== src/Server/Session/Ends.antt =====
-- The handlers of a connection of src/server.rs: their fuel, and the events that they leave.
use zeromasque.Prelude.{
  ℕ, zero, suc, ◌+◌, ◌/◌, ◌≤◌, ◌≡◌, refl, Option, none, some, Bool, true, false, arith,
}
use zeromasque.Prelude.Result.{Result, ok, err, ◌>>=◌}
use zeromasque.Net.{SocketAddr}
use zeromasque.Transport.{Event, headers, body, finished, reset, other, Transport, Drains}
use zeromasque.Rules.{RuleTable, RuleMatch, match_target}
use zeromasque.Server.Request.{ConnectRequest, parse}
use zeromasque.Server.Bind.{BindError}
use zeromasque.Server.Session.{
  Scid, Stop, Work, System, accepted, started, respond_status, open_flow, unless_sent, with_socket,
  with_rule, with_request, handle_connect_request, drain_body, on_event,
}

-- From some amount of fuel on, the answer is `a`.
abbrev pub Ends : {A : Type 0} → (ℕ → Result Stop A) → A → Type 0
Ends f a = (enough : ℕ) × ((fuel : ℕ) → enough ≤ fuel → f fuel ≡ ok a)

abbrev pub EndsFor : {A : Type 0} → (ℕ → Result Stop A) → Type 0
EndsFor {A} f = (a : A) × Ends f a

pub Ends-then :
    {A B : Type 0} (f : ℕ → Result Stop A) (a : A) (g : ℕ → A → Result Stop B) (b : B)
    → Ends f a
    → Ends (λ fuel. g fuel a) b
    → Ends (λ fuel. f fuel >>= g fuel) b
Ends-then f a g b (n, e) (m, h) =
    (n + m, λ fuel le. rw (e fuel (omega arith)) (h fuel (omega arith)))

pub EndsFor-then :
    {A B : Type 0} (f : ℕ → Result Stop A) (a : A) (g : ℕ → A → Result Stop B)
    → Ends f a
    → EndsFor (λ fuel. g fuel a)
    → EndsFor (λ fuel. f fuel >>= g fuel)
EndsFor-then f a g e (b, h) = (b, Ends-then f a g b e h)

pub Ends-ok : {A : Type 0} (a : A) → Ends (λ fuel. ok a) a
Ends-ok a = (0, λ fuel le. refl)

-- One unit of fuel is spent by a round.
pub Ends-suc :
    {A : Type 0} (f : ℕ → Result Stop A) (a : A) → Ends (λ fuel. f (suc fuel)) a → Ends f a
Ends-suc f a (n, e) = (suc n, go)
  where
    go : (fuel : ℕ) → suc n ≤ fuel → f fuel ≡ ok a
    go zero le = absurd (omega arith)
    go (suc fuel) le = e fuel (omega arith)

module _ {C H W S : Type 0} (t : Transport C H) (sys : System W S) (d : Drains t) where
  abbrev pub events_of : Work C H W → ℕ
  events_of k = d.events k.http3 k.conn

  -- A request leaves no more events than there were.
  respond-events :
      (stream_id status : ℕ) (k : Work C H W)
      → events_of (respond_status t sys stream_id status k) ≤ events_of k
  unfolding respond_status
  respond-events stream_id status k = d.send_response_keeps stream_id _ true k.http3 k.conn

  unless_sent-events :
      (flow_id n : ℕ) (k : Work C H W) (r : Bool × H × C)
      → d.events r.1 r.2 ≤ n
      → events_of (unless_sent t sys flow_id k r) ≤ n
  unless_sent-events flow_id n k (true, h, c) e = e
  unless_sent-events flow_id n k (false, h, c) e = e

  with_socket-events :
      (stream_id : ℕ) (conn_id : Scid) (rule : RuleMatch) (k : Work C H W)
      (r : Result BindError S × W)
      → events_of (with_socket t sys stream_id conn_id rule k r) ≤ events_of k
  unfolding open_flow
  with_socket-events stream_id conn_id rule k (ok s, w) =
      unless_sent-events (stream_id / 4) _
        (started t sys (stream_id / 4) conn_id rule s (record k { os = w })) _
        (d.send_response_keeps stream_id accepted false k.http3 k.conn)
  with_socket-events stream_id conn_id rule k (err e, w) =
      respond-events stream_id 502 (record k { os = w })

  with_rule-events :
      (stream_id : ℕ) (client_addr : SocketAddr) (conn_id : Scid) (k : Work C H W)
      (r : Option RuleMatch)
      → events_of (with_rule t sys stream_id client_addr conn_id k r) ≤ events_of k
  with_rule-events stream_id client_addr conn_id k none = respond-events stream_id 404 k
  with_rule-events stream_id client_addr conn_id k (some rule) =
      with_socket-events stream_id conn_id rule k _

  with_request-events :
      (rules : RuleTable) (stream_id : ℕ) (client_addr : SocketAddr) (conn_id : Scid)
      (k : Work C H W) (r : Result ℕ ConnectRequest)
      → events_of (with_request t sys rules stream_id client_addr conn_id k r) ≤ events_of k
  with_request-events rules stream_id client_addr conn_id k (ok req) =
      with_rule-events stream_id client_addr conn_id k (match_target rules req.authority req.path)
  with_request-events rules stream_id client_addr conn_id k (err status) =
      respond-events stream_id status k

  abbrev BodyEnds : ℕ → Work C H W → Type 0
  BodyEnds stream_id k =
      (k' : Work C H W) × Ends (λ fuel. drain_body t sys fuel stream_id k) k'
      × (events_of k' ≤ events_of k)

  abbrev after_body : ℕ → Work C H W → Work C H W
  after_body stream_id k = record k {
    http3 = (t.recv_body stream_id k.http3 k.conn).1;
    conn = (t.recv_body stream_id k.http3 k.conn).2;
  }

  body_step :
      (stream_id : ℕ) (k : Work C H W) (o : Option ℕ)
      → (t.recv_body stream_id k.http3 k.conn).0 ≡ o
      → ((m : ℕ) → o ≡ some (suc m) → BodyEnds stream_id (after_body stream_id k))
      → BodyEnds stream_id k
  unfolding drain_body
  body_step stream_id k none e more = (
    after_body stream_id k,
    Ends-suc _ _ (0, λ fuel le. rw (drain_body, e) refl),
    d.recv_body_keeps stream_id k.http3 k.conn,
  )
  body_step stream_id k (some zero) e more = (
    after_body stream_id k,
    Ends-suc _ _ (0, λ fuel le. rw (drain_body, e) refl),
    d.recv_body_keeps stream_id k.http3 k.conn,
  )
  body_step stream_id k (some (suc m)) e more =
      let (k', (enough, same), kept) = more m refl in
      (
        k',
        Ends-suc _ _ (enough, λ fuel le. rw (drain_body, e) (same fuel le)),
        omega (arith, d.recv_body_keeps stream_id k.http3 k.conn),
      )

  -- A body is read to its end, and no event comes of it.
  pub drain_body-Ends :
      (stream_id n : ℕ) (k : Work C H W) → d.body_bytes k.http3 k.conn ≤ n → BodyEnds stream_id k
  drain_body-Ends stream_id zero k le = body_step stream_id k _ refl (λ m e.
      absurd (omega (arith, d.recv_body_takes stream_id k.http3 k.conn (suc m) e (omega arith))))
  drain_body-Ends stream_id (suc n) k le = body_step stream_id k _ refl (λ m e.
      drain_body-Ends stream_id n (after_body stream_id k)
        (omega (arith, d.recv_body_takes stream_id k.http3 k.conn (suc m) e (omega arith))))

  module _ (rules : RuleTable) (client_addr : SocketAddr) (conn_id : Scid) where
    pub on_event-Ends :
        (stream_id : ℕ) (e : Event) (k : Work C H W)
        → (k' : Work C H W) × Ends
            (λ fuel. on_event t sys rules client_addr conn_id fuel stream_id e k)
            k'
          × (events_of k' ≤ events_of k)
    unfolding on_event handle_connect_request
    on_event-Ends stream_id (headers list) k =
        (_, Ends-ok _, with_request-events rules stream_id client_addr conn_id k (parse list))
    on_event-Ends stream_id body k =
        drain_body-Ends stream_id (d.body_bytes k.http3 k.conn) k (omega arith)
    on_event-Ends stream_id finished k = (_, Ends-ok _, omega arith)
    on_event-Ends stream_id reset k = (_, Ends-ok _, omega arith)
    on_event-Ends stream_id other k = (_, Ends-ok _, omega arith)
