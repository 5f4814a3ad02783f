-- ===== src/Server/Session/Requests.antt =====
-- `handle_connect_request` of src/server.rs: which requests open a flow, and which flows they leave alone.
use zeromasque.Prelude.{
  ℕ, ◌/◌, ◌≡◌, ◌≢◌, ◌⊎◌, ◌∙◌, refl, ap, List, Option, none, some, Bool, true, false, inl, inr,
  nat_eq,
}
use zeromasque.Prelude.Result.{Result, ok, err}
use zeromasque.Net.{SocketAddr}
use zeromasque.Map.{Map, get, insert}
use zeromasque.Map.Laws.{get-insert_same, get-insert_ne, get-remove_same, get-remove_ne}
use zeromasque.Transport.{Header, Transport}
use zeromasque.Rules.{RuleTable, RuleMatch, match_target}
use zeromasque.Server.Request.{ConnectRequest, parse}
use zeromasque.Server.Bind.{BindError, bind_target}
use zeromasque.Server.Session.{
  Scid, Flow, Work, System, accepted, new_flow, spawned, started, unless_sent, open_flow,
  respond_status, with_socket, with_rule, with_request, handle_connect_request,
}

module _ {C H W S : Type 0} (t : Transport C H) (sys : System W S) where
  -- What happens to the flows: no flow but `f` is touched, and at `f` there is afterwards a flow that is
  -- opened, or none where one was opened and is not kept, or what was there before.
  abbrev pub Effect : ℕ → (Flow → Type 0) → Type 0 → Type 0 → Map ℕ Flow → Map ℕ Flow → Type 0
  Effect f Opens Unsent Refused flows flows' =
      ((q : ℕ) → q ≢ f → get q flows' ≡ get q flows)
      × (((x : Flow) × Opens x × (get f flows' ≡ some x))
          ⊎ (Unsent × (get f flows' ≡ none))
          ⊎ (Refused × (get f flows' ≡ get f flows)))

  Effect-refused :
      (f : ℕ) (Opens : Flow → Type 0) (Unsent Refused : Type 0) (flows : Map ℕ Flow)
      → Refused
      → Effect f Opens Unsent Refused flows flows
  Effect-refused f Opens Unsent Refused flows h = (λ q ne. refl, inr (inr (h, refl)))

  -- The same effect, by other names of its causes.
  Effect-map :
      (f : ℕ) (P Q : Flow → Type 0) (U V R T : Type 0) (flows flows' : Map ℕ Flow)
      → ((x : Flow) → P x → Q x)
      → (U → V)
      → (R → T)
      → Effect f P U R flows flows'
      → Effect f Q V T flows flows'
  Effect-map f P Q U V R T flows flows' p u r (others, inl (x, h, e)) = (others, inl (x, p x h, e))
  Effect-map f P Q U V R T flows flows' p u r (others, inr (inl (h, e))) =
      (others, inr (inl (u h, e)))
  Effect-map f P Q U V R T flows flows' p u r (others, inr (inr (h, e))) =
      (others, inr (inr (r h, e)))

  Effect-unless_sent :
      (f : ℕ) (flow : Flow) (R : Type 0) (k k1 : Work C H W) (r : Bool × H × C)
      → k1.flows ≡ insert f flow k.flows
      → Effect f
          (λ x. (x ≡ flow) × (r.0 ≡ true))
          (r.0 ≡ false)
          R
          k.flows
          (unless_sent t sys f k1 r).flows
  Effect-unless_sent f flow R k k1 (true, h, c) e = (
    λ q ne. ap (get q) e ∙ get-insert_ne f q flow k.flows ne,
    inl (flow, (refl, refl), ap (get f) e ∙ get-insert_same f flow k.flows),
  )
  Effect-unless_sent f flow R k k1 (false, h, c) e = (
    λ q ne. get-remove_ne f q k1.flows ne ∙ ap (get q) e ∙ get-insert_ne f q flow k.flows ne,
    inr (inl (refl, get-remove_same f k1.flows)),
  )

  module _ (rules : RuleTable) (stream_id : ℕ) (client_addr : SocketAddr) (conn_id : Scid)
      (k : Work C H W) where
    abbrev bound : RuleMatch → Result BindError S × W
    bound rule =
        bind_target sys.linux sys.sockets rule.target client_addr rule.transparent rule.fwmark k.os

    abbrev is_sent : Bool
    is_sent = (t.send_response stream_id accepted false k.http3 k.conn).0

    abbrev SocketOpens : RuleMatch → Result BindError S × W → Flow → Type 0
    SocketOpens rule b x =
        (sock : S) × (w : W) × (b ≡ (ok sock, w))
        × (x ≡ new_flow t sys rule (spawned t sys (stream_id / 4) conn_id sock w))
        × (is_sent ≡ true)

    abbrev SocketUnsent : Result BindError S × W → Type 0
    SocketUnsent b = (sock : S) × (w : W) × (b ≡ (ok sock, w)) × (is_sent ≡ false)

    abbrev SocketRefused : Result BindError S × W → Type 0
    SocketRefused b = (e : BindError) × (w : W) × (b ≡ (err e, w))

    abbrev RuleOpens : Option RuleMatch → Flow → Type 0
    RuleOpens o x = (rule : RuleMatch) × (o ≡ some rule) × SocketOpens rule (bound rule) x

    abbrev RuleUnsent : Option RuleMatch → Type 0
    RuleUnsent o = (rule : RuleMatch) × (o ≡ some rule) × SocketUnsent (bound rule)

    abbrev RuleRefused : Option RuleMatch → Type 0
    RuleRefused o = (o ≡ none) ⊎ ((rule : RuleMatch) × (o ≡ some rule) × SocketRefused (bound rule))

    -- The request is one that the proxy serves: it parses, a rule of the table decides on it, the
    -- socket to that rule's target opens, and the response is sent. The flow has the rule's timeout.
    abbrev pub Opens : List Header → Flow → Type 0
    Opens list x =
        (req : ConnectRequest) × (parse list ≡ ok req)
        × RuleOpens (match_target rules req.authority req.path) x

    -- The same, but the response cannot be sent.
    abbrev pub Unsent : List Header → Type 0
    Unsent list =
        (req : ConnectRequest) × (parse list ≡ ok req)
        × RuleUnsent (match_target rules req.authority req.path)

    -- The request does not parse, no rule decides on it, or the socket does not open.
    abbrev pub Refused : List Header → Type 0
    Refused list =
        ((status : ℕ) × (parse list ≡ err status))
        ⊎ ((req : ConnectRequest) × (parse list ≡ ok req)
            × RuleRefused (match_target rules req.authority req.path))

    abbrev Here : (Flow → Type 0) → Type 0 → Type 0 → Work C H W → Type 0
    Here P U R k' = Effect (stream_id / 4) P U R k.flows k'.flows

    with_socket-Effect :
        (rule : RuleMatch) (b : Result BindError S × W)
        → Here
            (SocketOpens rule b)
            (SocketUnsent b)
            (SocketRefused b)
            (with_socket t sys stream_id conn_id rule k b)
    unfolding open_flow respond_status
    with_socket-Effect rule (ok s, w) =
        Effect-map (stream_id / 4) _ _ _ _ (SocketRefused (ok s, w)) _ k.flows _
          (λ x (same, sent). (s, w, refl, same, sent)) (λ sent. (s, w, refl, sent)) (λ r. r)
          (Effect-unless_sent (stream_id / 4)
            (new_flow t sys rule (spawned t sys (stream_id / 4) conn_id s w)) _ k
            (started t sys (stream_id / 4) conn_id rule s (record k { os = w }))
            (t.send_response stream_id accepted false k.http3 k.conn) refl)
    with_socket-Effect rule (err e, w) = Effect-refused (stream_id / 4) _ _ _ k.flows (e, w, refl)

    with_rule-Effect :
        (o : Option RuleMatch)
        → Here
            (RuleOpens o)
            (RuleUnsent o)
            (RuleRefused o)
            (with_rule t sys stream_id client_addr conn_id k o)
    unfolding respond_status
    with_rule-Effect none = Effect-refused (stream_id / 4) _ _ _ k.flows (inl refl)
    with_rule-Effect (some rule) =
        Effect-map (stream_id / 4) _ _ _ _ _ _ k.flows _ (λ x h. (rule, refl, h))
          (λ h. (rule, refl, h)) (λ h. inr (rule, refl, h)) (with_socket-Effect rule (bound rule))

    with_request-Effect :
        (list : List Header) (r : Result ℕ ConnectRequest)
        → parse list ≡ r
        → Here
            (Opens list)
            (Unsent list)
            (Refused list)
            (with_request t sys rules stream_id client_addr conn_id k r)
    unfolding respond_status
    with_request-Effect list (err status) e =
        Effect-refused (stream_id / 4) _ _ _ k.flows (inl (status, e))
    with_request-Effect list (ok req) e =
        Effect-map (stream_id / 4) _ _ _ _ _ _ k.flows _ (λ x h. (req, e, h)) (λ h. (req, e, h))
          (λ h. inr (req, e, h)) (with_rule-Effect (match_target rules req.authority req.path))

    -- A CONNECT request changes no flow but that of its own stream. Where it is one that the proxy serves,
    -- there is afterwards a new flow, with an empty channel and the timeout of the rule, whose socket is
    -- bound to the rule's target. Where all but the sending of the response succeeds, there is none. Where
    -- the request does not parse, no rule decides on it or the socket does not open, the flow is what it
    -- was before.
    pub handle_connect_request_lem :
        (list : List Header)
        → Effect
            (stream_id / 4)
            (Opens list)
            (Unsent list)
            (Refused list)
            k.flows
            (handle_connect_request t sys rules stream_id list client_addr conn_id k).flows
    unfolding handle_connect_request
    handle_connect_request_lem list = with_request-Effect list (parse list) refl
