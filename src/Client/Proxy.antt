-- ===== src/Client/Proxy.antt =====
-- `run_proxy` of src/client.rs: one session after another, for as long as the program runs.
use zeromasque.Prelude.{
  ℕ, ◌≡◌, refl, List, [], ◌∷◌, Option, none, some, Bool, false, subst, if◌then◌else◌,
}
use zeromasque.Prelude.Maybe.{◌>>=◌}
use zeromasque.Prelude.Result.{Result, ok, err}
use zeromasque.Text.{Text}
use zeromasque.Net.{SocketAddr}
use zeromasque.Transport.{Transport, Drains}
use zeromasque.Quic.{Config, Call}
use zeromasque.Startup.{ConnectParams}
use zeromasque.Client.{next_backoff, waits, reconnect_min}
use zeromasque.Client.Reconnect.{doubled_waits, waits-doubled_waits}
use zeromasque.Client.Dial.{DialError, Dialed, Dialer, dial}
use zeromasque.Client.Turn.{Wake, run_session}
use zeromasque.Client.Total.{EndsAt, EndsAt-then, run_session-Ends}

-- `h3_config` is whether `build_h3_config` succeeds.
module _ {C H W : Type 0} (t : Transport C H) (succeeds : Config → Call → Bool)
    (exists : Text → Bool) (os : Dialer W C) (send_udp : List ℕ → SocketAddr → W → W)
    (flush : C → W → Bool × C × W) (h3_config : W → Bool) where
  abbrev pub session : ℕ → List Wake → Result DialError (Dialed C) × W → Option (Bool × W)
  session fuel wakes (err e, w) = some (false, w)
  session fuel wakes (ok d, w) =
      run_session t d.local_addr d.authority d.path send_udp flush fuel wakes
        (if h3_config w then some d.conn else none) w

  -- The loop, over what the sessions wake up for, with the waits behind the sessions. The wait is
  -- the only thing that happens between two sessions.
  unfoldable pub sessions_from : ℕ → ConnectParams → ℕ → List (List Wake) → W → Option (List ℕ × W)
  sessions_from fuel p backoff [] w = some ([], w)
  sessions_from fuel p backoff (wakes ∷ more) w =
      session fuel wakes (dial succeeds exists os p w) >>= (λ r.
        let next = next_backoff r.0 backoff in
        sessions_from fuel p next.1 more r.1 >>= (λ s. some (next.0 ∷ s.0, s.1)))

  unfoldable pub run_proxy : ℕ → ConnectParams → List (List Wake) → W → Option (List ℕ × W)
  unfolding sessions_from
  run_proxy fuel p = sessions_from fuel p reconnect_min

  -- What the sessions return, whether the tunnel was established: each begins with a dial in the state
  -- that the one before has left.
  abbrev pub Results : ConnectParams → List (List Wake) → W → List Bool → W → Type 0
  Results p [] w bs v = (bs ≡ []) × (v ≡ w)
  Results p (wakes ∷ more) w bs v =
      (b : Bool × W) × (rest : List Bool) × EndsAt
        (λ fuel. session fuel wakes (dial succeeds exists os p w)) b
      × (bs ≡ b.0 ∷ rest)
      × Results p more b.1 rest v

  module _ (d : Drains t) where
    session_ends :
        (wakes : List Wake) (r : Result DialError (Dialed C) × W)
        → (b : Bool × W) × EndsAt (λ fuel. session fuel wakes r) b
    session_ends wakes (err e, w) = ((false, w), (0, λ fuel le. refl))
    session_ends wakes (ok c, w) =
        run_session-Ends t d c.local_addr c.authority c.path send_udp flush wakes
          (if h3_config w then some c.conn else none) w

    sessions_from-waits :
        (p : ConnectParams) (backoff : ℕ) (sessions : List (List Wake)) (w : W)
        → (bs : List Bool) × (v : W) × Results p sessions w bs v
          × EndsAt (λ fuel. sessions_from fuel p backoff sessions w) (waits backoff bs, v)
    unfolding sessions_from waits
    sessions_from-waits p backoff [] w = ([], w, (refl, refl), (0, λ fuel le. refl))
    sessions_from-waits p backoff (wakes ∷ more) w =
        let (b, ends) = session_ends wakes (dial succeeds exists os p w) in
        let next = next_backoff b.0 backoff in
        let (bs, v, results, rest) = sessions_from-waits p next.1 more b.1 in
        (
          b.0 ∷ bs,
          v,
          (b, bs, ends, refl, results),
          EndsAt-then _ b
              (λ fuel r.
                sessions_from fuel p (next_backoff r.0 backoff).1 more r.1
                >>= (λ s. some ((next_backoff r.0 backoff).0 ∷ s.0, s.1)))
              _ ends
              (EndsAt-then _ (waits next.1 bs, v) (λ fuel s. some (next.0 ∷ s.0, s.1)) _ rest
                (0, λ fuel le. refl)),
        )

    -- For a transport that has finitely many events and datagrams to give, and where the wakeups of each
    -- session come to an end: the client runs all of its sessions, each from the state that the one before
    -- has left, whether that failed or not, with one wait behind each. The wait is 100 milliseconds behind
    -- a session that had established its tunnel and behind the first one; behind any other it is twice the
    -- wait before, or 5 seconds where that is less: 100 milliseconds doubled as often as there were sessions
    -- since the last such one.
    pub run_proxy-waits :
        (p : ConnectParams) (sessions : List (List Wake)) (w : W)
        → (established : List Bool) × (v : W) × Results p sessions w established v
          × EndsAt (λ fuel. run_proxy fuel p sessions w) (doubled_waits 0 established, v)
    unfolding run_proxy
    run_proxy-waits p sessions w =
        let (bs, v, results, ends) = sessions_from-waits p reconnect_min sessions w in
        (
          bs,
          v,
          results,
          subst (λ x. EndsAt (λ fuel. sessions_from fuel p reconnect_min sessions w) (x, v))
              (waits-doubled_waits 0 bs) ends,
        )
