-- ===== src/Server/Target/Relaying.antt =====
-- A round of reads of `target_task` of src/server.rs.
use zeromasque.Prelude.{
  ℕ, zero, suc, ◌≡◌, ◌==◌, inl, inr, refl, sym, ap, ◌∙◌, List, [], ◌∷◌, ◌++◌, Bool, true, false,
  Bool-cases, ◌||◌, any, take, subst, if◌then◌else◌,
}
use zeromasque.Io.{Packet}
use zeromasque.Io.Relay
use zeromasque.Io.Relay.{turn, turn-more, turn-last}
use zeromasque.Io.Raw.{Kernel, Reading, datagram, no_datagram, received, recv_udp_connected}
use zeromasque.Server.Session.{Scid}
use zeromasque.Server.Routing.{ToClient}
use zeromasque.Server.Target.{
  ToMain, Verdict, goes_on, returns, tagged, after_send, after_error, after_recv, recv_rounds,
  recv_buf,
}
use zeromasque.Server.Target.Queues.{TargetQueues, stops, fails, messages}

module _ {W : Type 0} (k : Kernel W) (q : ToMain W) (l : TargetQueues k q) (conn_id : Scid)
    (flow_id : ℕ) where
  -- From one state to another: exactly these reads are taken and sent to the main loop, and exactly
  -- these payloads to the target.
  abbrev pub Serves : List Reading → List Packet → W → W → Type 0
  Serves rs ps w v =
      Relay.Relays l.inbox l.outbox l.fits (messages k q conn_id flow_id) rs w v
      × Relay.Sends l.sent l.lands ps w v

  pub Serves-trans :
      (xs ys : List Reading) (ps qs : List Packet) (u v w : W)
      → Serves xs ps u v
      → Serves ys qs v w
      → Serves (xs ++ ys) (ps ++ qs) u w
  Serves-trans xs ys ps qs u v w (i, o) (j, p) = (
    Relay.Relays-trans l.inbox l.outbox l.fits (messages k q conn_id flow_id) xs ys u v w i j,
    Relay.Sends-trans l.sent l.lands ps qs u v w o p,
  )

  -- A step that reads nothing and sends the main loop nothing.
  pub outward :
      (ps : List Packet) (w v : W)
      → (l.inbox v ≡ l.inbox w) × (l.outbox v ≡ l.outbox w) × (l.fits v ≡ l.fits w)
      → Relay.Sends l.sent l.lands ps w v
      → Serves [] ps w v
  outward ps w v (i, o, f) s =
      (Relay.Relays-same l.inbox l.outbox l.fits (messages k q conn_id flow_id) w v i o f, s)

  pub Serves-refl : (w : W) → Serves [] [] w w
  Serves-refl w = outward [] w w (refl, refl, refl) (Relay.Sends-none l.sent l.lands w w refl refl)

  -- The state behind a read, and behind the message of a datagram.
  abbrev read_one : W → W
  read_one w = (k.recvmsg w).1

  abbrev message : List ℕ → ToClient
  message bytes = tagged k q conn_id flow_id (take recv_buf bytes)

  abbrev pushed : List ℕ → W → W
  pushed bytes w = (q.try_send (message bytes) (read_one w)).1

  error_taken :
      (n : ℕ) (rs : List Reading) (w : W)
      → l.inbox w ≡ no_datagram n ∷ rs
      → l.inbox (read_one w) ≡ rs
      → Serves (no_datagram n ∷ []) [] w (read_one w)
  error_taken n rs w e i =
      let (o, f, s, g) = l.recv_only w in
      (
        (e ∙ ap (◌∷◌ (no_datagram n)) (sym i), Relay.Sends-none l.outbox l.fits w (read_one w) o f),
        Relay.Sends-none l.sent l.lands w (read_one w) s g,
      )

  datagram_taken :
      (bytes : List ℕ) (rs : List Reading) (w : W)
      → l.inbox w ≡ datagram bytes ∷ rs
      → l.inbox (read_one w) ≡ rs
      → Serves (datagram bytes ∷ []) [] w (pushed bytes w)
  datagram_taken bytes rs w e i =
      let m = message bytes in
      let (o, f, s, g) = l.recv_only w in
      let (i', s', g') = l.push_only m (read_one w) in
      let (_, o', f') = l.push_fits m (read_one w) in
      (
        (
          e ∙ ap (◌∷◌ (datagram bytes)) (sym (i' ∙ i)),
          Relay.Sends-one l.outbox l.fits m w (pushed bytes w)
              (o'
                ∙ ap
                    (λ b. if b zero then l.outbox (read_one w) ++ m ∷ [] else l.outbox (read_one w))
                    f
                ∙ ap (λ t. if l.fits w zero then t ++ m ∷ [] else t) o)
              (f' ∙ ap (λ b n. b (suc n)) f),
        ),
        Relay.Sends-none l.sent l.lands w (pushed bytes w) (s' ∙ s) (g' ∙ g),
      )

  abbrev pub verdict : Bool → Verdict
  verdict true = returns
  verdict false = goes_on

  -- From one state to another: exactly these reads are taken, and the task ends where one failed.
  abbrev pub Turns : List Reading → W → Verdict × W → Type 0
  Turns rs w x = (x.0 ≡ verdict (any fails rs)) × Serves rs [] w x.1

  one_more :
      (r : Reading) (rs : List Reading) (u w : W) (x : Verdict × W)
      → fails r ≡ false
      → Serves (r ∷ []) [] u w
      → Turns rs w x
      → Turns (r ∷ rs) u x
  one_more r rs u w x e s (b, t) = (
    b ∙ ap (λ c. verdict (c || any fails rs)) (sym e),
    Serves-trans (r ∷ []) rs [] [] u w x.1 s t,
  )

  -- Whether or not the message was dropped, the round goes on, since the main loop is there.
  after_send_lem :
      (rest : W → Verdict × W) (x : Bool × W) → after_send k q conn_id flow_id rest x ≡ rest x.1
  unfolding after_send
  after_send_lem rest (true, v) = refl
  after_send_lem rest (false, v) = rw (l.is_there v) refl

  abbrev Ended : Bool → Reading → W → Verdict × W → Type 0
  Ended b r w x = (x.0 ≡ verdict b) × Serves (r ∷ []) [] w x.1

  only : (c : Bool) → (c || false) ≡ c
  only true = refl
  only false = refl

  last_turn :
      (m : ℕ) (r : Reading) (rs : List Reading) (b : Bool) (w : W) (x : Verdict × W)
      → stops r ≡ true
      → fails r ≡ b
      → Ended b r w x
      → Turns (turn stops (suc m) (r ∷ rs)) w x
  last_turn m r rs b w x e f (v, s) =
      subst (λ rs'. Turns rs' w x) (sym (turn-last stops m r rs e))
        (v ∙ ap verdict (sym (only b) ∙ ap (λ c. c || false) (sym f)), s)

  abbrev on_error : (W → Verdict × W) → W → Bool → Bool → Verdict × W
  on_error rest w blocked interrupted =
      after_error k q conn_id flow_id rest blocked interrupted (read_one w)

  -- What the round does behind an error.
  after_error_lem :
      (m n : ℕ) (rest : W → Verdict × W) (rs : List Reading) (w : W)
      → ((u : W) → l.inbox u ≡ rs → Turns (turn stops m rs) u (rest u))
      → l.inbox (read_one w) ≡ rs
      → Serves (no_datagram n ∷ []) [] w (read_one w)
      → Turns
          (turn stops (suc m) (no_datagram n ∷ rs))
          w
          (after_error k q conn_id flow_id rest (n == 11) (n == 4) (read_one w))
  after_error_lem m n rest rs w h i s = elim (Bool-cases (n == 11)) [
    | inl a ↦
        last_turn m (no_datagram n) rs false w _ (rw a refl) (rw a refl) (
          subst (λ c. Ended false (no_datagram n) w (on_error rest w c (n == 4))) (sym a) (refl, s))
    | inr a ↦ elim (Bool-cases (n == 4)) [
      | inl b ↦
          subst (λ rs'. Turns rs' w (on_error rest w (n == 11) (n == 4)))
            (sym (turn-more stops m (no_datagram n) rs (rw a (rw b refl))))
            (subst (λ c. Turns (no_datagram n ∷ turn stops m rs) w (on_error rest w c (n == 4)))
              (sym a)
              (subst (λ c. Turns (no_datagram n ∷ turn stops m rs) w (on_error rest w false c))
                (sym b)
                (one_more (no_datagram n) (turn stops m rs) w _ _ (rw a (rw b refl)) s (h _ i))))
      | inr b ↦ last_turn m (no_datagram n) rs true w _ (rw a (rw b refl)) (rw a (rw b refl)) (
          subst (λ c. Ended true (no_datagram n) w (on_error rest w c (n == 4))) (sym a)
            (subst (λ c. Ended true (no_datagram n) w (on_error rest w false c)) (sym b) (refl, s)))
    ]
  ]

  after_recv_lem :
      (m : ℕ) (rest : W → Verdict × W) (r : Reading) (rs : List Reading) (w : W)
      → ((u : W) → l.inbox u ≡ rs → Turns (turn stops m rs) u (rest u))
      → l.inbox w ≡ r ∷ rs
      → l.inbox (read_one w) ≡ rs
      → Turns
          (turn stops (suc m) (r ∷ rs))
          w
          (after_recv k q conn_id flow_id rest (received k recv_buf r, read_one w))
  unfolding after_recv
  after_recv_lem m rest (datagram bytes) rs w h e i =
      let u = pushed bytes w in
      subst (Turns (turn stops (suc m) (datagram bytes ∷ rs)) w)
        (sym (after_send_lem rest (q.try_send (message bytes) (read_one w))))
        (one_more (datagram bytes) (turn stops m rs) w u (rest u) refl
          (datagram_taken bytes rs w e i) (h u ((l.push_only (message bytes) (read_one w)).0 ∙ i)))
  after_recv_lem m rest (no_datagram n) rs w h e i =
      after_error_lem m n rest rs w h i (error_taken n rs w e i)

  nothing_there :
      (rest : W → Verdict × W) (w : W)
      → l.inbox w ≡ []
      → Turns [] w
          (after_recv k q conn_id flow_id rest (received k recv_buf (k.recvmsg w).0, read_one w))
  unfolding after_recv
  nothing_there rest w e =
      let (a, b) = l.recv_none w e in
      let (o, f, s, g) = l.recv_only w in
      subst
        (λ r. Turns [] w (after_recv k q conn_id flow_id rest (received k recv_buf r, read_one w)))
        (sym a)
        (
          refl,
          outward [] w (read_one w) (b ∙ sym e, o, f)
              (Relay.Sends-none l.sent l.lands w (read_one w) s g),
        )

  pub recv_rounds_lem :
      (m : ℕ) (rs : List Reading) (w : W)
      → l.inbox w ≡ rs
      → Turns (turn stops m rs) w (recv_rounds k q conn_id flow_id m w)
  unfolding recv_rounds recv_udp_connected
  recv_rounds_lem zero rs w e = (refl, Serves-refl w)
  recv_rounds_lem (suc m) [] w e = nothing_there (λ v. recv_rounds k q conn_id flow_id m v) w e
  recv_rounds_lem (suc m) (r ∷ rs) w e =
      let (a, b) = l.recv_next w r rs e in
      subst
        (λ x. Turns (turn stops (suc m) (r ∷ rs)) w (
          after_recv k q conn_id flow_id (λ v. recv_rounds k q conn_id flow_id m v)
            (received k recv_buf x, read_one w)))
        (sym a)
        (after_recv_lem m (λ v. recv_rounds k q conn_id flow_id m v) r rs w (recv_rounds_lem m rs) e
          b)
