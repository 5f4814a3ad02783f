-- ===== src/Server/Target/Sending.antt =====
-- One payload that `target_task` of src/server.rs sends to the target, however often it has to wait.
use zeromasque.Prelude.{
  ℕ, zero, suc, ◌≡◌, ◌==◌, inl, inr, refl, sym, ap, ◌∙◌, [], ◌∷◌, ◌++◌, Option, none, some, true,
  false, Bool-cases, length, if◌then◌else◌,
}
use zeromasque.Prelude.Result.{Result, ok, err}
use zeromasque.Io.{Packet}
use zeromasque.Io.Relay
use zeromasque.Io.Raw.{
  Kernel, IoError, Answer, wrote, errno, all_of, sendmsg_udp_connected, after_wait, after_attempt,
  until_sent, send_udp_connected,
}
use zeromasque.Server.Session.{Scid}
use zeromasque.Server.Target.{ToMain}
use zeromasque.Server.Target.Queues.{TargetQueues}
use zeromasque.Server.Target.Relaying.{Serves, Serves-trans, Serves-refl, outward}

module _ {W : Type 0} (k : Kernel W) (q : ToMain W) (l : TargetQueues k q) (conn_id : Scid)
    (flow_id : ℕ) (p : Packet) where
  -- Where the send has ended, exactly this payload has been sent: it is there or lost.
  abbrev pub Leads : W → Option (Result IoError (Unit {0}) × W) → Type 0
  Leads w none = Unit {0}
  Leads w (some (r, v)) = Serves k q l conn_id flow_id [] (p ∷ []) w v

  abbrev Waits : (W → Option (Result IoError (Unit {0}) × W)) → W → Type 0
  Waits again u = (v : W) → Serves k q l conn_id flow_id [] [] u v → Leads u (again v)

  abbrev Same : W → W → Type 0
  Same w v = (l.inbox v ≡ l.inbox w) × (l.outbox v ≡ l.outbox w) × (l.fits v ≡ l.fits w)

  -- The system has taken the payload, or refused it.
  taken :
      (w v : W)
      → Same w v
      → (l.lands w zero ≡ true)
        × (l.sent v ≡ l.sent w ++ p ∷ [])
        × (l.lands v ≡ (λ n. l.lands w (suc n)))
      → Serves k q l conn_id flow_id [] (p ∷ []) w v
  taken w v o (b, s, g) = outward k q l conn_id flow_id (p ∷ []) w v o (
      Relay.Sends-one l.sent l.lands p w v
        (s ∙ ap (λ c. if c then l.sent w ++ p ∷ [] else l.sent w) (sym b)) g)

  refused :
      (w v : W)
      → Same w v
      → (l.lands w zero ≡ false) × (l.sent v ≡ l.sent w) × (l.lands v ≡ (λ n. l.lands w (suc n)))
      → Serves k q l conn_id flow_id [] (p ∷ []) w v
  refused w v o (b, s, g) = outward k q l conn_id flow_id (p ∷ []) w v o (
      Relay.Sends-one l.sent l.lands p w v
        (s ∙ ap (λ c. if c then l.sent w ++ p ∷ [] else l.sent w) (sym b)) g)

  unsettled :
      (w v : W)
      → Same w v
      → (l.sent v ≡ l.sent w) × (l.lands v ≡ l.lands w)
      → Serves k q l conn_id flow_id [] [] w v
  unsettled w v o (s, g) =
      outward k q l conn_id flow_id [] w v o (Relay.Sends-none l.sent l.lands w v s g)

  then_sent :
      (u w v : W)
      → Serves k q l conn_id flow_id [] [] u w
      → Serves k q l conn_id flow_id [] (p ∷ []) w v
      → Serves k q l conn_id flow_id [] (p ∷ []) u v
  then_sent u w v e s = Serves-trans k q l conn_id flow_id [] [] [] (p ∷ []) u w v e s

  after_wait-Leads :
      (again : W → Option (Result IoError (Unit {0}) × W)) (r : Result IoError (Unit {0})) (u v : W)
      → (k.writable v).0 ≡ r
      → Waits again u
      → Serves k q l conn_id flow_id [] [] u v
      → Leads u (after_wait k again (r, (k.writable v).1))
  after_wait-Leads again (ok t) u v a h e = h (k.writable v).1 (
      Serves-trans k q l conn_id flow_id [] [] [] [] u v _ e
        (unsettled v (k.writable v).1 (l.wait_only v) (l.wait_ok v a)))
  after_wait-Leads again (err x) u v a h e =
      then_sent u v (k.writable v).1 e
        (refused v (k.writable v).1 (l.wait_only v) (l.wait_failed v x a))

  -- A number of bytes: the payload is sent, whether or not the number is its length.
  wrote-Leads :
      (again : W → Option (Result IoError (Unit {0}) × W)) (n : ℕ) (u v : W)
      → Serves k q l conn_id flow_id [] (p ∷ []) u v
      → Leads u (after_attempt k again (all_of (length p) (wrote n), v))
  unfolding all_of
  wrote-Leads again n u v e = elim (Bool-cases (n == length p)) [
    | inl all ↦ rw all e
    | inr short ↦ rw short e
  ]

  errno-Leads :
      (again : W → Option (Result IoError (Unit {0}) × W)) (n : ℕ) (u w : W)
      → (k.sendmsg none p none w).0 ≡ errno n
      → Waits again u
      → Serves k q l conn_id flow_id [] [] u w
      → Leads u (after_attempt k again (all_of (length p) (errno n), (k.sendmsg none p none w).1))
  unfolding all_of
  errno-Leads again n u w e h s =
      let v = (k.sendmsg none p none w).1 in
      elim (Bool-cases (n == 11)) [
        | inl blocked ↦ rw blocked (
            after_wait-Leads again (k.writable v).0 u v refl h (
              Serves-trans k q l conn_id flow_id [] [] [] [] u w v s
                (unsettled w v (l.send_only p w) (l.send_blocked p n w e blocked))))
        | inr failed ↦
            rw failed
              (then_sent u w v s (refused w v (l.send_only p w) (l.send_failed p n w e failed)))
      ]

  attempt-Leads :
      (again : W → Option (Result IoError (Unit {0}) × W)) (a : Answer) (u w : W)
      → (k.sendmsg none p none w).0 ≡ a
      → Waits again u
      → Serves k q l conn_id flow_id [] [] u w
      → Leads u (after_attempt k again (all_of (length p) a, (k.sendmsg none p none w).1))
  attempt-Leads again (wrote n) u w e h s =
      let v = (k.sendmsg none p none w).1 in
      wrote-Leads again n u v
        (then_sent u w v s (taken w v (l.send_only p w) (l.send_wrote p n w e)))
  attempt-Leads again (errno n) u w e h s = errno-Leads again n u w e h s

  until_sent-Leads : (fuel : ℕ) (u : W) → Waits (until_sent k (sendmsg_udp_connected k p) fuel) u
  unfolding until_sent sendmsg_udp_connected
  until_sent-Leads zero u w s = tt
  until_sent-Leads (suc fuel) u w s =
      attempt-Leads (λ v. until_sent k (sendmsg_udp_connected k p) fuel v) _ u w refl
        (until_sent-Leads fuel u) s

  pub send_udp_connected-Leads : (fuel : ℕ) (w : W) → Leads w (send_udp_connected k fuel p w)
  unfolding send_udp_connected
  send_udp_connected-Leads fuel w = until_sent-Leads fuel w w (Serves-refl k q l conn_id flow_id w)
