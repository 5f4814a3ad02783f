-- ===== src/Server/Target/Task.antt =====
-- The loop of `target_task` of src/server.rs: it ends, and relays both ways.
use zeromasque.Prelude.{
  ℕ, ◌≡◌, refl, sym, ap, ◌∙◌, List, [], ◌∷◌, ◌++◌, Option, none, some, Bool, true, false, any, drop,
  length, subst, append-nil, drop-length-append, if◌then◌else◌,
}
use zeromasque.Prelude.Result.{Result, ok, err}
use zeromasque.Io.{Packet}
use zeromasque.Io.Relay.{turn, survivors, all_messages}
use zeromasque.Io.Recv.{recv_batch_size}
use zeromasque.Io.Raw.{Kernel, IoError, Reading, send_udp_connected}
use zeromasque.Server.Session.{Scid}
use zeromasque.Server.Target.{
  ToMain, TargetEvent, from_client, readable, Verdict, go_on, recv_rounds, target_task,
}
use zeromasque.Server.Target.Queues.{TargetQueues, stops, fails, reads_of, payloads_of, messages}
use zeromasque.Server.Target.Relaying.{Serves, Serves-trans, Serves-refl, verdict, recv_rounds_lem}
use zeromasque.Server.Target.Sending.{Leads, send_udp_connected-Leads}

module _ {W : Type 0} (k : Kernel W) (q : ToMain W) (l : TargetQueues k q) (conn_id : Scid)
    (flow_id : ℕ) (fuel : ℕ) where
  -- Every send ends, with this fuel.
  abbrev pub IsPatient : Type 0
  IsPatient =
      (p : Packet) (w : W)
      → (r : Result IoError (Unit {0}) × W) × (send_udp_connected k fuel p w ≡ some r)

  -- The task ends, and has served these reads and payloads.
  abbrev Ends : List Reading → List Packet → W → Option W → Type 0
  Ends rs ps w o = (v : W) × (o ≡ some v) × Serves k q l conn_id flow_id rs ps w v

  Ends-trans :
      (xs ys : List Reading) (ps qs : List Packet) (u w : W) (o : Option W)
      → Serves k q l conn_id flow_id xs ps u w
      → Ends ys qs w o
      → Ends (xs ++ ys) (ps ++ qs) u o
  Ends-trans xs ys ps qs u w o s (v, e, t) =
      (v, e, Serves-trans k q l conn_id flow_id xs ys ps qs u w v s t)

  go_on-Ends :
      (rest : W → Option W) (failed : Bool) (x : Verdict) (v w : W) (xs ys : List Reading)
      (ps : List Packet)
      → x ≡ verdict k q l conn_id flow_id failed
      → Serves k q l conn_id flow_id xs [] w v
      → Ends ys ps v (rest v)
      → Ends
          (xs ++ (if failed then [] else ys))
          (if failed then [] else ps)
          w
          (go_on k q conn_id flow_id rest (x, v))
  go_on-Ends rest true x v w xs ys ps e s h =
      subst (λ z. Ends (xs ++ []) [] w (go_on k q conn_id flow_id rest (z, v))) (sym e)
        (rw (append-nil xs) (v, refl, s))
  go_on-Ends rest false x v w xs ys ps e s h =
      subst (λ z. Ends (xs ++ ys) ps w (go_on k q conn_id flow_id rest (z, v))) (sym e)
        (Ends-trans xs ys [] ps w v (rest v) s h)

  left_over :
      (xs rs : List Reading) (ps : List Packet) (w v : W)
      → l.inbox w ≡ rs
      → Serves k q l conn_id flow_id xs ps w v
      → l.inbox v ≡ drop (length xs) rs
  left_over xs rs ps w v e ((i, s), t) =
      sym (drop-length-append xs (l.inbox v)) ∙ ap (drop (length xs)) (sym i ∙ e)

  task_lem :
      IsPatient
      → (es : List TargetEvent) (rs : List Reading) (w : W) → l.inbox w ≡ rs
      → Ends (reads_of es rs) (payloads_of es rs) w (target_task k q conn_id flow_id fuel es w)
  unfolding target_task
  task_lem patient [] rs w i = (w, refl, Serves-refl k q l conn_id flow_id w)
  task_lem patient (from_client none ∷ es) rs w i = (w, refl, Serves-refl k q l conn_id flow_id w)
  task_lem patient (from_client (some p) ∷ es) rs w i =
      let (r, e) = patient p w in
      let s : Leads k q l conn_id flow_id p w (some r) =
        subst (Leads k q l conn_id flow_id p w) e
          (send_udp_connected-Leads k q l conn_id flow_id p fuel w) in
      rw e (
        Ends-trans [] (reads_of es rs) (p ∷ []) (payloads_of es rs) w r.1
          (target_task k q conn_id flow_id fuel es r.1) s
          (task_lem patient es rs r.1 (left_over [] rs (p ∷ []) w r.1 i s)))
  task_lem patient (readable (err e) ∷ es) rs w i = (w, refl, Serves-refl k q l conn_id flow_id w)
  task_lem patient (readable (ok u) ∷ es) rs w i =
      let taken = turn stops 32 rs in
      let x = recv_rounds k q conn_id flow_id recv_batch_size w in
      let (b, s) = recv_rounds_lem k q l conn_id flow_id recv_batch_size rs w i in
      go_on-Ends (λ v. target_task k q conn_id flow_id fuel es v) (any fails taken) x.0 x.1 w taken
        (reads_of es (drop (length taken) rs)) (payloads_of es (drop (length taken) rs)) b s
        (task_lem patient es (drop (length taken) rs) x.1 (left_over taken rs [] w x.1 i s))

  -- Where the socket and the channel are queues, the main loop is there and every send ends with the
  -- fuel, the task works off any events. It has then taken from the socket exactly these reads and left the
  -- others there: each time that the socket is readable the first 32, up to the first that fails other
  -- than by an interruption. The main loop has been sent exactly the bytes of the datagrams among them,
  -- at most 65535 of each, in order, each once and with the connection and the flow of the task, less
  -- those for which the channel has no room when they are sent. The target has been sent exactly the
  -- payloads that the client hands in, in order, each once, less those whose send fails. What ends the
  -- task are the end of the flow, a failed wait and a read that fails other than by an interruption or
  -- for want of a datagram; a failed send and a full channel do not.
  pub target_task-Ends :
      IsPatient
      → (es : List TargetEvent) (w : W)
      → (v : W) × (target_task k q conn_id flow_id fuel es w ≡ some v)
        × (l.inbox w ≡ reads_of es (l.inbox w) ++ l.inbox v)
        × (l.outbox v
            ≡ l.outbox w
              ++ survivors
                  (l.fits w)
                  (all_messages (messages k q conn_id flow_id) (reads_of es (l.inbox w))))
        × (l.sent v ≡ l.sent w ++ survivors (l.lands w) (payloads_of es (l.inbox w)))
  target_task-Ends patient es w =
      let (v, e, s) = task_lem patient es (l.inbox w) w refl in (v, e, s.0.0, s.0.1.0, s.1.0)
