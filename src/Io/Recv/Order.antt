-- ===== src/Io/Recv/Order.antt =====
-- The receive task of src/io.rs: which reads it takes, and which packets reach the channel.
use zeromasque.Prelude.{
  ℕ, zero, suc, ◌≤◌, ◌≡◌, ◌↔◌, refl, sym, ap, ◌∙◌, List, [], ◌∷◌, ◌++◌, Option, Bool, true, false,
  not, any, take, drop, length, arith, append-nil, subst, take_ge, length-take, drop-length-append,
  if◌then◌else◌,
}
use zeromasque.Io.Relay.{all_messages, survivors, behind, turn, turn-more, turn-last}
use zeromasque.Io.Relay
use zeromasque.Io.Recv.Handled.{Queues, stops, fails, handled}
use zeromasque.Net.{SocketAddr}
use zeromasque.Io.{Packet, concat}
use zeromasque.Io.Chunks.{payloads, split_segments_lem}
use zeromasque.Io.Recv.{
  Read, got, would_block, interrupted, failed, recv_batch_size, recv_capacity, segments_of,
  Receiver, Ready, readable, not_ready, cancelled, forward, after_read, recv_rounds, after_rounds,
  recv_task,
}

-- What reaches the channel of a read are its first bytes, as many as the buffer has room for, and so
-- all of them exactly where it has room for all. A buffer for the largest UDP payload, 65535 bytes, has
-- room for every read; one for the packets of QUIC, of 1400 bytes, has it for 44800 bytes, which is less
-- than the kernel may have joined.
pub segments_of_lem :
    (n : ℕ) (bytes : List ℕ) (from : SocketAddr) (gro : Option ℕ)
    → (concat (payloads (segments_of n (got bytes from gro))) ≡ take (recv_capacity n) bytes)
      × ((concat (payloads (segments_of n (got bytes from gro))) ≡ bytes)
          ↔ (length bytes ≤ recv_capacity n))
      × (recv_capacity 65535 ≡ 65535)
      × (recv_capacity 1400 ≡ 44800)
unfolding segments_of recv_capacity
segments_of_lem n bytes from gro =
    let all = (split_segments_lem (take (recv_capacity n) bytes) from gro).0 in
    (
      all,
      (
        λ h. omega (arith, ap length (sym all ∙ h), length-take (recv_capacity n) bytes),
        λ h. all ∙ take_ge (recv_capacity n) bytes h,
      ),
      refl,
      refl,
    )

module _ {W : Type 0} (os : Receiver W) (q : Queues os) (n : ℕ) where
  -- From one state to another: exactly these reads are taken, and their packets are sent to the channel.
  abbrev pub Relays : List Read → W → W → Type 0
  Relays = Relay.Relays q.inbox q.outbox q.fits (segments_of n)

  -- The packets of a read go to the channel.
  forward_lem :
      (ps : List (Packet × SocketAddr)) (w : W)
      → (q.inbox (forward os n ps w) ≡ q.inbox w)
        × Relay.Sends q.outbox q.fits ps w (forward os n ps w)
  unfolding forward
  forward_lem [] w = (refl, Relay.Sends-none q.outbox q.fits w w refl refl)
  forward_lem (p ∷ ps) w =
      let (i, s) = forward_lem ps (os.try_send p w) in
      let (o, f) = q.send_fits p w in
      (
        i ∙ q.send_only p w,
        Relay.Sends-trans q.outbox q.fits (p ∷ []) ps w (os.try_send p w) _
            (Relay.Sends-one q.outbox q.fits p w (os.try_send p w) o f) s,
      )

  -- One read is taken of those that are there.
  taken_one :
      (r : Read) (rs : List Read) (w : W)
      → q.inbox w ≡ r ∷ rs
      → Relays (r ∷ []) w (forward os n (segments_of n r) (os.recvmsg w).1)
        × (q.inbox (forward os n (segments_of n r) (os.recvmsg w).1) ≡ rs)
  taken_one r rs w e =
      let (i, (o, f)) = forward_lem (segments_of n r) (os.recvmsg w).1 in
      let (o', f') = q.read_only w in
      let inbox : q.inbox (forward os n (segments_of n r) (os.recvmsg w).1) ≡ rs =
        i ∙ (q.read_next w r rs e).1 in
      (
        (
          e ∙ ap (◌∷◌ r) (sym inbox),
          rw (append-nil (segments_of n r)) (
            o
                ∙ ap (λ t. t ++ survivors (q.fits (os.recvmsg w).1) (segments_of n r)) o'
                ∙ ap (λ t. q.outbox w ++ survivors t (segments_of n r)) f',
            f ∙ ap (behind (segments_of n r)) f',
          ),
        ),
        inbox,
      )

  -- From one state to another: exactly these reads are taken, and the task goes on unless one failed.
  abbrev Turns : List Read → W → Bool × W → Type 0
  Turns rs w r = (r.0 ≡ not (any fails rs)) × Relays rs w r.1

  nothing_there :
      (rest : W → Bool × W) (w : W)
      → q.inbox w ≡ []
      → Turns [] w (after_read os n rest (os.recvmsg w).0 (os.recvmsg w).1)
  unfolding after_read
  nothing_there rest w e =
      subst (λ r. Turns [] w (after_read os n rest r (os.recvmsg w).1)) (sym (q.read_none w e).0)
        (
          refl,
          Relay.Relays-same q.inbox q.outbox q.fits (segments_of n) w (os.recvmsg w).1
              ((q.read_none w e).1 ∙ sym e) (q.read_only w).0 (q.read_only w).1,
        )

  one_more :
      (r : Read) (rs : List Read) (u w : W) (x : Bool × W)
      → fails r ≡ false
      → Relays (r ∷ []) u w
      → Turns rs w x
      → Turns (r ∷ rs) u x
  one_more r rs u w x e s (b, t) =
      (rw e b, Relay.Relays-trans q.inbox q.outbox q.fits (segments_of n) (r ∷ []) rs u w x.1 s t)

  after_read_lem :
      (k : ℕ) (rest : W → Bool × W) (r : Read) (rs : List Read) (w : W)
      → ((u : W) → q.inbox u ≡ rs → Turns (turn stops k rs) u (rest u))
      → Relays (r ∷ []) w (forward os n (segments_of n r) (os.recvmsg w).1)
        × (q.inbox (forward os n (segments_of n r) (os.recvmsg w).1) ≡ rs)
      → Turns (turn stops (suc k) (r ∷ rs)) w (after_read os n rest r (os.recvmsg w).1)
  unfolding after_read segments_of forward
  after_read_lem k rest (got bytes from gro) rs w h (s, e) =
      one_more (got bytes from gro) (turn stops k rs) w _ _ refl s (h _ e)
  after_read_lem k rest would_block rs w h (s, e) = (refl, s)
  after_read_lem k rest interrupted rs w h (s, e) =
      one_more interrupted (turn stops k rs) w _ _ refl s (h _ e)
  after_read_lem k rest failed rs w h (s, e) = (refl, s)

  recv_rounds_lem :
      (k : ℕ) (rs : List Read) (w : W)
      → q.inbox w ≡ rs
      → Turns (turn stops k rs) w (recv_rounds os n k w)
  unfolding recv_rounds
  recv_rounds_lem zero rs w e =
      (refl, Relay.Relays-same q.inbox q.outbox q.fits (segments_of n) w w refl refl refl)
  recv_rounds_lem (suc k) [] w e = nothing_there (λ v. recv_rounds os n k v) w e
  recv_rounds_lem (suc k) (r ∷ rs) w e =
      subst
        (λ x.
          Turns (turn stops (suc k) (r ∷ rs)) w
            (after_read os n (λ v. recv_rounds os n k v) x (os.recvmsg w).1))
        (sym (q.read_next w r rs e).0)
        (after_read_lem k (λ v. recv_rounds os n k v) r rs w (recv_rounds_lem k rs)
          (taken_one r rs w e))

  after_rounds_lem :
      (rest : W → W) (f b : Bool) (xs ys : List Read) (w v : W)
      → b ≡ not f
      → Relays xs w v
      → Relays ys v (rest v)
      → Relays (xs ++ (if f then [] else ys)) w (after_rounds os n rest b v)
  unfolding after_rounds
  after_rounds_lem rest true b xs ys w v e s t =
      subst (λ c. Relays (xs ++ []) w (after_rounds os n rest c v)) (sym e) (rw (append-nil xs) s)
  after_rounds_lem rest false b xs ys w v e s t =
      subst (λ c. Relays (xs ++ ys) w (after_rounds os n rest c v)) (sym e)
        (Relay.Relays-trans q.inbox q.outbox q.fits (segments_of n) xs ys w v (rest v) s t)

  left_over :
      (xs rs : List Read) (w v : W)
      → q.inbox w ≡ rs
      → Relays xs w v
      → q.inbox v ≡ drop (length xs) rs
  left_over xs rs w v e (i, s) =
      sym (drop-length-append xs (q.inbox v)) ∙ ap (drop (length xs)) (sym i ∙ e)

  task_lem :
      (es : List Ready) (rs : List Read) (w : W)
      → q.inbox w ≡ rs
      → Relays (handled es rs) w (recv_task os n es w)
  unfolding recv_task
  task_lem [] rs w e = Relay.Relays-same q.inbox q.outbox q.fits (segments_of n) w w refl refl refl
  task_lem (cancelled ∷ es) rs w e =
      Relay.Relays-same q.inbox q.outbox q.fits (segments_of n) w w refl refl refl
  task_lem (not_ready ∷ es) rs w e =
      Relay.Relays-same q.inbox q.outbox q.fits (segments_of n) w w refl refl refl
  task_lem (readable ∷ es) rs w e =
      let taken = turn stops 32 rs in
      let (b, s) = recv_rounds_lem recv_batch_size rs w e in
      let v = (recv_rounds os n recv_batch_size w).1 in
      after_rounds_lem (λ u. recv_task os n es u) (any fails taken) _ taken
        (handled es (drop (length taken) rs)) w v b s
        (task_lem es (drop (length taken) rs) v (left_over taken rs w v e s))

  -- Where the socket and the channel are queues, the receive task, however its waits end, takes from the
  -- socket exactly these reads and leaves the others there: each time that the socket is readable the
  -- first 32, up to the first that would block or fails, and none behind a read that fails or a wait
  -- that is cancelled or fails. What it adds to the channel are exactly the packets of these reads, in
  -- order, each once, less those for which the channel has no room when they are sent.
  pub recv_task_lem :
      (es : List Ready) (w : W)
      → (q.inbox w ≡ handled es (q.inbox w) ++ q.inbox (recv_task os n es w))
        × (q.outbox (recv_task os n es w)
            ≡ q.outbox w
              ++ survivors (q.fits w) (all_messages (segments_of n) (handled es (q.inbox w))))
  recv_task_lem es w = let (i, (o, f)) = task_lem es (q.inbox w) w refl in (i, o)
