-- ===== src/Examples/Wire.antt =====
-- Examples of the receive task.
use zeromasque.Prelude.{
  ℕ, zero, suc, ◌≡◌, ◌≤◌, ◌↔◌, refl, List, [], ◌∷◌, ◌++◌, none, some, Bool, true, false, take,
  if◌then◌else◌,
}
use zeromasque.Net.{SocketAddr, v4}
use zeromasque.Io.{Packet, concat}
use zeromasque.Io.Chunks.{payloads}
use zeromasque.Io.Recv.{
  Read, got, interrupted, would_block, Receiver, recv_task, readable, not_ready, segments_of,
  recv_capacity,
}
use zeromasque.Io.Relay.{survivors, all_messages}
use zeromasque.Io.Recv.Handled.{Queues, handled}
use zeromasque.Io.Recv.Order.{segments_of_lem, recv_task_lem}

-- What is to be read, what is in the channel, and the places that are free there.
record Pipe : Type 0 where
  reads : List Read
  sent : List (Packet × SocketAddr)
  room : ℕ

abbrev read_pipe : List Read → Pipe → Read × Pipe
read_pipe [] w = (would_block, record w { reads = [] })
read_pipe (r ∷ rs) w = (r, record w { reads = rs })

abbrev send_pipe : ℕ → Packet × SocketAddr → Pipe → Pipe
send_pipe zero p w = w
send_pipe (suc n) p w = record w { sent = w.sent ++ p ∷ []; room = n }

abbrev wire : Receiver Pipe
wire = record { recvmsg = λ w. read_pipe w.reads w; try_send = λ p w. send_pipe w.room p w }

abbrev room_for : ℕ → ℕ → Bool
room_for zero n = false
room_for (suc r) zero = true
room_for (suc r) (suc n) = room_for r n

abbrev later : (ℕ → Bool) → ℕ → Bool
later f n = f (suc n)

next_of :
    (l : List Read) (w : Pipe) (r : Read) (rs : List Read)
    → l ≡ r ∷ rs
    → ((read_pipe l w).0 ≡ r) × ((read_pipe l w).1.reads ≡ rs)
next_of l w r rs e = rw e (refl, refl)

none_of :
    (l : List Read) (w : Pipe)
    → l ≡ []
    → ((read_pipe l w).0 ≡ would_block) × ((read_pipe l w).1.reads ≡ [])
none_of l w e = rw e (refl, refl)

reads_only :
    (l : List Read) (w : Pipe)
    → ((read_pipe l w).1.sent ≡ w.sent) × (room_for (read_pipe l w).1.room ≡ room_for w.room)
reads_only [] w = (refl, refl)
reads_only (r ∷ rs) w = (refl, refl)

sends_only : (n : ℕ) (p : Packet × SocketAddr) (w : Pipe) → (send_pipe n p w).reads ≡ w.reads
sends_only zero p w = refl
sends_only (suc n) p w = refl

sends_fit :
    (r : ℕ) (p : Packet × SocketAddr) (w : Pipe)
    → ((send_pipe r p (record w { room = r })).sent
        ≡ (if room_for r zero then w.sent ++ p ∷ [] else w.sent))
      × (room_for (send_pipe r p (record w { room = r })).room ≡ later (room_for r))
sends_fit zero p w = (refl, refl)
sends_fit (suc r) p w = (refl, refl)

abbrev wire_queues : Queues wire
wire_queues = record {
  inbox = λ w. w.reads;
  outbox = λ w. w.sent;
  fits = λ w n. room_for w.room n;
  read_next = λ w r rs e. next_of w.reads w r rs e;
  read_none = λ w e. none_of w.reads w e;
  read_only = λ w. reads_only w.reads w;
  send_only = λ p w. sends_only w.room p w;
  send_fits = λ p w. sends_fit w.room p w;
}

abbrev peer : SocketAddr
peer = record { ip = v4 1; port = 7 }

-- Two packets in one read, an interruption, and one packet in another read.
abbrev waiting : List Read
waiting = got (1 ∷ 2 ∷ 3 ∷ []) peer (some 2) ∷ interrupted ∷ got (4 ∷ []) peer none ∷ []

-- A channel with room for one more message.
abbrev start : Pipe
start = record { reads = waiting; sent = []; room = 1 }

segments_of_lem_example :
    (concat (payloads (segments_of 1400 (got (1 ∷ 2 ∷ 3 ∷ []) peer (some 2))))
      ≡ take (recv_capacity 1400) (1 ∷ 2 ∷ 3 ∷ []))
    × ((concat (payloads (segments_of 1400 (got (1 ∷ 2 ∷ 3 ∷ []) peer (some 2)))) ≡ 1 ∷ 2 ∷ 3 ∷ [])
        ↔ (3 ≤ recv_capacity 1400))
    × (recv_capacity 65535 ≡ 65535)
    × (recv_capacity 1400 ≡ 44800)
segments_of_lem_example = segments_of_lem 1400 (1 ∷ 2 ∷ 3 ∷ []) peer (some 2)

recv_task_lem_example :
    (waiting
      ≡ handled (readable ∷ not_ready ∷ []) waiting
        ++ (recv_task wire 1400 (readable ∷ not_ready ∷ []) start).reads)
    × ((recv_task wire 1400 (readable ∷ not_ready ∷ []) start).sent
        ≡ survivors
            (room_for 1)
            (all_messages (segments_of 1400) (handled (readable ∷ not_ready ∷ []) waiting)))
recv_task_lem_example = recv_task_lem wire wire_queues 1400 (readable ∷ not_ready ∷ []) start
