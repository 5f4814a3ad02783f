-- ===== src/Examples/Tasks.antt =====
-- Examples of a target's task, on the kernel of Kernels and a channel for one more message.
use zeromasque.Prelude.{
  ℕ, zero, suc, sym, ap, ◌∙◌, ◌==◌, if◌then◌else◌, ◌≡◌, refl, List, [], ◌∷◌, ◌++◌, none, some, Bool,
  true, false, length, nat_beq_refl,
}
use zeromasque.Prelude.Result.{Result, ok, err}
use zeromasque.Io.{Packet}
use zeromasque.Io.Raw.{
  IoError, wrote, errno, Reading, no_datagram, sendmsg_udp_connected, all_of, until_sent,
  send_udp_connected, after_attempt,
}
use zeromasque.Server.Routing.{ToClient}
use zeromasque.Server.Target.{ToMain, TargetEvent, from_client, readable, target_task}
use zeromasque.Io.Relay.{survivors, all_messages}
use zeromasque.Server.Target.Queues.{TargetQueues, messages, reads_of, payloads_of}
use zeromasque.Server.Target.Task
use zeromasque.Server.Target.Task.{target_task-Ends}
use zeromasque.Examples.Kernels.{Net, send_on, read_on, kernel, idle, all_sent}

abbrev push : ℕ → ToClient → Net → Bool × Net
push zero m w = (false, w)
push (suc n) m w = (true, record w { told = w.told ++ m ∷ []; room = n })

abbrev room_for : ℕ → ℕ → Bool
room_for zero n = false
room_for (suc r) zero = true
room_for (suc r) (suc n) = room_for r n

abbrev later : (ℕ → Bool) → ℕ → Bool
later f n = f (suc n)

abbrev always : ℕ → Bool
always n = true

abbrev main_loop : ToMain Net
main_loop = record { try_send = λ m w. push w.room m w; is_closed = λ w. false }

not_full {ℓ} : {A : Type ℓ} → true ≡ false → A
not_full h = cc

reads :
    (l : List Reading) (w : Net) (r : Reading) (rs : List Reading)
    → l ≡ r ∷ rs
    → ((read_on l w).0 ≡ r) × ((read_on l w).1.arriving ≡ rs)
reads l w r rs e = rw e (refl, refl)

no_read :
    (l : List Reading) (w : Net)
    → l ≡ []
    → ((read_on l w).0 ≡ no_datagram 11) × ((read_on l w).1.arriving ≡ [])
no_read l w e = rw e (refl, refl)

reads_only :
    (l : List Reading) (w : Net)
    → ((read_on l w).1.told ≡ w.told)
      × (room_for (read_on l w).1.room ≡ room_for w.room)
      × ((read_on l w).1.direct ≡ w.direct)
      × (always ≡ always)
reads_only [] w = (refl, refl, refl, refl)
reads_only (r ∷ rs) w = (refl, refl, refl, refl)

pushes :
    (r : ℕ) (m : ToClient) (w : Net)
    → ((push r m w).0 ≡ room_for r zero)
      × ((push r m w).1.told ≡ (if room_for r zero then w.told ++ m ∷ [] else w.told))
pushes zero m w = (refl, refl)
pushes (suc r) m w = (refl, refl)

push_room :
    (r : ℕ) (m : ToClient) (w : Net)
    → room_for (push r m (record w { room = r })).1.room ≡ later (room_for r)
push_room zero m w = refl
push_room (suc r) m w = refl

push_only :
    (r : ℕ) (m : ToClient) (w : Net)
    → ((push r m w).1.arriving ≡ w.arriving)
      × ((push r m w).1.direct ≡ w.direct)
      × (always ≡ always)
push_only zero m w = (refl, refl, refl)
push_only (suc r) m w = (refl, refl, refl)

direct_wrote :
    (b : Bool) (p : Packet) (n : ℕ) (w : Net)
    → (send_on none p none b w).0 ≡ wrote n
    → (send_on none p none b w).1.direct ≡ w.direct ++ p ∷ []
direct_wrote true p n w h = cc
direct_wrote false p n w h = refl

direct_errno :
    (b : Bool) (p : Packet) (n : ℕ) (w : Net)
    → (send_on none p none b w).0 ≡ errno n
    → ((send_on none p none b w).1.direct ≡ w.direct) × (11 ≡ n)
direct_errno true p n w h = (refl, cc)
direct_errno false p n w h = cc

never_failed {ℓ} : {A : Type ℓ} → (n : ℕ) → 11 ≡ n → (n == 11) ≡ false → A
never_failed n e f = not_full (sym (nat_beq_refl 11) ∙ ap (λ m. m == 11) e ∙ f)

direct_only :
    (b : Bool) (p : Packet) (w : Net)
    → ((send_on none p none b w).1.arriving ≡ w.arriving)
      × ((send_on none p none b w).1.told ≡ w.told)
      × (room_for (send_on none p none b w).1.room ≡ room_for w.room)
direct_only true p w = (refl, refl, refl)
direct_only false p w = (refl, refl, refl)

ready_at_once {ℓ} :
    {A : Type ℓ} → (e : IoError) (r : Result IoError (Unit {0})) → ok tt ≡ r → r ≡ err e → A
ready_at_once e r h g = cc

abbrev queues : TargetQueues kernel main_loop
queues = record {
  inbox = λ w. w.arriving;
  outbox = λ w. w.told;
  fits = λ w n. room_for w.room n;
  sent = λ w. w.direct;
  lands = λ w. always;
  recv_next = λ w r rs e. reads w.arriving w r rs e;
  recv_none = λ w e. no_read w.arriving w e;
  recv_only = λ w. reads_only w.arriving w;
  push_fits = λ m w. ((pushes w.room m w).0, (pushes w.room m w).1, push_room w.room m w);
  push_only = λ m w. push_only w.room m w;
  is_there = λ w. refl;
  send_wrote = λ p n w h. (refl, direct_wrote w.blocked p n w h, refl);
  send_blocked = λ p n w h b. ((direct_errno w.blocked p n w h).0, refl);
  send_failed = λ p n w h f. never_failed n (direct_errno w.blocked p n w h).1 f;
  send_only = λ p w. direct_only w.blocked p w;
  wait_ok = λ w h. (refl, refl);
  wait_failed = λ w e h. ready_at_once e _ refl h;
  wait_only = λ w. (refl, refl, refl);
}

sends_direct :
    (b : Bool) (p : Packet) (w : Net)
    → (r : Result IoError (Unit {0}) × Net) × (after_attempt kernel
          (λ v. until_sent kernel (sendmsg_udp_connected kernel p) 2 v)
          (all_of (length p) (send_on none p none b w).0, (send_on none p none b w).1)
        ≡ some r)
unfolding until_sent sendmsg_udp_connected all_of
sends_direct true p w = rw (all_sent (length p)) (_, refl)
sends_direct false p w = rw (all_sent (length p)) (_, refl)

patient_direct : Task.IsPatient kernel main_loop queues (7 ∷ []) 3 3
unfolding send_udp_connected until_sent sendmsg_udp_connected
patient_direct p w = sends_direct w.blocked p w

-- A payload, three reads of which the second is interrupted, and another payload.
abbrev turns : List TargetEvent
turns =
    from_client (some (1 ∷ []))
    ∷ readable (ok tt)
    ∷ from_client (some (2 ∷ []))
    ∷ from_client none
    ∷ []

target_task-Ends_example :
    (v : Net) × (target_task kernel main_loop (7 ∷ []) 3 3 turns idle ≡ some v)
    × (idle.arriving ≡ reads_of turns idle.arriving ++ v.arriving)
    × (v.told
        ≡ survivors
            (room_for 1)
            (all_messages (messages kernel main_loop (7 ∷ []) 3) (reads_of turns idle.arriving)))
    × (v.direct ≡ survivors always (payloads_of turns idle.arriving))
target_task-Ends_example =
    target_task-Ends kernel main_loop queues (7 ∷ []) 3 3 patient_direct turns idle
