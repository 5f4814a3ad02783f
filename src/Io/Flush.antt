-- ===== src/Io/Flush.antt =====
-- Every step of a flush in src/io.rs keeps account of the packets: delivered, or owed by the batch.
use zeromasque.Prelude.{
  ℕ, ◌≡◌, ◌∙◌, refl, sym, ap, subst, List, [], ◌∷◌, ◌++◌, Option, none, some, Bool, length, All,
  ◌==◌, Bool-cases, inl, inr, append_assoc, append-nil,
}
use zeromasque.Prelude.Result.{Result, ok, err}
use zeromasque.Net.{SocketAddr}
use zeromasque.Io.{
  Packet, SendBatch, SendError, send_batch, take_batch, try_push, push_first, push_outgoing,
  after_push, ends_with_short_segment, end_of_round, next_rounds, flush_loop, Outcome, done,
  transport_error, FlushError, new, step_then, flush_on, Step,
}
use zeromasque.Io.Batch.{
  Sent, pending, owed, IsBatch, IsOpen, IsBatch-IsOpen, IsOpen-IsBatch, push_first_lem,
  try_push_lem,
}
use zeromasque.Io.Chunks.{Fits, IsSegmented}
use zeromasque.Io.Send.{Socket, Sends, IsPrefix, IsPrefix-trans, send_packets-Sends}

module _ {W : Type 0} (linux : Bool) (s : Socket W) where
  -- The state of a step: the batch still owes the end of `all`, and after a failure a part of
  -- `all` from the front has been delivered.
  abbrev Owes : (SendBatch → Type 0) → Sent → Step linux s.send_payload → Type 0
  Owes P all ((ok u, w), b) = P b × (s.delivered w ++ pending b ≡ all)
  Owes P all ((err e, w), b) = IsPrefix (s.delivered w) all

  abbrev IsEmpty : SendBatch → Type 0
  IsEmpty b = (b.to ≡ none) × (b.packets ≡ [])

  emptied-Owes :
      (all : Sent) (r : Result SendError (Unit {0}) × W)
      → Sends linux s all r
      → Owes IsEmpty all (r, new)
  emptied-Owes all (ok u, w) h = ((refl, refl), append-nil (s.delivered w) ∙ h)
  emptied-Owes all (err e, w) h = h

  batch-Owes :
      (o : Option SocketAddr) (n : ℕ) (ps : List Packet) (w : W)
      → IsBatch (record { to = o; segment_size = n; packets = ps })
      → Owes IsEmpty
          (s.delivered w ++ owed o ps)
          (send_batch linux s.send_payload (record { to = o; segment_size = n; packets = ps }) w)
  unfolding send_batch take_batch
  batch-Owes none n [] w h = ((refl, refl), refl)
  batch-Owes none n (p ∷ ps) w (inl (e, f)) = cc
  batch-Owes none n (p ∷ ps) w (inr (a, q, qs, e, f, _, _)) = cc
  batch-Owes (some a) n ps w (inl (e, f)) = cc
  batch-Owes (some a) n [] w (inr (b, q, qs, e, f, _, _)) = cc
  batch-Owes (some a) n (p ∷ ps) w (inr (b, q, qs, e, f, pos, sizes)) =
      emptied-Owes _ _
        (send_packets-Sends linux s a n p ps w pos (subst (IsSegmented n) (sym f) sizes))

  send_batch-Owes :
      (b : SendBatch) (w : W)
      → IsBatch b
      → Owes IsEmpty (s.delivered w ++ pending b) (send_batch linux s.send_payload b w)
  send_batch-Owes b w h = batch-Owes b.to b.segment_size b.packets w h

  sent_all :
      (before : Sent) (w : W) (b : SendBatch)
      → IsEmpty b
      → s.delivered w ++ pending b ≡ before
      → s.delivered w ≡ before
  sent_all before w b empty e =
      sym (append-nil _) ∙ ap (λ o. s.delivered w ++ owed o b.packets) (sym empty.0) ∙ e

  emptied-IsOpen :
      (all : Sent) (r : Step linux s.send_payload) → Owes IsEmpty all r → Owes IsOpen all r
  emptied-IsOpen all ((ok u, w), b) (empty, e) = (inl empty, e)
  emptied-IsOpen all ((err x, w), b) h = h

  -- One step after another, both on the way to `all`.
  Owes-then :
      (P Q : SendBatch → Type 0) (mid all : Sent) (r : Step linux s.send_payload)
      (f : W → SendBatch → Step linux s.send_payload)
      → Owes P mid r
      → IsPrefix mid all
      → ((w : W) (b : SendBatch) → P b → s.delivered w ++ pending b ≡ mid → Owes Q all (f w b))
      → Owes Q all (step_then linux s.send_payload r f)
  Owes-then P Q mid all ((ok u, w), b) f h p k = k w b h.0 h.1
  Owes-then P Q mid all ((err e, w), b) f h p k = IsPrefix-trans linux s _ mid all h p

  after_push-Owes :
      (b : SendBatch) (packet : Packet) (to : SocketAddr) (w : W) (before : Sent)
      → IsOpen b
      → Fits (length packet)
      → s.delivered w ++ pending b ≡ before
      → Owes IsBatch
          (before ++ (packet, to) ∷ [])
          (after_push linux s.send_payload (try_push b packet to) to w)
  after_push-Owes b packet to w before open' pos e = elim (try_push_lem b packet to open' pos) [
    | inl (b', took, batch, owes) ↦ rw took (
      batch,
      ap (λ t. s.delivered w ++ t) owes
          ∙ sym (append_assoc (s.delivered w) _ _)
          ∙ ap (λ t. t ++ (packet, to) ∷ []) e,
    )
    | inr back ↦ rw back (
        Owes-then IsEmpty IsBatch before _ _ _
          (subst (λ t. Owes IsEmpty t (send_batch linux s.send_payload b w)) e
            (send_batch-Owes b w (IsOpen-IsBatch b open')))
          ((packet, to) ∷ [], refl) (λ w' b' empty e'. fresh w' b' empty e'))
  ]
    where
      fresh :
          (w' : W) (b' : SendBatch)
          → IsEmpty b'
          → s.delivered w' ++ pending b' ≡ before
          → IsBatch (push_first b' packet to)
            × (s.delivered w' ++ pending (push_first b' packet to) ≡ before ++ (packet, to) ∷ [])
      fresh w' b' (none', nothing) e' =
          let (batch, owes) = push_first_lem b' packet to nothing pos in
          (
            batch,
            ap (λ t. s.delivered w' ++ t) owes
                ∙ ap (λ t. t ++ (packet, to) ∷ []) (sent_all before w' b' (none', nothing) e'),
          )

  -- A packet given to an open batch: it is owed behind the others, and the batch is open again.
  push_outgoing-Owes :
      (b : SendBatch) (packet : Packet) (to : SocketAddr) (w : W) (before : Sent)
      → IsOpen b
      → Fits (length packet)
      → s.delivered w ++ pending b ≡ before
      → Owes IsOpen (before ++ (packet, to) ∷ []) (push_outgoing linux s.send_payload b packet to w)
  unfolding push_outgoing
  push_outgoing-Owes b packet to w before open' pos e =
      Owes-then IsBatch IsOpen _ _ _ _ (after_push-Owes b packet to w before open' pos e)
        ([], sym (append-nil _))
        (λ w' b' h e'. elim (Bool-cases (ends_with_short_segment b')) [
          | inl short ↦ rw short (
              emptied-IsOpen _ _ (
                subst (λ t. Owes IsEmpty t (send_batch linux s.send_payload b' w')) e'
                  (send_batch-Owes b' w' h)))
          | inr long ↦ rw long (IsBatch-IsOpen b' h long, e')
        ])

  end_of_round-Owes :
      (rounds : ℕ) (all : Sent) (r : Step linux s.send_payload)
      → Owes IsOpen all r
      → Owes IsOpen all (end_of_round linux s.send_payload rounds r)
  end_of_round-Owes rounds all r h =
      Owes-then IsOpen IsOpen all all r _ h ([], sym (append-nil _))
        (λ w b open' e. elim (Bool-cases (rounds == 1)) [
          | inl last ↦ rw last (
              emptied-IsOpen _ _ (
                subst (λ t. Owes IsEmpty t (send_batch linux s.send_payload b w)) e
                  (send_batch-Owes b w (IsOpen-IsBatch b open'))))
          | inr more ↦ rw more (open', e)
        ])

  -- What a flush leaves behind.
  abbrev pub Flushes : Outcome → Sent → Result FlushError (Unit {0}) × W → Type 0
  Flushes out all (ok u, w) = (s.delivered w ≡ all) × (out ≡ done)
  Flushes out all (err e, w) = IsPrefix (s.delivered w) all

  flush_on-Flushes :
      (out : Outcome) (P : SendBatch → Type 0) (mid all : Sent) (r : Step linux s.send_payload)
      (f : W → SendBatch → Result FlushError (Unit {0}) × W)
      → Owes P mid r
      → IsPrefix mid all
      → ((w : W) (b : SendBatch) → P b → s.delivered w ++ pending b ≡ mid → Flushes out all (f w b))
      → Flushes out all (flush_on linux s.send_payload r f)
  flush_on-Flushes out P mid all ((ok u, w), b) f h p k = k w b h.0 h.1
  flush_on-Flushes out P mid all ((err e, w), b) f h p k = IsPrefix-trans linux s _ mid all h p

  pub flush_loop-Flushes :
      (rounds : ℕ) (outs : Sent) (out : Outcome) (b : SendBatch) (w : W) (before : Sent)
      → IsOpen b
      → All (λ o. Fits (length o.0)) outs
      → s.delivered w ++ pending b ≡ before
      → Flushes out (before ++ outs) (flush_loop linux s.send_payload rounds outs out b w)
  unfolding flush_loop
  flush_loop-Flushes rounds [] done b w before open' pos e =
      flush_on-Flushes done IsEmpty before _ _ _
        (subst (λ t. Owes IsEmpty t (send_batch linux s.send_payload b w)) e
          (send_batch-Owes b w (IsOpen-IsBatch b open')))
        ([], refl)
        (λ w' b' empty e'. (sent_all before w' b' empty e' ∙ sym (append-nil before), refl))
  flush_loop-Flushes rounds [] transport_error b w before open' pos e =
      (pending b, append-nil before ∙ sym e)
  flush_loop-Flushes rounds ((packet, to) ∷ outs) out b w before open' pos e =
      flush_on-Flushes out IsOpen (before ++ (packet, to) ∷ []) _ _ _
        (end_of_round-Owes rounds _ _ (push_outgoing-Owes b packet to w before open' pos.0 e))
        (outs, sym (append_assoc before ((packet, to) ∷ []) outs))
        (λ w' b' open'' e'.
          subst
            (λ t. Flushes out t (
              flush_loop linux s.send_payload (next_rounds linux s.send_payload rounds) outs out b'
                w'))
            (append_assoc before ((packet, to) ∷ []) outs)
            (flush_loop-Flushes (next_rounds linux s.send_payload rounds) outs out b' w'
              (before ++ (packet, to) ∷ []) open'' pos.1 e'))
