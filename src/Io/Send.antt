-- ===== src/Io/Send.antt =====
-- `send_packets` of src/io.rs: a batch goes out whole and in order, or a part of it from the front.
use zeromasque.Prelude.{
  ℕ, ◌≡◌, ◌∙◌, refl, sym, ap, subst, List, [], ◌∷◌, ◌++◌, Option, none, some, Bool, true, false,
  not, ◌&&◌, arith, length, ltb, if◌then◌else◌, append_assoc, append-nil,
}
use zeromasque.Prelude.Result.{Result, ok, err}
use zeromasque.Net.{SocketAddr}
use zeromasque.Io.{
  Packet, SendError, gso_unsupported, failed, concat, chunks, send_each, send_packets, send_udp,
  and_then, or_each,
}
use zeromasque.Io.Batch.{Sent, to_all}
use zeromasque.Io.Chunks.{Fits, IsSegmented, chunks-concat}

abbrev pub segments : List ℕ → Option ℕ → List Packet
segments payload none = payload ∷ []
segments payload (some n) = chunks n payload

abbrev pub IsPrefix : Sent → Sent → Type 0
IsPrefix xs ys = (rest : Sent) × (ys ≡ xs ++ rest)

-- A segment size that is told to the kernel, or none.
abbrev pub FitsOption : Option ℕ → Type 0
FitsOption none = Unit {0}
FitsOption (some n) = Fits n

-- What the system does with a payload: it delivers the segments that it was told to cut, all of
-- them, or none and reports a failure. `delivered` is what has left the socket.
pub record Socket (W : Type 0) : Type 0 where
  pub send_payload : SocketAddr → List ℕ → Option ℕ → W → Result SendError (Unit {0}) × W
  pub delivered : W → Sent
  pub sends_all :
      (to : SocketAddr) (payload : List ℕ) (n : Option ℕ) (w : W)
      → FitsOption n
      → (send_payload to payload n w).0 ≡ ok tt
      → delivered (send_payload to payload n w).1 ≡ delivered w ++ to_all to (segments payload n)
  pub or_nothing :
      (to : SocketAddr) (payload : List ℕ) (n : Option ℕ) (w : W)
      → FitsOption n
      → (e : SendError) → (send_payload to payload n w).0 ≡ err e
      → delivered (send_payload to payload n w).1 ≡ delivered w

module _ {W : Type 0} (linux : Bool) (s : Socket W) where
  -- After a send: on success everything has been delivered, on a failure some of it from the front.
  abbrev pub Sends : Sent → Result SendError (Unit {0}) × W → Type 0
  Sends all (ok u, w) = s.delivered w ≡ all
  Sends all (err e, w) = IsPrefix (s.delivered w) all

  pub IsPrefix-trans : (a b c : Sent) → IsPrefix a b → IsPrefix b c → IsPrefix a c
  IsPrefix-trans a b c (x, e) (y, f) = (x ++ y, f ∙ ap (λ t. t ++ y) e ∙ append_assoc a x y)

  -- Delivering `more` behind `before`, in two steps.
  Sends-then :
      (mid all : Sent) (r : Result SendError (Unit {0}) × W)
      (f : W → Result SendError (Unit {0}) × W)
      → Sends mid r
      → IsPrefix mid all
      → ((w : W) → s.delivered w ≡ mid → Sends all (f w))
      → Sends all (and_then linux s.send_payload r f)
  Sends-then mid all (ok u, w) f h p k = k w h
  Sends-then mid all (err e, w) f h p k = IsPrefix-trans _ mid all h p

  one_send :
      (before more : Sent) (r : Result SendError (Unit {0}) × W)
      → (r.0 ≡ ok tt → s.delivered r.1 ≡ before ++ more)
      → ((e : SendError) → r.0 ≡ err e → s.delivered r.1 ≡ before)
      → Sends (before ++ more) r
  one_send before more (ok u, w) all none' = all refl
  one_send before more (err e, w) all none' = (more, ap (λ t. t ++ more) (sym (none' e refl)))

  or_each-Sends :
      (offloaded : Bool) (before : Sent) (to : SocketAddr) (ps : List Packet)
      (r : Result SendError (Unit {0}) × W)
      → ((w : W)
          → s.delivered w ≡ before
          → Sends (before ++ to_all to ps) (send_each linux s.send_payload to ps w))
      → (r.0 ≡ ok tt → s.delivered r.1 ≡ before ++ to_all to ps)
      → ((e : SendError) → r.0 ≡ err e → s.delivered r.1 ≡ before)
      → Sends (before ++ to_all to ps) (or_each linux s.send_payload offloaded to ps r)
  or_each-Sends true before to ps (ok u, w) each all none' = all refl
  or_each-Sends true before to ps (err gso_unsupported, w) each all none' = each w (none' _ refl)
  or_each-Sends true before to ps (err failed, w) each all none' =
      (to_all to ps, ap (λ t. t ++ to_all to ps) (sym (none' _ refl)))
  or_each-Sends false before to ps (r, w) each all none' =
      one_send before (to_all to ps) (r, w) all none'

  send_each-Sends :
      (to : SocketAddr) (ps : List Packet) (w : W) (before : Sent)
      → s.delivered w ≡ before
      → Sends (before ++ to_all to ps) (send_each linux s.send_payload to ps w)
  unfolding send_each
  send_each-Sends to [] w before e = e ∙ sym (append-nil before)
  send_each-Sends to (p ∷ ps) w before e =
      Sends-then (before ++ (p, to) ∷ []) _ _ (send_each linux s.send_payload to ps)
        (one_send before ((p, to) ∷ []) (s.send_payload to p none w)
          (λ h. s.sends_all to p none w tt h ∙ ap (λ t. t ++ (p, to) ∷ []) e)
          (λ x h. s.or_nothing to p none w tt x h ∙ e))
        (to_all to ps, sym (append_assoc before ((p, to) ∷ []) (to_all to ps)))
        (λ w' e'.
          subst (λ t. Sends t (send_each linux s.send_payload to ps w'))
            (append_assoc before ((p, to) ∷ []) (to_all to ps))
            (send_each-Sends to ps w' (before ++ (p, to) ∷ []) e'))

  -- The branch of `send_packets` by its two tests.
  abbrev dispatch : Bool → Bool → SocketAddr → ℕ → List Packet → W → Result SendError (Unit {0}) × W
  dispatch use_gso many to n ps w =
      if not use_gso && many
      then send_each linux s.send_payload to ps w
      else or_each linux s.send_payload use_gso to ps
          (s.send_payload to (concat ps) (if use_gso then some n else none) w)

  dispatch-Sends :
      (use_gso many : Bool) (to : SocketAddr) (n : ℕ) (ps : List Packet) (w : W)
      → Fits n
      → chunks n (concat ps) ≡ ps
      → (many ≡ false → concat ps ∷ [] ≡ ps)
      → Sends (s.delivered w ++ to_all to ps) (dispatch use_gso many to n ps w)
  dispatch-Sends true many to n ps w fits cut single =
      or_each-Sends true (s.delivered w) to ps _
        (λ w' e. send_each-Sends to ps w' (s.delivered w) e)
        (λ h.
          s.sends_all to (concat ps) (some n) w fits h ∙ ap (λ t. s.delivered w ++ to_all to t) cut)
        (s.or_nothing to (concat ps) (some n) w fits)
  dispatch-Sends false true to n ps w fits cut single = send_each-Sends to ps w (s.delivered w) refl
  dispatch-Sends false false to n ps w fits cut single =
      one_send (s.delivered w) (to_all to ps) _
        (λ h.
          s.sends_all to (concat ps) none w tt h
          ∙ ap (λ t. s.delivered w ++ to_all to t) (single refl))
        (s.or_nothing to (concat ps) none w tt)

  single_packet :
      (p : Packet) (ps : List Packet)
      → ltb 1 (length (p ∷ ps)) ≡ false
      → concat (p ∷ ps) ∷ [] ≡ p ∷ ps
  unfolding concat
  single_packet p [] h = ap (λ t. t ∷ []) (append-nil p)
  single_packet p (q ∷ ps) h = absurd (ground arith)

  -- A batch of segments of at most 65535 bytes is delivered whole and in order, with or without offload; after a failure
  -- a part of it from the front has been delivered.
  pub send_packets-Sends :
      (to : SocketAddr) (n : ℕ) (p : Packet) (ps : List Packet) (w : W)
      → Fits n
      → IsSegmented n (p ∷ ps)
      → Sends
          (s.delivered w ++ to_all to (p ∷ ps))
          (send_packets linux s.send_payload to n (p ∷ ps) w)
  unfolding send_packets
  send_packets-Sends to n p ps w pos h =
      dispatch-Sends (linux && ltb 1 (length (p ∷ ps))) (ltb 1 (length (p ∷ ps))) to n (p ∷ ps) w
        pos (chunks-concat n (p ∷ ps) pos.0 h) (single_packet p ps)

  send_udp-on :
      (offload : Bool)
      → offload ≡ linux
      → (buf : Packet) (to : SocketAddr) (w : W)
      → Sends (s.delivered w ++ (buf, to) ∷ []) (send_udp linux s.send_payload buf to w)
  unfolding send_udp send_packets concat
  send_udp-on true e buf to w =
      rw (← e, append-nil buf)
        (one_send (s.delivered w) ((buf, to) ∷ []) (s.send_payload to buf none w)
          (s.sends_all to buf none w tt) (s.or_nothing to buf none w tt))
  send_udp-on false e buf to w =
      rw (← e, append-nil buf)
        (one_send (s.delivered w) ((buf, to) ∷ []) (s.send_payload to buf none w)
          (s.sends_all to buf none w tt) (s.or_nothing to buf none w tt))

  -- One datagram of any size, the empty one too, is delivered as it is, or the send fails.
  pub send_udp_lem :
      (buf : Packet) (to : SocketAddr) (w : W)
      → Sends (s.delivered w ++ (buf, to) ∷ []) (send_udp linux s.send_payload buf to w)
  send_udp_lem buf to w = send_udp-on linux refl buf to w
