-- ===== src/Io/Raw/Waiting.antt =====
-- The loop of the sends in src/io.rs: it tries again for as long as the socket blocks.
use zeromasque.Prelude.{ℕ, zero, suc, ◌<◌, ◌≡◌, ◌∙◌, ap, some, true, false, arith}
use zeromasque.Prelude.Result.{Result, ok, err}
use zeromasque.Io.Raw.{
  Kernel, IoError, is_would_block, after_wait, after_attempt, by_kind, until_sent,
}

module _ {W : Type 0} (k : Kernel W) (attempt : W → Result IoError (Unit {0}) × W) where
  -- A number of times, the attempt blocks and the socket is writable again.
  pub data Blocks : ℕ → W → W → Type 0 where
    never : (w : W) → Blocks zero w w
    once_more :
        (n : ℕ) (e : IoError) (u v w x : W)
        → attempt u ≡ (err e, v)
        → is_would_block e ≡ true
        → k.writable v ≡ (ok tt, w)
        → Blocks n w x
        → Blocks (suc n) u x

  -- How the last attempt ends: it succeeds, it fails, or the wait behind it fails.
  pub data Settles : W → Result IoError (Unit {0}) × W → Type 0 where
    succeeds : (u v : W) → attempt u ≡ (ok tt, v) → Settles u (ok tt, v)
    fails :
        (e : IoError) (u v : W)
        → attempt u ≡ (err e, v)
        → is_would_block e ≡ false
        → Settles u (err e, v)
    wait_fails :
        (e f : IoError) (u v w : W)
        → attempt u ≡ (err e, v)
        → is_would_block e ≡ true
        → k.writable v ≡ (err f, w)
        → Settles u (err f, w)

  settled :
      (fuel : ℕ) (w : W) (r : Result IoError (Unit {0}) × W)
      → Settles w r
      → until_sent k attempt (suc fuel) w ≡ some r
  unfolding until_sent
  settled fuel w r (succeeds _ v e) = ap (after_attempt k (λ x. until_sent k attempt fuel x)) e
  settled fuel w r (fails e _ v h b) =
      ap (after_attempt k (λ x. until_sent k attempt fuel x)) h
      ∙ ap (λ t. by_kind k (λ x. until_sent k attempt fuel x) e t v) b
  settled fuel w r (wait_fails e f _ v x h b g) =
      ap (after_attempt k (λ y. until_sent k attempt fuel y)) h
      ∙ ap (λ t. by_kind k (λ y. until_sent k attempt fuel y) e t v) b
      ∙ ap (after_wait k (λ y. until_sent k attempt fuel y)) g

  -- Where the socket blocks `n` times and the attempt then ends, the loop ends with what that attempt
  -- gave, or with the failure of the wait behind it, on any fuel above `n`.
  pub until_sent-Settles :
      (n fuel : ℕ) (u v : W) (r : Result IoError (Unit {0}) × W)
      → Blocks n u v
      → Settles v r
      → n < fuel
      → until_sent k attempt fuel u ≡ some r
  unfolding until_sent
  until_sent-Settles n zero u v r b s h = absurd (omega (arith, h))
  until_sent-Settles n (suc fuel) u v r (never _) s h = settled fuel u r s
  until_sent-Settles n (suc fuel) u v r (once_more m e _ x y _ a c d b) s h =
      ap (after_attempt k (λ z. until_sent k attempt fuel z)) a
      ∙ ap (λ t. by_kind k (λ z. until_sent k attempt fuel z) e t x) c
      ∙ ap (after_wait k (λ z. until_sent k attempt fuel z)) d
      ∙ until_sent-Settles m fuel y v r b s (omega (arith, h))
