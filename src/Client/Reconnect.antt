-- ===== src/Client/Reconnect.antt =====
-- The backoff of `run_proxy` in src/client.rs.
use zeromasque.Prelude.{
  ℕ, zero, suc, ◌*◌, ◌^◌, ◌≤◌, ◌≡◌, refl, ◌∙◌, ap, List, [], ◌∷◌, some, Bool, true, false, min,
  arith, All, get_elem?, leb, Bool-cases, inl, inr,
}
use native.Mathlib.Nat.{pow-suc}
use zeromasque.Client.{reconnect_min, reconnect_max, next_backoff, waits}

abbrev pub InBounds : ℕ → Type 0
InBounds w = (reconnect_min ≤ w) × (w ≤ reconnect_max)

next_backoff-InBounds :
    (e : Bool) (b : ℕ) → InBounds b → InBounds (next_backoff e b).0 × InBounds (next_backoff e b).1
unfolding next_backoff
next_backoff-InBounds true b h = ((omega arith, omega arith), (omega arith, omega arith))
next_backoff-InBounds false b h = (h, (omega arith, omega arith))

-- From a wait in bounds on, every wait between two sessions is between 100 milliseconds and 5 seconds.
pub waits-InBounds : (b : ℕ) (sessions : List Bool) → InBounds b → All InBounds (waits b sessions)
unfolding waits
waits-InBounds b [] h = tt
waits-InBounds b (e ∷ sessions) h =
    let (now, next) = next_backoff-InBounds e b h in
    (now, waits-InBounds (next_backoff e b).1 sessions next)

abbrev pub failures : ℕ → List Bool → List Bool
failures zero after = after
failures (suc n) after = false ∷ failures n after

mul_pow_suc : (x n : ℕ) → x * 2 * 2 ^ n ≡ x * 2 ^ suc n
mul_pow_suc x n = grind (arith, pow-suc 2 n)

le-mul_pow : (x n : ℕ) → x ≤ x * 2 ^ n
le-mul_pow x zero = omega arith
le-mul_pow x (suc n) = grind (arith, le-mul_pow x n, mul_pow_suc x n)

doubled :
    (n b : ℕ)
    → min (min (b * 2) reconnect_max * 2 ^ n) reconnect_max ≡ min (b * 2 ^ suc n) reconnect_max
doubled n b = elim (Bool-cases (leb (b * 2) reconnect_max)) [
  | inl le ↦
      let here : min (b * 2) reconnect_max ≡ b * 2 = ground (arith, le) in
      ap (λ x. min (x * 2 ^ n) reconnect_max) here ∙ ap (λ x. min x reconnect_max) (mul_pow_suc b n)
  | inr gt ↦
      let here : min (b * 2) reconnect_max ≡ reconnect_max = ground (arith, gt) in
      let big : reconnect_max ≤ b * 2 = ground (arith, gt) in
      ap (λ x. min (x * 2 ^ n) reconnect_max) here
      ∙ omega (arith, le-mul_pow reconnect_max n, le-mul_pow (b * 2) n, mul_pow_suc b n)
]

-- After `n` failed sessions in a row, which began with the wait `b`, the wait is `b` doubled `n`
-- times, or 5 seconds where that is more.
pub waits-failures :
    (n b : ℕ) (after : List Bool)
    → b ≤ reconnect_max
    → get_elem? (waits b (failures n (false ∷ after))) n ≡ some (min (b * 2 ^ n) reconnect_max)
unfolding waits next_backoff
waits-failures zero b after h = ap some (omega arith)
waits-failures (suc n) b after h =
    waits-failures n (min (b * 2) reconnect_max) after (omega arith) ∙ ap some (doubled n b)

-- The waits, where the next one is 100 milliseconds doubled `n` times, unless the tunnel was established.
abbrev pub doubled_waits : ℕ → List Bool → List ℕ
doubled_waits n [] = []
doubled_waits n (true ∷ sessions) = 100 ∷ doubled_waits 1 sessions
doubled_waits n (false ∷ sessions) = min (100 * 2 ^ n) 5000 ∷ doubled_waits (suc n) sessions

next_doubled : (n : ℕ) → min (min (100 * 2 ^ n) 5000 * 2) 5000 ≡ min (100 * 2 ^ suc n) 5000
next_doubled n = omega (arith, mul_pow_suc 100 n)

pub waits-doubled_waits :
    (n : ℕ) (sessions : List Bool)
    → waits (min (100 * 2 ^ n) 5000) sessions ≡ doubled_waits n sessions
unfolding waits next_backoff
waits-doubled_waits n [] = refl
waits-doubled_waits n (true ∷ sessions) = ap (◌∷◌ 100) (waits-doubled_waits 1 sessions)
waits-doubled_waits n (false ∷ sessions) =
    ap (λ b. min (100 * 2 ^ n) 5000 ∷ waits b sessions) (next_doubled n)
    ∙ ap (◌∷◌ (min (100 * 2 ^ n) 5000)) (waits-doubled_waits (suc n) sessions)
