-- ===== src/Client/Backoff.antt =====
-- The waits of src/client.rs between two sessions.
use zeromasque.Prelude.{ℕ, ◌*◌, List, [], ◌∷◌, Bool, min, if◌then◌else◌}

-- In milliseconds.
abbrev pub reconnect_min : ℕ
reconnect_min = 100

abbrev pub reconnect_max : ℕ
reconnect_max = 5000

-- The next wait of `run_proxy`, and the one after it, by whether the session was established.
unfoldable pub next_backoff : Bool → ℕ → ℕ × ℕ
next_backoff established backoff =
    let backoff' = if established then reconnect_min else backoff in
    (backoff', min (backoff' * 2) reconnect_max)

-- The waits of the sessions so far, the first wait being `backoff`.
unfoldable pub waits : ℕ → List Bool → List ℕ
unfolding next_backoff
waits backoff [] = []
waits backoff (established ∷ sessions) =
    let (wait, next) = next_backoff established backoff in wait ∷ waits next sessions
