-- ===== src/Browser/Ready/Ending.antt =====
-- The wait for a browser ends.
use eiger.Common.{
  ℕ, zero, suc, ◌+◌, ◌*◌, ◌/◌, ◌<◌, ◌≤◌, ◌≡◌, refl, ◌⊎◌, inl, inr, String, false, Option, none,
  some, Result, ok, err, arith, ltb, Bool-cases,
}
use eiger.Browser.{BrowserError, launch_timed_out}
use eiger.Browser.Ready.{BrowserReady, Poll, poll_once, after_poll, wait_from, wait_until_ready}

module _ (show_duration : ℕ → String) (polls : ℕ → Poll) (pid launch_timeout : ℕ) where
  -- Where a result comes from.
  abbrev pub ComesFrom : Result BrowserReady BrowserError → Type 0
  ComesFrom (ok ready) =
      (k : ℕ) × ((polls k).elapsed < launch_timeout) × (poll_once (polls k) pid ≡ ok (some ready))
  ComesFrom (err e) =
      (k : ℕ) × ((((polls k).elapsed < launch_timeout) × (poll_once (polls k) pid ≡ err e))
        ⊎ ((launch_timeout ≤ (polls k).elapsed)
            × (e ≡ launch_timed_out (show_duration launch_timeout))))

  abbrev Ends : Option (Result BrowserReady BrowserError) → Type 0
  Ends o = (r : Result BrowserReady BrowserError) × (o ≡ some r) × ComesFrom r

  after_poll-Ends :
      (k : ℕ) (o : Result (Option BrowserReady) BrowserError)
      (rest : Option (Result BrowserReady BrowserError))
      → (polls k).elapsed < launch_timeout
      → poll_once (polls k) pid ≡ o
      → Ends rest
      → Ends (after_poll o rest)
  after_poll-Ends k (err e) rest h q v = (err e, refl, (k, inl (h, q)))
  after_poll-Ends k (ok (some ready)) rest h q v = (ok ready, refl, (k, h, q))
  after_poll-Ends k (ok none) rest h q v = v

  timed_out :
      (k : ℕ)
      → launch_timeout ≤ (polls k).elapsed
      → ComesFrom (err (launch_timed_out (show_duration launch_timeout)))
  timed_out k h = (k, inr (h, refl))

  wait_from-Ends :
      (fuel k : ℕ)
      → ((j : ℕ) → j * 100_000_000 ≤ (polls j).elapsed)
      → launch_timeout ≤ (fuel + k) * 100_000_000
      → Ends (wait_from show_duration polls pid launch_timeout (suc fuel) k)
  unfolding wait_from
  wait_from-Ends zero k slept enough =
      let late : ltb (polls k).elapsed launch_timeout ≡ false = ground (arith, slept k) in
      rw (late, wait_from) (_, refl, timed_out k (omega (arith, slept k)))
  wait_from-Ends (suc fuel) k slept enough =
      elim (Bool-cases (ltb (polls k).elapsed launch_timeout)) [
        | inl h ↦
            rw (h, wait_from)
              (after_poll-Ends k (poll_once (polls k) pid) _ (ground arith) refl
                (wait_from-Ends fuel (k + 1) slept (omega arith)))
        | inr h ↦ rw (h, wait_from) (_, refl, timed_out k (ground arith))
      ]

  -- Where each round of the wait begins at least 100 ms after the one before, the wait ends within its
  -- fuel. A browser that it returns was ready in a round that began within the limit; an error is that of
  -- such a round, or says that the limit was reached in a round that began after it.
  pub wait_until_ready-Ends :
      ((j : ℕ) → j * 100_000_000 ≤ (polls j).elapsed)
      → (r : Result BrowserReady BrowserError) × (wait_until_ready show_duration polls pid
            launch_timeout
          ≡ some r)
        × ComesFrom r
  unfolding wait_until_ready
  wait_until_ready-Ends slept =
      wait_from-Ends (launch_timeout / 100_000_000 + 1) 0 slept (omega arith)
