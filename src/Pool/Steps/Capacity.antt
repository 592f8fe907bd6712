-- ===== src/Pool/Steps/Capacity.antt =====
-- What the accounts mean for the pool: its bound, and that no permit is lost.
use eiger.Common.{ℕ, suc, ◌+◌, ◌≤◌, ◌<◌, ◌≡◌, refl, ap, List, [], ◌∷◌, arith}
use eiger.Config.{AppConfig}
use eiger.Pool.Runtime.{Runtime}
use eiger.Pool.Heap.{refs, alive, owners_at, live, length-le-live}
use eiger.Pool.State.{SessionPool, from_config}
use eiger.Pool.State.Owners.{strongs, own}
use eiger.Pool.Steps.{Task, Reach}
use eiger.Pool.Steps.Invariant.{Inv, permits_in_flight}
use eiger.Pool.Steps.Preservation.{Reach-Inv}

alive_of_pos : (n : ℕ) → 0 < n → alive n ≡ 1
alive_of_pos n h = ground arith

no_owner : (ns : List ℕ) → ((b : ℕ) → owners_at ns b ≡ 0) → live ns ≡ 0
no_owner [] h = refl
no_owner (n ∷ ns) h = ground (arith, h 0, no_owner ns (λ b. h (suc b)))

module _ (rt : Runtime) {SocketAddr : Type 0} (config : AppConfig SocketAddr) where
  -- A new pool has its permits, and no entry.
  pub from_config-Inv : Inv rt config.pool.max_concurrent_sessions (from_config rt config) []
  unfolding from_config
  from_config-Inv = record {
    configured = refl;
    permits = omega (arith, rt.available-permits config.pool.max_concurrent_sessions);
    owners = λ b. omega (arith, ap (refs b) rt.entries-no_sessions);
    once = λ b. omega (arith, ap (refs b) rt.entries-no_sessions);
  }

  -- In every state that a new pool reaches under any interleaving of its tasks, the free permits, the
  -- live entries and the requests that are launching a browser add up to the configured maximum.
  pub Reach-permits :
      {s : SessionPool rt} {ts : List Task}
      → Reach rt (from_config rt config) [] s ts
      → rt.available s.semaphore + live (strongs s.arcs) + permits_in_flight ts
        ≡ config.pool.max_concurrent_sessions
  Reach-permits r = (Reach-Inv rt r from_config-Inv).permits

  -- In every state that a new pool reaches under any interleaving of its tasks, the map holds no more
  -- sessions than there are live entries, and no more than the configured maximum.
  pub count-le-max :
      {s : SessionPool rt} {ts : List Task}
      → Reach rt (from_config rt config) [] s ts
      → (rt.count s.sessions ≤ live (strongs s.arcs))
        × (rt.count s.sessions ≤ config.pool.max_concurrent_sessions)
  count-le-max {s} {ts} r = (omega (arith, fits), omega (arith, fits, v.permits))
    where
      v : Inv rt config.pool.max_concurrent_sessions s ts
      v = Reach-Inv rt r from_config-Inv

      single : (b : ℕ) → refs b (rt.entries s.sessions) ≤ alive (own rt s b)
      single b = ground (arith, v.once b, v.owners b)

      fits : rt.count s.sessions ≤ live (strongs s.arcs)
      fits = omega (
        arith,
        rt.count-entries s.sessions,
        length-le-live (strongs s.arcs) (rt.entries s.sessions) single,
      )

  -- In every state that a new pool reaches where no task is in flight and the map is empty, every
  -- permit is free again.
  all_permits_return :
      {s : SessionPool rt}
      → Reach rt (from_config rt config) [] s []
      → rt.entries s.sessions ≡ []
      → rt.available s.semaphore ≡ config.pool.max_concurrent_sessions
  all_permits_return {s} r e = omega (arith, v.permits, no_owner (strongs s.arcs) unowned)
    where
      v : Inv rt config.pool.max_concurrent_sessions s []
      v = Reach-Inv rt r from_config-Inv

      unowned : (b : ℕ) → own rt s b ≡ 0
      unowned b = omega (arith, v.owners b, ap (refs b) e)
