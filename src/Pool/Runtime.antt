-- ===== src/Pool/Runtime.antt =====
-- What the pool takes from other crates: tokio's `Semaphore` and dashmap's `DashMap`, as operations
-- with the laws that their documentation gives.
use mathlib.Core.List.{Perm}
use eiger.Common.{ℕ, suc, ◌==◌, ◌≡◌, List, [], ◌∷◌, Option, none, some, if◌then◌else◌, length, All}

-- A map of sessions has the addresses of entries for values.
pub record Runtime : Type 1 where
  pub Permits : Type 0
  -- `Semaphore::new`, which panics on more permits than `MAX_PERMITS`
  pub permits : ℕ → Permits
  -- `available_permits`
  pub available : Permits → ℕ
  -- a permit that `acquire_owned` gets without waiting
  pub acquire : Permits → Option Permits
  -- the drop of an `OwnedSemaphorePermit`
  pub release : Permits → Permits
  pub available-permits : (n : ℕ) → available (permits n) ≡ n
  pub available-acquire : (p q : Permits) → acquire p ≡ some q → available p ≡ suc (available q)
  pub acquire_none : (p : Permits) → acquire p ≡ none → available p ≡ 0
  pub available-release : (p : Permits) → available (release p) ≡ suc (available p)
  pub Sessions : Type 0
  -- `DashMap::new`
  pub no_sessions : Sessions
  pub get : Sessions → ℕ → Option ℕ
  pub insert : Sessions → ℕ → ℕ → Sessions
  pub remove : Sessions → ℕ → Sessions
  -- what `iter` goes through
  pub entries : Sessions → List (ℕ × ℕ)
  -- `len`
  pub count : Sessions → ℕ
  pub get-insert :
      (m : Sessions) (k a j : ℕ) → get (insert m k a) j ≡ (if k == j then some a else get m j)
  pub get-remove :
      (m : Sessions) (k j : ℕ) → get (remove m k) j ≡ (if k == j then none else get m j)
  pub entries-no_sessions : entries no_sessions ≡ []
  pub entries-insert :
      (m : Sessions) (k a : ℕ) → Perm (entries (insert m k a)) ((k, a) ∷ entries (remove m k))
  pub entries_at :
      (m : Sessions) (k a : ℕ) → get m k ≡ some a → Perm (entries m) ((k, a) ∷ entries (remove m k))
  pub entries_missing : (m : Sessions) (k : ℕ) → get m k ≡ none → entries (remove m k) ≡ entries m
  pub count-entries : (m : Sessions) → count m ≡ length (entries m)
  -- an entry that `iter` goes through is what `get` finds under its key
  pub get-entries : (m : Sessions) → All (λ p. get m p.0 ≡ some p.1) (entries m)
