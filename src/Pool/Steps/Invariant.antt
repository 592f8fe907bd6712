-- ===== src/Pool/Steps/Invariant.antt =====
-- The pool's accounts under any interleaving: every permit is there, with a request, or with a live
-- entry; every `Arc` is with the map or a task.
use eiger.Common.{ℕ, ◌+◌, ◌≤◌, ◌<◌, ◌≡◌, ap, String, List, [], ◌∷◌, ◌++◌, some, arith}
use eiger.Pool.Runtime.{Runtime}
use eiger.Pool.Heap.{delta, refs, live, owners_at}
use eiger.Pool.State.{SessionPool}
use eiger.Pool.State.Owners.{strongs, own, held, Keeps}
use eiger.Pool.Steps.{Task, admitted, holding, leaving, closing}
use eiger.Pool.Steps.Moves.{refs-remove}

abbrev pub task_ref : ℕ → Task → ℕ
task_ref b admitted = 0
task_ref b (holding a) = delta a b
task_ref b (leaving a reason) = delta a b
task_ref b (closing a reason) = delta a b

-- How many of the tasks own an `Arc` of an address.
abbrev pub task_refs : ℕ → List Task → ℕ
task_refs b [] = 0
task_refs b (t ∷ ts) = task_ref b t + task_refs b ts

abbrev pub has_permit : Task → ℕ
has_permit admitted = 1
has_permit (holding a) = 0
has_permit (leaving a reason) = 0
has_permit (closing a reason) = 0

-- How many of the tasks hold a permit that no entry has yet.
abbrev pub permits_in_flight : List Task → ℕ
permits_in_flight [] = 0
permits_in_flight (t ∷ ts) = has_permit t + permits_in_flight ts

pub task_refs-append :
    (b : ℕ) (xs ys : List Task) → task_refs b (xs ++ ys) ≡ task_refs b xs + task_refs b ys
task_refs-append b [] ys = omega arith
task_refs-append b (x ∷ xs) ys = omega (arith, task_refs-append b xs ys)

pub permits_in_flight-append :
    (xs ys : List Task) → permits_in_flight (xs ++ ys) ≡ permits_in_flight xs + permits_in_flight ys
permits_in_flight-append [] ys = omega arith
permits_in_flight-append (x ∷ xs) ys = omega (arith, permits_in_flight-append xs ys)

pub delta_self : (a : ℕ) → delta a a ≡ 1
delta_self a = ground arith

module _ (rt : Runtime) where
  pub record Inv (max : ℕ) (s : SessionPool rt) (ts : List Task) : Type 0 where
    pub configured : s.options.max_concurrent_sessions ≡ max
    pub permits : held rt s + permits_in_flight ts ≡ max
    pub owners : (b : ℕ) → own rt s b ≡ refs b (rt.entries s.sessions) + task_refs b ts
    pub once : (b : ℕ) → refs b (rt.entries s.sessions) ≤ 1

  -- A step that keeps the map and moves one owner between the tasks.
  pub Inv-move :
      {max : ℕ} {s t : SessionPool rt} (ts us : List Task)
      → Inv max s ts
      → Keeps rt s t
      → permits_in_flight us ≡ permits_in_flight ts
      → ((b : ℕ) → own rt t b + task_refs b ts ≡ own rt s b + task_refs b us)
      → Inv max t us
  Inv-move {s} {t} ts us v k p o = record {
    configured = omega (arith, v.configured, ap (λ x. x.max_concurrent_sessions) k.same_options);
    permits = omega (arith, v.permits, k.same_held);
    owners = λ b. omega (arith, v.owners b, o b, ap (λ m. refs b (rt.entries m)) k.same_sessions);
    once = λ b. omega (arith, v.once b, ap (λ m. refs b (rt.entries m)) k.same_sessions);
  }

  -- A step of the map's owner: the entry leaves the map for a task.
  pub Inv-terminate :
      {max : ℕ} {s : SessionPool rt} (ts : List Task) (id a : ℕ) (reason : String)
      → Inv max s ts
      → rt.get s.sessions id ≡ some a
      → Inv max (record s { sessions = rt.remove s.sessions id }) (closing a reason ∷ ts)
  Inv-terminate {s} ts id a reason v e = record {
    configured = v.configured;
    permits = omega (arith, v.permits);
    owners = λ b. omega (arith, v.owners b, refs-remove rt s.sessions id a b e);
    once = λ b. omega (arith, v.once b, refs-remove rt s.sessions id a b e);
  }

  pub Inv-take_out :
      {max : ℕ} {s : SessionPool rt} (ts : List Task) (id a : ℕ) (reason : String)
      → Inv max s ts
      → rt.get s.sessions id ≡ some a
      → Inv max (record s { sessions = rt.remove s.sessions id }) (leaving a reason ∷ ts)
  Inv-take_out ts id a reason v e =
      let w = Inv-terminate ts id a reason v e in
      record { configured = w.configured; permits = w.permits; owners = w.owners; once = w.once }

  -- A step that keeps the map, by a task that is another one after it, with the same owner.
  pub Inv-first :
      {max : ℕ} {s t : SessionPool rt} (before after : List Task) (x y : Task)
      → Inv max s (before ++ x ∷ after)
      → has_permit x ≡ has_permit y
      → ((b : ℕ) → task_ref b x ≡ task_ref b y)
      → Keeps rt s t
      → ((b : ℕ) → own rt t b ≡ own rt s b)
      → Inv max t (y ∷ before ++ after)
  Inv-first before after x y v p r k o =
      Inv-move (before ++ x ∷ after) (y ∷ before ++ after) v k
        (omega (
          arith,
          p,
          permits_in_flight-append before (x ∷ after),
          permits_in_flight-append before after,
        ))
        λ b.
          omega (
            arith,
            o b,
            r b,
            task_refs-append b before (x ∷ after),
            task_refs-append b before after,
          )

  pub owned_by_map :
      {max : ℕ} (s : SessionPool rt) (ts : List Task)
      → Inv max s ts
      → (b : ℕ) → refs b (rt.entries s.sessions) ≤ own rt s b
  owned_by_map s ts v b = omega (arith, v.owners b)

  pub owned_at :
      {max : ℕ} (s : SessionPool rt) (ts : List Task) (id a : ℕ)
      → Inv max s ts
      → rt.get s.sessions id ≡ some a
      → 0 < own rt s a
  owned_at s ts id a v e = ground (arith, v.owners a, refs-remove rt s.sessions id a a e)

  pub owned_by_task :
      {max : ℕ} (s : SessionPool rt) (before after : List Task) (t : Task) (a : ℕ)
      → Inv max s (before ++ t ∷ after)
      → task_ref a t ≡ 1
      → 0 < own rt s a
  owned_by_task s before after t a v e =
      omega (arith, v.owners a, task_refs-append a before (t ∷ after))

  -- The drop of an `Arc` that a task owns.
  pub Inv-drop :
      {max : ℕ} {s t : SessionPool rt} (before after : List Task) (x : Task) (a : ℕ)
      → Inv max s (before ++ x ∷ after)
      → has_permit x ≡ 0
      → ((b : ℕ) → task_ref b x ≡ delta a b)
      → Keeps rt s t
      → ((b : ℕ) → own rt t b + delta a b ≡ own rt s b)
      → Inv max t (before ++ after)
  Inv-drop {s} {t} before after x a v p r k o =
      Inv-move (before ++ x ∷ after) (before ++ after) v k
        (omega (
          arith,
          permits_in_flight-append before (x ∷ after),
          permits_in_flight-append before after,
        ))
        λ b.
          omega (
            arith,
            o b,
            r b,
            task_refs-append b before (x ∷ after),
            task_refs-append b before after,
          )

  -- A launch that fails gives its permit back.
  pub Inv-release :
      {max : ℕ} {s t : SessionPool rt} (before after : List Task)
      → Inv max s (before ++ admitted ∷ after)
      → t.sessions ≡ s.sessions
      → t.options ≡ s.options
      → t.arcs ≡ s.arcs
      → t.semaphore ≡ rt.release s.semaphore
      → Inv max t (before ++ after)
  Inv-release {s} {t} before after v m o c p = record {
    configured = omega (arith, v.configured, ap (λ x. x.max_concurrent_sessions) o);
    permits = omega (
      arith,
      v.permits,
      ap (λ x. live (strongs x)) c,
      ap rt.available p,
      rt.available-release s.semaphore,
      permits_in_flight-append before (admitted ∷ after),
      permits_in_flight-append before after,
    );
    owners = λ b. omega (
      arith,
      v.owners b,
      ap (λ x. owners_at (strongs x) b) c,
      ap (λ x. refs b (rt.entries x)) m,
      task_refs-append b before (admitted ∷ after),
      task_refs-append b before after,
    );
    once = λ b. omega (arith, v.once b, ap (λ x. refs b (rt.entries x)) m);
  }
