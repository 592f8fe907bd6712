-- ===== src/Pool/Maintenance/Recycles.antt =====
-- What a maintenance pass recycles, in every state that the pool reaches.
use eiger.Common.{
  ℕ, ◌≡◌, refl, inl, inr, List, [], ◌∷◌, ◌++◌, if◌then◌else◌, Bool-cases, Option-cases, ◌∙◌, arith,
  get_elem?,
}
use eiger.Config.{AppConfig}
use eiger.Pool.Runtime.{Runtime}
use eiger.Pool.State.{SessionPool, from_config, clone_arc}
use eiger.Pool.State.Owners.{Keeps-refl}
use eiger.Pool.Sessions.{entry_at}
use eiger.Pool.Sessions.Entries.{entry_at-clone_arc}
use eiger.Pool.Maintenance.{Probe, clone_all, maintenance_pass}
use eiger.Pool.Steps.Tidy.Keys.{has_key, Found, key_of_address}
use eiger.Pool.Maintenance.Pass.{remains, get-maintain_all, holdings, maintain_all-Inv}
use eiger.Pool.Steps.{Task, holding, Reach}
use eiger.Pool.Steps.Moves.{refs-remove}
use eiger.Pool.Steps.Invariant.{Inv, Inv-move, task_refs-append, permits_in_flight-append}
use eiger.Pool.Steps.Preservation.{clone-Inv, Reach-Inv}
use eiger.Pool.Steps.Capacity.{from_config-Inv}
use eiger.Pool.Steps.Tidy.{Tidy, sessions-clone_arc, clone_arc-Evolves, Evolves-Tidy}
use eiger.Pool.Steps.Tidy.Preservation.{from_config-Tidy, Reach-Tidy}

module _ (rt : Runtime) where
  options-clone_arc : (a : ℕ) (s : SessionPool rt) → (clone_arc rt a s).options ≡ s.options
  unfolding clone_arc
  options-clone_arc a s = elim (Option-cases (get_elem? s.arcs a)) [
    | inl e ↦ rw (e, clone_arc)
    | inr (c, e) ↦ rw (e, clone_arc)
  ]

  -- What the clones of a pass leave alone.
  record Cloned (s t : SessionPool rt) : Type 0 where
    same_sessions : t.sessions ≡ s.sessions
    same_options : t.options ≡ s.options
    same_entries : (b : ℕ) → entry_at rt t b ≡ entry_at rt s b
    tidy : (ts : List Task) → Tidy rt s ts → Tidy rt t ts

  clone_all-Cloned : (l : List (ℕ × ℕ)) (s : SessionPool rt) → Cloned s (clone_all rt l s)
  unfolding clone_all
  clone_all-Cloned [] s = record {
    same_sessions = refl;
    same_options = refl;
    same_entries = λ b. refl;
    tidy = λ ts y. y;
  }
  clone_all-Cloned ((id, a) ∷ l) s =
      let c = clone_all-Cloned l (clone_arc rt a s) in
      record {
        same_sessions = c.same_sessions ∙ sessions-clone_arc rt a s;
        same_options = c.same_options ∙ options-clone_arc a s;
        same_entries = λ b. c.same_entries b ∙ entry_at-clone_arc rt a s b;
        tidy = λ ts y. c.tidy ts (Evolves-Tidy rt (clone_arc-Evolves rt a s) ts y);
      }

  -- The order of the tasks does not matter.
  first_again :
      {max : ℕ} (s : SessionPool rt) (xs ts : List Task) (x : Task)
      → Inv rt max s (xs ++ x ∷ ts)
      → Inv rt max s ((x ∷ xs) ++ ts)
  first_again s xs ts x v =
      Inv-move rt (xs ++ x ∷ ts) ((x ∷ xs) ++ ts) v (Keeps-refl rt s)
        (omega (arith, permits_in_flight-append xs (x ∷ ts), permits_in_flight-append xs ts))
        λ b. omega (arith, task_refs-append b xs (x ∷ ts), task_refs-append b xs ts)

  clone_all-Inv :
      {max : ℕ} (l : List (ℕ × ℕ)) (s : SessionPool rt) (ts : List Task)
      → Found rt s l
      → Inv rt max s ts
      → Inv rt max (clone_all rt l s) (holdings l ++ ts)
  unfolding clone_all
  clone_all-Inv [] s ts f v = v
  clone_all-Inv ((id, a) ∷ l) s ts f v =
      let f' : Found rt (clone_arc rt a s) l = rw (sessions-clone_arc rt a s) f.1 in
      first_again _ (holdings l) ts (holding a)
        (clone_all-Inv l (clone_arc rt a s) (holding a ∷ ts) f' (clone-Inv rt s ts id a v f.0))

  module _ {F32 : Type 0} (probe : ℕ → Probe F32) {max : ℕ} (s : SessionPool rt) (ts : List Task)
      (v : Inv rt max s ts) (y : Tidy rt s ts) where
    remains-cloned :
        (j : ℕ) → remains rt probe (clone_all rt (rt.entries s.sessions) s) j ≡ remains rt probe s j
    remains-cloned j = elim (Option-cases (rt.get s.sessions j)) [
      | inl e ↦ rw (c.same_sessions, e)
      | inr (a, e) ↦ rw (c.same_sessions, e, c.same_entries a, c.same_options)
    ]
      where
        c : Cloned s (clone_all rt (rt.entries s.sessions) s)
        c = clone_all-Cloned (rt.entries s.sessions) s

    every_key :
        (j : ℕ)
        → (if has_key j (rt.entries s.sessions) then remains rt probe s j else rt.get s.sessions j)
          ≡ remains rt probe s j
    every_key j = elim (Option-cases (rt.get s.sessions j)) [
      | inl e ↦ elim (Bool-cases (has_key j (rt.entries s.sessions))) [
        | inl h ↦ rw h refl
        | inr h ↦ rw (h, e)
      ]
      | inr (a, e) ↦ rw (
          key_of_address rt s ts j a (rt.entries s.sessions) y e (rt.get-entries s.sessions)
            (ground (arith, refs-remove rt s.sessions j a a e)))
    ]

    pass-Inv : Inv rt max (maintenance_pass rt probe s) ts
    unfolding maintenance_pass
    pass-Inv =
        let es = rt.entries s.sessions in
        let c = clone_all-Cloned es s in
        let found = rt.get-entries s.sessions in
        maintain_all-Inv rt probe es (clone_all rt es s) ts ts (c.tidy ts y)
          (rw c.same_sessions found) v.once (clone_all-Inv es s ts found v)

    pass-get : (j : ℕ) → rt.get (maintenance_pass rt probe s).sessions j ≡ remains rt probe s j
    unfolding maintenance_pass
    pass-get j =
        let es = rt.entries s.sessions in
        let c = clone_all-Cloned es s in
        get-maintain_all rt probe es (clone_all rt es s) ts j (c.tidy ts y)
          (rw c.same_sessions (rt.get-entries s.sessions)) v.once
        ∙ rw (remains-cloned j, c.same_sessions) (every_key j)

  -- In every state that a new pool reaches under any interleaving of its tasks, a pass of the
  -- maintenance takes exactly those sessions out of the map that the checks find a reason to kill: each
  -- other session stays under its id with the entry it had. The pass keeps the accounts of permits and
  -- owners, so that it holds on to none of the entries that it went through.
  pub maintenance_pass_recycles :
      {F32 SocketAddr : Type 0} (config : AppConfig SocketAddr) (probe : ℕ → Probe F32)
      {s : SessionPool rt} {ts : List Task}
      → Reach rt (from_config rt config) [] s ts
      → Inv rt config.pool.max_concurrent_sessions (maintenance_pass rt probe s) ts
        × ((j : ℕ) → rt.get (maintenance_pass rt probe s).sessions j ≡ remains rt probe s j)
  maintenance_pass_recycles config probe {s} {ts} r =
      let v = Reach-Inv rt r (from_config-Inv rt config) in
      let y = Reach-Tidy rt r (from_config-Tidy rt config) in
      (pass-Inv probe s ts v y, pass-get probe s ts v y)
