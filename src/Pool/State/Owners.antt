-- ===== src/Pool/State/Owners.antt =====
-- What the operations on `Arc`s do to the owners of each allocation, to the permits, and to the
-- rest of the pool.
use eiger.Common.{
  ℕ, zero, suc, ◌+◌, ◌<◌, ◌==◌, ◌≡◌, refl, inl, inr, List, [], ◌∷◌, map, none, some, arith,
  get_elem?, set, if◌then◌else◌, Option-cases,
}
use eiger.Pool.{SessionEntry}
use eiger.Pool.Runtime.{Runtime}
use eiger.Pool.Heap.{delta, alive, owners_at, live}
use eiger.Pool.State.{Arc, SessionPool, update_entry, clone_arc, drop_counted, drop_arc}

abbrev pub strongs : List Arc → List ℕ
strongs = map (λ c. c.strong)

strongs-get_elem? :
    (cs : List Arc) (a : ℕ) {c : Arc}
    → get_elem? cs a ≡ some c
    → owners_at (strongs cs) a ≡ c.strong
strongs-get_elem? [] a e = cc
strongs-get_elem? (x ∷ cs) zero e = ground arith
strongs-get_elem? (x ∷ cs) (suc a) e = strongs-get_elem? cs a e

strongs-set :
    (cs : List Arc) (a : ℕ) (c d : Arc) (b : ℕ)
    → get_elem? cs a ≡ some c
    → owners_at (strongs (set cs a d)) b ≡ (if a == b then d.strong else owners_at (strongs cs) b)
strongs-set [] a c d b e = cc
strongs-set (x ∷ cs) zero c d zero e = ground arith
strongs-set (x ∷ cs) zero c d (suc b) e = ground arith
strongs-set (x ∷ cs) (suc a) c d zero e = ground arith
strongs-set (x ∷ cs) (suc a) c d (suc b) e = ground (arith, strongs-set cs a c d b e)

live-set :
    (cs : List Arc) (a : ℕ) (c d : Arc)
    → get_elem? cs a ≡ some c
    → live (strongs (set cs a d)) + alive c.strong ≡ live (strongs cs) + alive d.strong
live-set [] a c d e = cc
live-set (x ∷ cs) zero c d e = ground arith
live-set (x ∷ cs) (suc a) c d e = ground (arith, live-set cs a c d e)

out_of_range : (cs : List Arc) (a : ℕ) → get_elem? cs a ≡ none → owners_at (strongs cs) a ≡ 0
out_of_range [] a e = refl
out_of_range (x ∷ cs) zero e = cc
out_of_range (x ∷ cs) (suc a) e = out_of_range cs a e

module _ (rt : Runtime) where
  -- The number of owners of an address.
  abbrev pub own : SessionPool rt → ℕ → ℕ
  own s b = owners_at (strongs s.arcs) b

  -- The permits that are there or belong to an allocation.
  abbrev pub held : SessionPool rt → ℕ
  held s = rt.available s.semaphore + live (strongs s.arcs)

  -- An operation that leaves the map, the options and the number of permits as they are.
  pub record Keeps (s t : SessionPool rt) : Type 0 where
    pub same_sessions : t.sessions ≡ s.sessions
    pub same_options : t.options ≡ s.options
    pub same_held : held t ≡ held s

  pub Keeps-refl : (s : SessionPool rt) → Keeps s s
  Keeps-refl s = record { same_sessions = refl; same_options = refl; same_held = refl }

  pub update_entry-Keeps :
      (a : ℕ) (f : SessionEntry → SessionEntry) (s : SessionPool rt)
      → Keeps s (update_entry rt a f s)
  unfolding update_entry
  update_entry-Keeps a f s = elim (Option-cases (get_elem? s.arcs a)) [
    | inl e ↦ rw (e, update_entry) (Keeps-refl s)
    | inr (c, e) ↦
        rw (e, update_entry)
          (record {
            same_sessions = refl;
            same_options = refl;
            same_held = omega (arith, live-set s.arcs a c (record c { entry = f c.entry }) e);
          })
  ]

  pub own-update_entry :
      (a : ℕ) (f : SessionEntry → SessionEntry) (s : SessionPool rt) (b : ℕ)
      → own (update_entry rt a f s) b ≡ own s b
  unfolding update_entry
  own-update_entry a f s b = elim (Option-cases (get_elem? s.arcs a)) [
    | inl e ↦ rw (e, update_entry)
    | inr (c, e) ↦
        rw (e, update_entry)
          (ground (
            arith,
            strongs-set s.arcs a c (record c { entry = f c.entry }) b e,
            strongs-get_elem? s.arcs a e,
          ))
  ]

  pub own-clone_arc :
      (a : ℕ) (s : SessionPool rt) (b : ℕ)
      → 0 < own s a
      → own (clone_arc rt a s) b ≡ own s b + delta a b
  unfolding clone_arc
  own-clone_arc a s b h = elim (Option-cases (get_elem? s.arcs a)) [
    | inl e ↦ absurd (omega (arith, out_of_range s.arcs a e))
    | inr (c, e) ↦
        rw (e, clone_arc)
          (ground (
            arith,
            strongs-set s.arcs a c (record c { strong = suc c.strong }) b e,
            strongs-get_elem? s.arcs a e,
          ))
  ]

  pub clone_arc-Keeps : (a : ℕ) (s : SessionPool rt) → 0 < own s a → Keeps s (clone_arc rt a s)
  unfolding clone_arc
  clone_arc-Keeps a s h = elim (Option-cases (get_elem? s.arcs a)) [
    | inl e ↦ rw (e, clone_arc) (Keeps-refl s)
    | inr (c, e) ↦
        rw (e, clone_arc)
          (record {
            same_sessions = refl;
            same_options = refl;
            same_held = ground (
              arith,
              live-set s.arcs a c (record c { strong = suc c.strong }) e,
              strongs-get_elem? s.arcs a e,
            );
          })
  ]

  own-drop_counted :
      (a : ℕ) (c : Arc) (n : ℕ) (s : SessionPool rt) (b : ℕ)
      → get_elem? s.arcs a ≡ some c
      → c.strong ≡ n
      → 0 < n
      → own (drop_counted rt a c.entry n s) b + delta a b ≡ own s b
  unfolding drop_counted
  own-drop_counted a c zero s b e p h = absurd (omega arith)
  own-drop_counted a c (suc zero) s b e p h = ground (
    arith,
    strongs-set s.arcs a c (record { entry = c.entry; strong = 0 }) b e,
    strongs-get_elem? s.arcs a e,
  )
  own-drop_counted a c (suc (suc n)) s b e p h = ground (
    arith,
    strongs-set s.arcs a c (record { entry = c.entry; strong = suc n }) b e,
    strongs-get_elem? s.arcs a e,
  )

  drop_counted-Keeps :
      (a : ℕ) (c : Arc) (n : ℕ) (s : SessionPool rt)
      → get_elem? s.arcs a ≡ some c
      → c.strong ≡ n
      → Keeps s (drop_counted rt a c.entry n s)
  unfolding drop_counted
  drop_counted-Keeps a c zero s e p = Keeps-refl s
  drop_counted-Keeps a c (suc zero) s e p = record {
    same_sessions = refl;
    same_options = refl;
    same_held = ground (
      arith,
      live-set s.arcs a c (record { entry = c.entry; strong = 0 }) e,
      rt.available-release s.semaphore,
    );
  }
  drop_counted-Keeps a c (suc (suc n)) s e p = record {
    same_sessions = refl;
    same_options = refl;
    same_held = ground (arith, live-set s.arcs a c (record { entry = c.entry; strong = suc n }) e);
  }

  pub own-drop_arc :
      (a : ℕ) (s : SessionPool rt) (b : ℕ)
      → 0 < own s a
      → own (drop_arc rt a s) b + delta a b ≡ own s b
  unfolding drop_arc
  own-drop_arc a s b h = elim (Option-cases (get_elem? s.arcs a)) [
    | inl e ↦ absurd (omega (arith, out_of_range s.arcs a e))
    | inr (c, e) ↦
        rw (e, drop_arc)
          (own-drop_counted a c c.strong s b e refl (omega (arith, strongs-get_elem? s.arcs a e)))
  ]

  pub drop_arc-Keeps : (a : ℕ) (s : SessionPool rt) → Keeps s (drop_arc rt a s)
  unfolding drop_arc
  drop_arc-Keeps a s = elim (Option-cases (get_elem? s.arcs a)) [
    | inl e ↦ rw (e, drop_arc) (Keeps-refl s)
    | inr (c, e) ↦ rw (e, drop_arc) (drop_counted-Keeps a c c.strong s e refl)
  ]
