-- ===== src/Pool/Maintenance/Pass.antt =====
-- What a whole maintenance pass does to the pool.
use eiger.Common.{
  ℕ, ◌≤◌, ◌==◌, ◌≡◌, refl, inl, inr, true, false, List, [], ◌∷◌, ◌++◌, Option, none, some, and_then,
  if◌then◌else◌, Bool-cases, Option-cases, ◌∙◌, subst, ==_iff, ==_refl, All, arith,
}
use eiger.Pool.Runtime.{Runtime}
use eiger.Pool.Heap.{refs}
use eiger.Pool.State.{SessionPool}
use eiger.Pool.Sessions.{entry_at}
use eiger.Pool.Maintenance.{Probe, maintain, maintain_all}
use eiger.Pool.Maintenance.Round.{
  overdue, Maintained, maintain-Maintained, maintain-Tidy, maintain-Inv,
}
use eiger.Pool.Steps.{Task, holding}
use eiger.Pool.Steps.Invariant.{Inv}
use eiger.Pool.Steps.Tidy.{Tidy, Listed}
use eiger.Pool.Steps.Tidy.Map.{listed_once}
use eiger.Pool.Steps.Tidy.Keys.{has_key, Found, other_keys, no_key}

-- The clones of the pairs, as tasks.
abbrev pub holdings : List (ℕ × ℕ) → List Task
holdings [] = []
holdings ((id, a) ∷ l) = holding a ∷ holdings l

module _ (rt : Runtime) {F32 : Type 0} (probe : ℕ → Probe F32) where
  abbrev pub spared : SessionPool rt → ℕ → ℕ → Option ℕ
  spared s j a =
      and_then (entry_at rt s a) λ e. if overdue s.options (probe j) e then none else some a

  -- What is left of a session after a pass.
  abbrev pub remains : SessionPool rt → ℕ → Option ℕ
  remains s j = and_then (rt.get s.sessions j) (spared s j)

  -- One round, at the pair of a key and an address that the map finds.
  module _ (s : SessionPool rt) (ts : List Task) (id a : ℕ) (y : Tidy rt s ts)
      (g : rt.get s.sessions id ≡ some a) where
    there : Listed rt s id a
    there = y.listed id a g

    rounds : Maintained rt (probe id) id a there.entry s (maintain rt (probe id) a s)
    rounds =
        subst (λ k. Maintained rt (probe id) k a there.entry s (maintain rt (probe id) a s))
          there.own_id
          (maintain-Maintained rt (probe id) a there.entry s (rw there.own_id g) there.there
            there.not_going)

    round-Tidy : Tidy rt (maintain rt (probe id) a s) ts
    round-Tidy =
        maintain-Tidy rt (probe id) a there.entry s (rw there.own_id g) ts there.there
          there.not_going y

    remains_self : rt.get (maintain rt (probe id) a s).sessions id ≡ remains s id
    remains_self = rounds.map_after id ∙ rw (==_refl id, g, there.there)

    remains_other :
        (j : ℕ) → (id == j) ≡ false → remains (maintain rt (probe id) a s) j ≡ remains s j
    remains_other j h = elim (Option-cases (rt.get s.sessions j)) [
      | inl e ↦ rw (rounds.map_after j, h, e)
      | inr (b, e) ↦ elim (Bool-cases (a == b)) [
        | inl k ↦
            let same : id ≡ j = listed_once rt s ts id j a y g (rw ((==_iff a b).0 k) e) in
            let hit : (id == j) ≡ true = (==_iff id j).1 same in cc
        | inr k ↦ rw (rounds.map_after j, h, e, rounds.others b k, rounds.same_options)
      ]
    ]

    Found-round :
        (l : List (ℕ × ℕ))
        → All (λ p. (id == p.0) ≡ false) l
        → Found rt s l
        → Found rt (maintain rt (probe id) a s) l
    Found-round [] h f = tt
    Found-round ((k, b) ∷ l) h f = (rw (rounds.map_after k, h.0) f.0, Found-round l h.1 f.1)

  alone : (id a : ℕ) (l : List (ℕ × ℕ)) → refs a ((id, a) ∷ l) ≤ 1 → refs a l ≡ 0
  alone id a l h = ground arith

  rest_once : (id a b : ℕ) (l : List (ℕ × ℕ)) → refs b ((id, a) ∷ l) ≤ 1 → refs b l ≤ 1
  rest_once id a b l h = omega arith

  pub get-maintain_all :
      (l : List (ℕ × ℕ)) (s : SessionPool rt) (ts : List Task) (j : ℕ)
      → Tidy rt s ts
      → Found rt s l
      → ((b : ℕ) → refs b l ≤ 1)
      → rt.get (maintain_all rt probe l s).sessions j
        ≡ (if has_key j l then remains s j else rt.get s.sessions j)
  unfolding maintain_all
  get-maintain_all [] s ts j y f once = refl
  get-maintain_all ((id, a) ∷ l) s ts j y f once =
      let apart = other_keys rt s id a l f.0 (alone id a l (once a)) f.1 in
      let t = maintain rt (probe id) a s in
      let later =
        get-maintain_all l t ts j (round-Tidy s ts id a y f.0)
          (Found-round s ts id a y f.0 l apart f.1) (λ b. rest_once id a b l (once b)) in
      elim (Bool-cases (id == j)) [
        | inl e ↦
            let same : id ≡ j = (==_iff id j).0 e in
            rw e (later ∙ rw (← same, no_key rt id l apart) (remains_self s ts id a y f.0))
        | inr e ↦ rw e (
            later ∙ rw (remains_other s ts id a y f.0 j e, (rounds s ts id a y f.0).map_after j, e))
      ]

  pub maintain_all-Inv :
      {max : ℕ} (l : List (ℕ × ℕ)) (s : SessionPool rt) (ts us : List Task)
      → Tidy rt s us
      → Found rt s l
      → ((b : ℕ) → refs b l ≤ 1)
      → Inv rt max s (holdings l ++ ts)
      → Inv rt max (maintain_all rt probe l s) ts
  unfolding maintain_all
  maintain_all-Inv [] s ts us y f once v = v
  maintain_all-Inv ((id, a) ∷ l) s ts us y f once v =
      let apart = other_keys rt s id a l f.0 (alone id a l (once a)) f.1 in
      let t = maintain rt (probe id) a s in
      let e = y.listed id a f.0 in
      maintain_all-Inv l t ts us (round-Tidy s us id a y f.0)
        (Found-round s us id a y f.0 l apart f.1) (λ b. rest_once id a b l (once b))
        (maintain-Inv rt (probe id) a e.entry s (rw e.own_id f.0) (holdings l ++ ts) e.there
          e.not_going v)
