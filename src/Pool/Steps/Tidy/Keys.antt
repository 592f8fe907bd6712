-- ===== src/Pool/Steps/Tidy/Keys.antt =====
-- The keys of the pairs that the map of sessions goes through.
use eiger.Common.{
  ℕ, ◌≤◌, ◌==◌, ◌≡◌, refl, inl, inr, Bool, true, false, List, [], ◌∷◌, some, Bool-cases, ==_iff,
  All, any, arith,
}
use eiger.Pool.Runtime.{Runtime}
use eiger.Pool.Heap.{refs}
use eiger.Pool.State.{SessionPool}
use eiger.Pool.Steps.{Task}
use eiger.Pool.Steps.Tidy.{Tidy}
use eiger.Pool.Steps.Tidy.Map.{listed_once}

-- The pairs of a key and an address that have a key.
abbrev pub has_key : ℕ → List (ℕ × ℕ) → Bool
has_key j l = any (λ p. p.0 == j) l

module _ (rt : Runtime) where
  -- The map finds each of the pairs.
  abbrev pub Found : SessionPool rt → List (ℕ × ℕ) → Type 0
  Found s l = All (λ p. rt.get s.sessions p.0 ≡ some p.1) l

  -- No pair has the key of an address that none of them has.
  pub other_keys :
      (s : SessionPool rt) (id a : ℕ) (l : List (ℕ × ℕ))
      → rt.get s.sessions id ≡ some a
      → refs a l ≡ 0
      → Found s l
      → All (λ p. (id == p.0) ≡ false) l
  other_keys s id a [] g h f = tt
  other_keys s id a ((k, b) ∷ l) g h f = elim (Bool-cases (id == k)) [
    | inl e ↦
        let same : some b ≡ some a = rw (← f.0, ← (==_iff id k).0 e) g in
        let here : b ≡ a = cc in absurd (ground (arith, here))
    | inr e ↦ (e, other_keys s id a l g (ground arith) f.1)
  ]

  pub no_key : (id : ℕ) (l : List (ℕ × ℕ)) → All (λ p. (id == p.0) ≡ false) l → has_key id l ≡ false
  no_key id [] h = refl
  no_key id ((k, b) ∷ l) h = ground (arith, h.0, no_key id l h.1)

  -- A pair of an address that one key has is a pair of that key.
  pub key_of_address :
      (s : SessionPool rt) (ts : List Task) (j a : ℕ) (l : List (ℕ × ℕ))
      → Tidy rt s ts
      → rt.get s.sessions j ≡ some a
      → Found s l
      → 1 ≤ refs a l
      → has_key j l ≡ true
  key_of_address s ts j a [] y g f h = absurd (omega arith)
  key_of_address s ts j a ((k, b) ∷ l) y g f h = elim (Bool-cases (b == a)) [
    | inl e ↦
        let same : k ≡ j = listed_once rt s ts k j a y (rw (← (==_iff b a).0 e) f.0) g in
        rw ((==_iff k j).1 same)
    | inr e ↦ ground (arith, key_of_address s ts j a l y g f.1)
  ]
