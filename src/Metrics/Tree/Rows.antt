-- ===== src/Metrics/Tree/Rows.antt =====
-- The relation of a process to its descendants, read off the rows.
use eiger.Common.{
  none, ◌≤◌, ℕ, zero, suc, ◌<◌, ◌≡◌, refl, ◌⊎◌, inl, inr, true, ◌||◌, List, [], ◌∷◌, ◌++◌, some,
  All, arith, contains, ◌==◌, length, get_elem?, Bool-cases,
}
use eiger.Metrics.Tree.{Row}

module _ {F32 : Type 0} where
  -- Some row says that `c` is a child of `p`.
  abbrev pub Child : List (Row F32) → ℕ → ℕ → Type 0
  Child [] p c = ⊥
  Child (r ∷ rows) p c = ((r.parent_pid ≡ p) × (r.child_pid ≡ c)) ⊎ Child rows p c

  pub data Descends (rows : List (Row F32)) (pid : ℕ) : ℕ → Type 0 where
    self : Descends rows pid pid
    child : {p c : ℕ} → Descends rows pid p → Child rows p c → Descends rows pid c

  -- Every row of a part is among the rows.
  abbrev pub Among : List (Row F32) → List (Row F32) → Type 0
  Among rows = All (λ r. Child rows r.parent_pid r.child_pid)

  Among-cons : (r : Row F32) (rows part : List (Row F32)) → Among rows part → Among (r ∷ rows) part
  Among-cons r rows [] h = tt
  Among-cons r rows (x ∷ part) h = (inr h.0, Among-cons r rows part h.1)

  pub Among-self : (rows : List (Row F32)) → Among rows rows
  Among-self [] = tt
  Among-self (r ∷ rows) = (inl (refl, refl), Among-cons r rows rows (Among-self rows))

  pub All-Child :
      (P : Row F32 → Type 0) (rows : List (Row F32)) {p c : ℕ}
      → All P rows
      → Child rows p c
      → (r : Row F32) × P r × (r.parent_pid ≡ p) × (r.child_pid ≡ c)
  All-Child P (r ∷ rows) h (inl e) = (r, h.0, e.0, e.1)
  All-Child P (r ∷ rows) h (inr m) = All-Child P rows h.1 m
  All-Child P [] h m = absurd m

pub contains-concat :
    (xs : List ℕ) (x a : ℕ) → contains (xs ++ x ∷ []) a ≡ (contains xs a || x == a)
contains-concat [] x a = ground arith
contains-concat (y ∷ xs) x a = ground (arith, contains-concat xs x a)

pub get_elem?-append :
    (xs ys : List ℕ) (i : ℕ) → i < length xs → get_elem? (xs ++ ys) i ≡ get_elem? xs i
get_elem?-append [] ys i h = absurd (omega arith)
get_elem?-append (x ∷ xs) ys zero h = refl
get_elem?-append (x ∷ xs) ys (suc i) h = get_elem?-append xs ys i (omega arith)

-- Where an element stands.
pub index_of :
    (xs : List ℕ) (a : ℕ)
    → contains xs a ≡ true
    → (i : ℕ) × (get_elem? xs i ≡ some a) × (i < length xs)
index_of [] a h = absurd (ground arith)
index_of (x ∷ xs) a h = elim (Bool-cases (x == a)) [
  | inl e ↦ (0, ground arith, omega arith)
  | inr e ↦ let (i, at_i, below) = index_of xs a (ground arith) in (suc i, at_i, omega arith)
]

pub in_range : (xs : List ℕ) (i : ℕ) {a : ℕ} → get_elem? xs i ≡ some a → i < length xs
in_range [] i h = absurd (ground arith)
in_range (x ∷ xs) zero h = omega arith
in_range (x ∷ xs) (suc i) h = omega (arith, in_range xs i h)

pub contains_at : (xs : List ℕ) (i : ℕ) {a : ℕ} → get_elem? xs i ≡ some a → contains xs a ≡ true
contains_at [] i h = absurd (ground arith)
contains_at (x ∷ xs) zero h = ground arith
contains_at (x ∷ xs) (suc i) {a} h = ground (arith, contains_at xs i {a = a} h)

pub past_end : (xs : List ℕ) (i : ℕ) → get_elem? xs i ≡ none → length xs ≤ i
past_end [] i h = omega arith
past_end (x ∷ xs) zero h = cc
past_end (x ∷ xs) (suc i) h = omega (arith, past_end xs i h)
