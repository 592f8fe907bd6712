-- ===== src/Tests/Machine.antt =====
-- A concrete semaphore and a concrete map of sessions, which meet the laws that the pool relies on.
use mathlib.Core.Logic.{∥∥₁_elim}
use mathlib.Core.List.{Perm, Permᴰ}
use mathlib.Core.List.Perm
use eiger.Common.{
  ℕ, zero, suc, ◌==◌, ◌≡◌, refl, ap, inl, inr, List, [], ◌∷◌, Option, none, some, if◌then◌else◌,
  arith, length, Bool-cases, ==_iff, ==_refl, false, All, All-map,
}
use eiger.Pool.Runtime.{Runtime}

abbrev Pairs : Type 0
Pairs = List (ℕ × ℕ)

abbrev find : Pairs → ℕ → Option ℕ
find [] k = none
find ((j, a) ∷ m) k = if j == k then some a else find m k

abbrev drop : ℕ → Pairs → Pairs
drop k [] = []
drop k ((j, a) ∷ m) = if j == k then drop k m else (j, a) ∷ drop k m

-- The newest pair of each key.
abbrev newest : Pairs → Pairs
newest [] = []
newest ((k, a) ∷ m) = (k, a) ∷ drop k (newest m)

drop_idem : (k : ℕ) (m : Pairs) → drop k (drop k m) ≡ drop k m
drop_idem k [] = refl
drop_idem k ((j, a) ∷ m) = ground (arith, drop_idem k m)

drop_comm : (k j : ℕ) (m : Pairs) → drop k (drop j m) ≡ drop j (drop k m)
drop_comm k j [] = refl
drop_comm k j ((i, a) ∷ m) = ground (arith, drop_comm k j m)

pub newest-drop : (k : ℕ) (m : Pairs) → newest (drop k m) ≡ drop k (newest m)
newest-drop k [] = refl
newest-drop k ((j, a) ∷ m) =
    ground (arith, newest-drop k m, drop_idem k (newest m), drop_comm k j (newest m))

pub find-drop : (m : Pairs) (k j : ℕ) → find (drop k m) j ≡ (if k == j then none else find m j)
find-drop [] k j = ground arith
find-drop ((i, a) ∷ m) k j = ground (arith, find-drop m k j)

pub drop_missing : (m : Pairs) (k : ℕ) → find m k ≡ none → drop k m ≡ m
drop_missing [] k h = refl
drop_missing ((j, a) ∷ m) k h = ground (arith, drop_missing m k)

drop-cons :
    (k : ℕ) (x : ℕ × ℕ) (xs ys : Pairs)
    → Perm (drop k xs) (drop k ys)
    → Perm (drop k (x ∷ xs)) (drop k (x ∷ ys))
drop-cons k x xs ys p = elim (Bool-cases (x.0 == k)) [
  | inl h ↦ rw h p
  | inr h ↦ rw h (Perm.cons x p)
]

drop-swap : (k : ℕ) (x y : ℕ × ℕ) (l : Pairs) → Perm (drop k (x ∷ y ∷ l)) (drop k (y ∷ x ∷ l))
drop-swap k x y l = elim (Bool-cases (x.0 == k)) [
  | inl h ↦ elim (Bool-cases (y.0 == k)) [
    | inl g ↦ rw (h, g) (Perm.refl _)
    | inr g ↦ rw (h, g) (Perm.refl _)
  ]
  | inr h ↦ elim (Bool-cases (y.0 == k)) [
    | inl g ↦ rw (h, g) (Perm.refl _)
    | inr g ↦ rw (h, g) (Perm.swap _ _ _)
  ]
]

drop-permᴰ : (k : ℕ) {xs ys : Pairs} → Permᴰ xs ys → Perm (drop k xs) (drop k ys)
drop-permᴰ k Permᴰ.nil = Perm.refl []
drop-permᴰ k (Permᴰ.cons {a = x} {b = y} {l₁ = xs} {l₂ = ys} e p) =
    rw e (drop-cons k y xs ys (drop-permᴰ k p))
drop-permᴰ k (Permᴰ.swap {a = x} {b = y} {a' = x'} {b' = y'} {l = l} e f) =
    rw (e, f) (drop-swap k y' x' l)
drop-permᴰ k (Permᴰ.trans p q) = Perm.trans (drop-permᴰ k p) (drop-permᴰ k q)

drop-perm : (k : ℕ) {xs ys : Pairs} → Perm xs ys → Perm (drop k xs) (drop k ys)
drop-perm k p = ∥∥₁_elim p squash₁ (drop-permᴰ k)

pub newest_at :
    (m : Pairs) (k a : ℕ) → find m k ≡ some a → Perm (newest m) ((k, a) ∷ drop k (newest m))
newest_at [] k a h = cc
newest_at ((j, b) ∷ m) k a h = elim (Bool-cases (j == k)) [
  | inl e ↦
      let same : j ≡ k = (==_iff j k).0 e in
      let value : b ≡ a = ground arith in
      let idem : drop k (drop j (newest m)) ≡ drop j (newest m) = cc (drop_idem k (newest m)) in
      rw (e, idem, value, same) (Perm.refl _)
  | inr e ↦
      let other : (k == j) ≡ false = ground arith in
      let rest : find m k ≡ some a = ground arith in
      let below : Perm (drop j (newest m)) ((k, a) ∷ drop j (drop k (newest m))) =
        rw other at (drop-perm j (newest_at m k a rest)) in
      rw (e, drop_comm k j (newest m))
        (Perm.trans (Perm.cons (j, b) below) (Perm.swap (k, a) (j, b) _))
]

drop-All :
    (P : ℕ × ℕ → Type 0) (k : ℕ) (l : Pairs)
    → All P l
    → All (λ p. P p × ((k == p.0) ≡ false)) (drop k l)
drop-All P k [] h = tt
drop-All P k ((j, a) ∷ l) h = elim (Bool-cases (j == k)) [
  | inl e ↦ rw e (drop-All P k l h.1)
  | inr e ↦ rw e ((h.0, ground arith), drop-All P k l h.1)
]

pub find-newest : (m : Pairs) → All (λ p. find m p.0 ≡ some p.1) (newest m)
find-newest [] = tt
find-newest ((k, a) ∷ m) = (
  rw (==_refl k),
  All-map (λ p h. rw h.1 h.0) (drop k (newest m))
      (drop-All (λ p. find m p.0 ≡ some p.1) k (newest m) (find-newest m)),
)

abbrev take_one : ℕ → Option ℕ
take_one zero = none
take_one (suc n) = some n

pub take_one-some : (p q : ℕ) → take_one p ≡ some q → p ≡ suc q
take_one-some zero q e = cc
take_one-some (suc n) q e = cc

pub take_one-none : (p : ℕ) → take_one p ≡ none → p ≡ 0
take_one-none zero e = refl
take_one-none (suc n) e = cc

pub newest-insert : (m : Pairs) (k a : ℕ) → Perm (newest ((k, a) ∷ m)) ((k, a) ∷ newest (drop k m))
newest-insert m k a = rw (newest-drop k m) (Perm.refl _)

pub newest_found :
    (m : Pairs) (k a : ℕ) → find m k ≡ some a → Perm (newest m) ((k, a) ∷ newest (drop k m))
newest_found m k a e = rw (newest-drop k m) (newest_at m k a e)

abbrev pub machine : Runtime
machine = record {
  Permits = ℕ;
  permits = λ n. n;
  available = λ n. n;
  acquire = take_one;
  release = suc;
  available-permits = λ n. refl;
  available-acquire = take_one-some;
  acquire_none = take_one-none;
  available-release = λ n. refl;
  Sessions = Pairs;
  no_sessions = [];
  get = find;
  insert = λ m k a. (k, a) ∷ m;
  remove = λ m k. drop k m;
  entries = newest;
  count = λ m. length (newest m);
  get-insert = λ m k a j. refl;
  get-remove = find-drop;
  entries-no_sessions = refl;
  entries-insert = newest-insert;
  entries_at = newest_found;
  entries_missing = λ m k e. ap newest (drop_missing m k e);
  count-entries = λ m. refl;
  get-entries = find-newest;
}
