-- ===== src/Pool/Heap.antt =====
-- Counting in a heap of counted allocations: the owners of an address, the live allocations.
use mathlib.Core.Logic.{∥∥₁_elim}
use mathlib.Core.List.{Perm, Permᴰ}
use native.Mathlib.Nat.{ℕ_set}
use eiger.Common.{
  ℕ, zero, suc, ◌+◌, ◌≤◌, ◌==◌, ◌≡◌, refl, ◌∙◌, ap, List, [], ◌∷◌, ◌++◌, arith, length,
  if◌then◌else◌,
}

-- 1 at the address itself, 0 elsewhere.
abbrev pub delta : ℕ → ℕ → ℕ
delta a b = if a == b then 1 else 0

-- How often an address stands among the values of a map.
abbrev pub refs : ℕ → List (ℕ × ℕ) → ℕ
refs b [] = 0
refs b ((k, a) ∷ es) = delta a b + refs b es

refs-permᴰ : (b : ℕ) {xs ys : List (ℕ × ℕ)} → Permᴰ xs ys → refs b xs ≡ refs b ys
refs-permᴰ b Permᴰ.nil = refl
refs-permᴰ b (Permᴰ.cons {a = (k, a)} {b = (j, c)} {l₁ = l} {l₂ = m} e p) =
    rw (ap (λ (x : ℕ × ℕ). x.1) e) (omega (arith, refs-permᴰ b p))
refs-permᴰ b (Permᴰ.swap {a = (k, a)} {b = (j, c)} {a' = (i, d)} {b' = (h, g)} {l = l} e f) =
    rw (ap (λ (x : ℕ × ℕ). x.1) e, ap (λ (x : ℕ × ℕ). x.1) f) (omega arith)
refs-permᴰ b (Permᴰ.trans p q) = refs-permᴰ b p ∙ refs-permᴰ b q

pub refs-perm : (b : ℕ) {xs ys : List (ℕ × ℕ)} → Perm xs ys → refs b xs ≡ refs b ys
refs-perm b p = ∥∥₁_elim p (ℕ_set _ _) (refs-permᴰ b)

-- The addresses above 0, moved down by one.
lower : List (ℕ × ℕ) → List (ℕ × ℕ)
lower [] = []
lower ((k, zero) ∷ es) = lower es
lower ((k, suc a) ∷ es) = (k, a) ∷ lower es

refs-lower : (b : ℕ) (es : List (ℕ × ℕ)) → refs b (lower es) ≡ refs (suc b) es
unfolding lower
refs-lower b [] = refl
refs-lower b ((k, zero) ∷ es) = ground (arith, refs-lower b es)
refs-lower b ((k, suc a) ∷ es) = ground (arith, refs-lower b es)

length-lower : (es : List (ℕ × ℕ)) → length es ≡ refs 0 es + length (lower es)
unfolding lower
length-lower [] = omega arith
length-lower ((k, zero) ∷ es) = ground (arith, length-lower es)
length-lower ((k, suc a) ∷ es) = ground (arith, length-lower es)

-- 1 for an allocation that has an owner.
abbrev pub alive : ℕ → ℕ
alive zero = 0
alive (suc n) = 1

-- The heap is given by its numbers of owners.
abbrev pub owners_at : List ℕ → ℕ → ℕ
owners_at [] a = 0
owners_at (n ∷ ns) zero = n
owners_at (n ∷ ns) (suc a) = owners_at ns a

abbrev pub live : List ℕ → ℕ
live [] = 0
live (n ∷ ns) = alive n + live ns

-- A map whose values are different live allocations is no larger than the heap.
pub length-le-live :
    (ns : List ℕ) (es : List (ℕ × ℕ))
    → ((a : ℕ) → refs a es ≤ alive (owners_at ns a))
    → length es ≤ live ns
length-le-live [] [] h = omega arith
length-le-live [] ((k, a) ∷ es) h = absurd (ground (arith, h a))
length-le-live (n ∷ ns) es h = omega (
  arith,
  h 0,
  length-lower es,
  length-le-live ns (lower es) (λ a. omega (arith, refs-lower a es, h (suc a))),
)

pub refs-append : (b : ℕ) (xs ys : List (ℕ × ℕ)) → refs b (xs ++ ys) ≡ refs b xs + refs b ys
refs-append b [] ys = omega arith
refs-append b ((k, a) ∷ xs) ys = omega (arith, refs-append b xs ys)

pub owners_at-concat :
    (ns : List ℕ) (n b : ℕ)
    → owners_at (ns ++ n ∷ []) b ≡ owners_at ns b + (if length ns == b then n else 0)
owners_at-concat [] n zero = ground arith
owners_at-concat [] n (suc b) = ground arith
owners_at-concat (m ∷ ns) n zero = ground arith
owners_at-concat (m ∷ ns) n (suc b) = ground (arith, owners_at-concat ns n b)

pub live-concat : (ns : List ℕ) (n : ℕ) → live (ns ++ n ∷ []) ≡ live ns + alive n
live-concat [] n = omega arith
live-concat (m ∷ ns) n = omega (arith, live-concat ns n)

pub owners_at-length : (ns : List ℕ) → owners_at ns (length ns) ≡ 0
owners_at-length [] = refl
owners_at-length (n ∷ ns) = owners_at-length ns
