-- ===== src/Metrics/Tree/Scan.antt =====
-- One pass of the `for` loop over the rows.
use eiger.Common.{
  ℕ, suc, ◌+◌, ◌<◌, ◌≤◌, ◌≡◌, refl, ◌∙◌, inl, inr, Bool, true, false, not, ◌&&◌, ◌||◌, ◌⊎◌, ap,
  List, [], ◌∷◌, ◌++◌, arith, contains, ◌==◌, length, get_elem?, Bool-cases, ==_refl, ==_iff,
  if◌then◌else◌, length-append,
}
use eiger.Metrics.Tree.{Row, scan}
use eiger.Metrics.Tree.Rows.{Child, Among, contains-concat, get_elem?-append}

module _ {F32 : Type 0} where
  -- The rows whose process is not found yet.
  abbrev pub missing : List (Row F32) → List ℕ → ℕ
  missing [] xs = 0
  missing (r ∷ rows) xs = (if contains xs r.child_pid then 0 else 1) + missing rows xs

  missing_more :
      (rows : List (Row F32)) (xs : List ℕ) (a : ℕ) → missing rows (xs ++ a ∷ []) ≤ missing rows xs
  missing_more [] xs a = omega arith
  missing_more (r ∷ rows) xs a =
      ground (arith, missing_more rows xs a, contains-concat xs a r.child_pid)

  missing_less :
      (rows : List (Row F32)) (xs : List ℕ) (p a : ℕ)
      → Child rows p a
      → contains xs a ≡ false
      → suc (missing rows (xs ++ a ∷ [])) ≤ missing rows xs
  missing_less [] xs p a m h = absurd m
  missing_less (r ∷ rows) xs p a (inl (q, e)) h =
      let gone : contains xs r.child_pid ≡ false = rw e h in
      let found : contains (xs ++ a ∷ []) r.child_pid ≡ true =
        contains-concat xs a r.child_pid ∙ rw (e, h, ==_refl a) in
      rw (gone, found) (omega (arith, missing_more rows xs a))
  missing_less (r ∷ rows) xs p a (inr m) h =
      ground (arith, missing_less rows xs p a m h, contains-concat xs a r.child_pid)

  pub missing_bound : (rows : List (Row F32)) (xs : List ℕ) → missing rows xs ≤ length rows
  missing_bound [] xs = omega arith
  missing_bound (r ∷ rows) xs = ground (arith, missing_bound rows xs)

or_true : (b : Bool) → (b || true) ≡ true
or_true true = refl
or_true false = refl

module _ {F32 : Type 0} (current : ℕ) where
  -- What the loop does with one row.
  abbrev pub visit : Row F32 → List ℕ → List ℕ
  visit r xs =
      if r.parent_pid == current && not (contains xs r.child_pid)
      then xs ++ r.child_pid ∷ []
      else xs

  visit-cases :
      (r : Row F32) (xs : List ℕ)
      → ((visit r xs ≡ xs ++ r.child_pid ∷ [])
          × (r.parent_pid ≡ current)
          × (contains xs r.child_pid ≡ false))
        ⊎ ((visit r xs ≡ xs) × (r.parent_pid ≡ current → contains xs r.child_pid ≡ true))
  visit-cases r xs = elim (Bool-cases (r.parent_pid == current && not (contains xs r.child_pid))) [
    | inl h ↦ inl (rw h, ground arith, ground arith)
    | inr h ↦ inr (rw h, λ e. ground arith)
  ]

  visit-keeps :
      (r : Row F32) (xs : List ℕ) (a : ℕ) → contains xs a ≡ true → contains (visit r xs) a ≡ true
  visit-keeps r xs a h = elim (visit-cases r xs) [
    | inl (e, q, u) ↦ rw (e, contains-concat xs r.child_pid a, h)
    | inr (e, q) ↦ rw e h
  ]

  visit_at :
      (r : Row F32) (xs : List ℕ) (i : ℕ)
      → i < length xs
      → (i < length (visit r xs)) × (get_elem? (visit r xs) i ≡ get_elem? xs i)
  visit_at r xs i h = elim (visit-cases r xs) [
    | inl (e, q, u) ↦ rw e (
      omega (arith, length-append xs (r.child_pid ∷ [])),
      get_elem?-append xs (r.child_pid ∷ []) i h,
    )
    | inr (e, q) ↦ rw e (h, refl)
  ]

  -- A process that was found stays found, and where it was found.
  pub scan-keeps :
      (rows : List (Row F32)) (xs : List ℕ) (a : ℕ)
      → contains xs a ≡ true
      → contains (scan current rows xs) a ≡ true
  unfolding scan
  scan-keeps [] xs a h = h
  scan-keeps (r ∷ rows) xs a h = scan-keeps rows (visit r xs) a (visit-keeps r xs a h)

  pub scan_at :
      (rows : List (Row F32)) (xs : List ℕ) (i : ℕ)
      → i < length xs
      → (i < length (scan current rows xs)) × (get_elem? (scan current rows xs) i ≡ get_elem? xs i)
  unfolding scan
  scan_at [] xs i h = (h, refl)
  scan_at (r ∷ rows) xs i h =
      let (there, same) = visit_at r xs i h in
      let (at_end, rest) = scan_at rows (visit r xs) i there in (at_end, rest ∙ same)

  -- Every child of the process is found.
  pub scan_covers :
      (rows : List (Row F32)) (xs : List ℕ) (c : ℕ)
      → Child rows current c
      → contains (scan current rows xs) c ≡ true
  unfolding scan
  scan_covers [] xs c m = absurd m
  scan_covers (r ∷ rows) xs c (inl (p, e)) = elim (visit-cases r xs) [
    | inl (q, h, u) ↦
        let found : contains (visit r xs) c ≡ true =
          rw (q, contains-concat xs r.child_pid c, e, ==_refl c) (or_true (contains xs c)) in
        scan-keeps rows (visit r xs) c found
    | inr (q, h) ↦
        let found : contains (visit r xs) c ≡ true = rw (q, ← e) (h p) in
        scan-keeps rows (visit r xs) c found
  ]
  scan_covers (r ∷ rows) xs c (inr m) = scan_covers rows (visit r xs) c m

  -- Only children of the process are found.
  pub scan_only :
      (P : ℕ → Type 0) (rows : List (Row F32)) (xs : List ℕ)
      → ((c : ℕ) → Child rows current c → P c)
      → ((c : ℕ) → contains xs c ≡ true → P c)
      → (c : ℕ) → contains (scan current rows xs) c ≡ true
      → P c
  unfolding scan
  scan_only P [] xs n o c h = o c h
  scan_only P (r ∷ rows) xs n o c h = scan_only P rows (visit r xs) (λ d m. n d (inr m)) now c h
    where
      now : (d : ℕ) → contains (visit r xs) d ≡ true → P d
      now d g = elim (visit-cases r xs) [
        | inl (q, p, u) ↦
            let either : (contains xs d || r.child_pid == d) ≡ true =
              rw (q, contains-concat xs r.child_pid d) at g in
            elim (Bool-cases (contains xs d)) [
              | inl k ↦ o d k
              | inr k ↦
                  let same : r.child_pid ≡ d = ground (arith, ==_iff r.child_pid d) in
                  n d (inl (p, same))
            ]
        | inr (q, u) ↦ o d (rw q at g)
      ]

  -- Every process that is found is one missing process less.
  pub scan-missing :
      (rows part : List (Row F32)) (xs : List ℕ)
      → Among rows part
      → length (scan current part xs) + missing rows (scan current part xs)
        ≤ length xs + missing rows xs
  unfolding scan
  scan-missing rows [] xs m = omega arith
  scan-missing rows (r ∷ part) xs m = elim (visit-cases r xs) [
    | inl (q, p, u) ↦ omega (
      arith,
      scan-missing rows part (visit r xs) m.1,
      ap length q,
      ap (missing rows) q,
      length-append xs (r.child_pid ∷ []),
      missing_less rows xs r.parent_pid r.child_pid m.0 u,
    )
    | inr (q, u) ↦
        omega (arith, scan-missing rows part (visit r xs) m.1, ap length q, ap (missing rows) q)
  ]
