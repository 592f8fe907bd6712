-- ===== src/Metrics/Tree/Descendants.antt =====
-- The search for the descendants of a process ends, and finds exactly them.
use eiger.Common.{
  ℕ, zero, suc, ◌+◌, ◌<◌, ◌≤◌, ◌≡◌, sym, ◌∙◌, ◌⊎◌, inl, inr, ◌↔◌, true, List, [], ◌∷◌, some, arith,
  contains, length, get_elem?, Option-cases, ==_iff, ==_refl, Bool-cases, ltb,
}
use eiger.Metrics.Tree.{Row, collect, scan, descendants_of}
use eiger.Metrics.Tree.Rows.{
  Child, Descends, self, child, Among-self, index_of, in_range, past_end, contains_at,
}
use eiger.Metrics.Tree.Scan.{
  missing, missing_bound, scan-keeps, scan_at, scan_covers, scan_only, scan-missing,
}

module _ {F32 : Type 0} (rows : List (Row F32)) (pid : ℕ) where
  -- What holds before each round: `cursor` processes have been handled.
  record Searching (cursor : ℕ) (found : List ℕ) : Type 0 where
    within : cursor ≤ length found
    start : contains found pid ≡ true
    sound : (x : ℕ) → contains found x ≡ true → Descends rows pid x
    handled :
        (j p c : ℕ)
        → j < cursor
        → get_elem? found j ≡ some p
        → Child rows p c
        → contains found c ≡ true

  Searching-next :
      (cursor current : ℕ) (found : List ℕ)
      → Searching cursor found
      → get_elem? found cursor ≡ some current
      → Searching (cursor + 1) (scan current rows found)
  Searching-next cursor current found v e = record {
    within = omega (arith, (scan_at current rows found cursor below).0);
    start = scan-keeps current rows found pid v.start;
    sound =
        scan_only current (Descends rows pid) rows found
          (λ c m. child (v.sound current (contains_at found cursor e)) m) v.sound;
    handled = λ j p c h g m. elim (earlier j h) [
      | inl l ↦
          let at_j : get_elem? found j ≡ some p =
            sym (scan_at current rows found j (omega (arith, below))).1 ∙ g in
          scan-keeps current rows found c (v.handled j p c l at_j m)
      | inr l ↦
          let same : current ≡ p = cc (l, e, g, (scan_at current rows found cursor below).1) in
          scan_covers current rows found c (rw same m)
    ];
  }
    where
      below : cursor < length found
      below = in_range found cursor e

      earlier : (j : ℕ) → j < cursor + 1 → (j < cursor) ⊎ (j ≡ cursor)
      earlier j h = elim (Bool-cases (ltb j cursor)) [
        | inl b ↦ inl (ground arith)
        | inr b ↦ inr (ground arith)
      ]

  -- With enough fuel the search ends, with the processes that descend from the first.
  record IsComplete (found : List ℕ) : Type 0 where
    has_start : contains found pid ≡ true
    only : (x : ℕ) → contains found x ≡ true → Descends rows pid x
    closed : (p c : ℕ) → contains found p ≡ true → Child rows p c → contains found c ≡ true

  collect_ends :
      (fuel cursor : ℕ) (found : List ℕ)
      → length found + missing rows found < fuel + cursor
      → Searching cursor found
      → (ds : List ℕ) × (collect rows fuel cursor found ≡ some ds) × IsComplete ds
  unfolding collect
  collect_ends zero cursor found h v = absurd (omega (arith, v.within))
  collect_ends (suc fuel) cursor found h v = elim (Option-cases (get_elem? found cursor)) [
    | inl e ↦ (
      found,
      rw (e, collect),
      record {
        has_start = v.start;
        only = v.sound;
        closed = λ p c g m.
            let (j, at_j, below) = index_of found p g in
            v.handled j p c (omega (arith, past_end found cursor e)) at_j m;
      },
    )
    | inr (current, e) ↦
        let less = scan-missing current rows rows found (Among-self rows) in
        let (ds, q, done) =
          collect_ends fuel (cursor + 1) (scan current rows found) (omega arith)
            (Searching-next cursor current found v e) in
        (ds, rw (e, collect) q, done)
  ]

  complete_all :
      (ds : List ℕ) → IsComplete ds → (x : ℕ) → Descends rows pid x → contains ds x ≡ true
  complete_all ds v x self = v.has_start
  complete_all ds v x (child {p} d m) = v.closed p x (complete_all ds v p d) m

  -- The search for the descendants of a process always ends within its fuel, and the processes that it
  -- finds are exactly those that the rows connect to it through any number of parents.
  pub descendants_of-Descends :
      (ds : List ℕ) × (descendants_of rows pid ≡ some ds)
      × ((x : ℕ) → (contains ds x ≡ true) ↔ Descends rows pid x)
  unfolding descendants_of
  descendants_of-Descends =
      let (ds, e, v) =
        collect_ends (length rows + 2) 0 (pid ∷ []) (omega (arith, missing_bound rows (pid ∷ [])))
          begin in
      (ds, e, λ x. (v.only x, complete_all ds v x))
    where
      begin : Searching 0 (pid ∷ [])
      begin = record {
        within = omega arith;
        start = ground (arith, ==_refl pid);
        sound = λ x h. let same : pid ≡ x = ground (arith, ==_iff pid x) in rw (← same) self;
        handled = λ j p c h g m. absurd (omega arith);
      }
