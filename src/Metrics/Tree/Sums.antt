-- ===== src/Metrics/Tree/Sums.antt =====
-- The sums over the tree of a process.
use eiger.Common.{
  ℕ, ◌+◌, ◌%◌, ◌<◌, ◌≡◌, refl, inl, inr, ◌↔◌, true, List, [], ◌∷◌, some, arith, contains, ◌==◌,
  length, filter, any, Bool-cases, u64_mod,
}
use eiger.Metrics.{ProcessSample}
use eiger.Metrics.Tree.{Float, Row, add_rows, no_sample, sample_rows}
use eiger.Metrics.Tree.Rows.{Descends}
use eiger.Metrics.Tree.Descendants.{descendants_of-Descends}

-- The sum of bytes, without a bound.
abbrev pub total_rss : {F32 : Type 0} → List (Row F32) → ℕ
total_rss [] = 0
total_rss (r ∷ rows) = r.rss_bytes + total_rss rows

abbrev pub members : {F32 : Type 0} → List ℕ → List (Row F32) → List (Row F32)
members ds rows = filter (λ r. contains ds r.child_pid) rows

module _ (fl : Float) where
  add_rows_sums :
      (ds : List ℕ) (rows : List (Row fl.F32)) (s : ProcessSample fl.F32)
      → s.rss_bytes < u64_mod
      → ((add_rows fl ds rows s).pid ≡ s.pid)
        × ((add_rows fl ds rows s).process_count ≡ s.process_count + length (members ds rows))
        × ((add_rows fl ds rows s).rss_bytes
            ≡ (s.rss_bytes + total_rss (members ds rows)) % u64_mod)
  unfolding add_rows
  add_rows_sums ds [] s h = (refl, omega arith, omega arith)
  add_rows_sums ds (r ∷ rows) s h = elim (Bool-cases (contains ds r.child_pid)) [
    | inl e ↦
        let (same, count, bytes) =
          add_rows_sums ds rows
            (record s {
              rss_bytes = (s.rss_bytes + r.rss_bytes) % u64_mod;
              cpu_percent = fl.add_f32 s.cpu_percent r.cpu_percent;
              process_count = s.process_count + 1;
            })
            (omega arith) in
        rw (e, add_rows) (same, omega (arith, count), omega (arith, bytes))
    | inr e ↦ rw (e, add_rows) (add_rows_sums ds rows s h)
  ]

  -- A process that some row lists has a sample. It has the pid of the process, the number of the rows
  -- that are of its descendants, itself included, and the sum of their bytes modulo 2 ^ 64.
  pub sample_rows_sums :
      (rows : List (Row fl.F32)) (pid : ℕ)
      → any (λ r. r.child_pid == pid) rows ≡ true
      → (ds : List ℕ) × (sample : ProcessSample fl.F32) × (sample_rows fl rows pid ≡ some sample)
        × ((x : ℕ) → (contains ds x ≡ true) ↔ Descends rows pid x)
        × (sample.pid ≡ pid)
        × (sample.process_count ≡ length (members ds rows))
        × (sample.rss_bytes ≡ total_rss (members ds rows) % u64_mod)
  unfolding sample_rows
  sample_rows_sums rows pid h =
      let (ds, e, exact) = descendants_of-Descends rows pid in
      let (same, count, bytes) = add_rows_sums ds rows (no_sample fl pid) (omega arith) in
      (
        ds,
        add_rows fl ds rows (no_sample fl pid),
        rw (h, sample_rows, e),
        exact,
        same,
        omega (arith, count),
        omega (arith, bytes),
      )
