-- ===== src/Tests/Tree.antt =====
-- A table of processes with a loop that the search must not run into, and a label of a report.
use eiger.Common.{
  ℕ, refl, any, length, ◌+◌, ◌%◌, ◌==◌, u64_mod, ◌≡◌, ◌↔◌, true, false, List, [], ◌∷◌, some,
  contains,
}
use eiger.Text.Decimal.{parse_unsigned}
use eiger.Text.{append, lacks}
use eiger.Metrics.{ProcessSample}
use eiger.Metrics.Prometheus.{escape_label}
use eiger.Metrics.Prometheus.Labels.{read_label, read_label-escape_label}
use eiger.Metrics.Tree.Sums.{members, total_rss, sample_rows_sums}
use eiger.Metrics.Tree.{Float, Row, descendants_of, sample_rows}
use eiger.Metrics.Tree.Rows.{Descends}
use eiger.Metrics.Tree.Descendants.{descendants_of-Descends}

abbrev row : ℕ → ℕ → Row ℕ
row child parent = record {
  child_pid = child;
  parent_pid = parent;
  rss_bytes = 1024;
  cpu_percent = 1;
}

abbrev table : List (Row ℕ)
table = row 43 42 ∷ row 41 43 ∷ row 42 41 ∷ row 7 1 ∷ row 44 41 ∷ []

descendants_of-Descends_example :
    (ds : List ℕ) × (descendants_of table 41 ≡ some ds)
    × ((x : ℕ) → (contains ds x ≡ true) ↔ Descends table 41 x)
descendants_of-Descends_example = descendants_of-Descends table 41

abbrev whole : Float
whole = record { F32 = ℕ; zero_f32 = 0; add_f32 = λ a b. a + b; parse_f32 = parse_unsigned 100 }

listed : any (λ r. r.child_pid == 41) table ≡ true
listed = refl

sample_rows_sums_example :
    (ds : List ℕ) × (sample : ProcessSample ℕ) × (sample_rows whole table 41 ≡ some sample)
    × ((x : ℕ) → (contains ds x ≡ true) ↔ Descends table 41 x)
    × (sample.pid ≡ 41)
    × (sample.process_count ≡ length (members ds table))
    × (sample.rss_bytes ≡ total_rss (members ds table) % u64_mod)
sample_rows_sums_example = sample_rows_sums whole table 41 listed

no_line_feed : lacks b'\n' "a\"b\\" ≡ true
no_line_feed = refl

read_label-escape_label_example :
    read_label false (append (escape_label "a\"b\\") "\",state=\"ready\"} 1")
    ≡ some ("a\"b\\", ",state=\"ready\"} 1")
read_label-escape_label_example =
    read_label-escape_label "a\"b\\" ",state=\"ready\"} 1" no_line_feed
