-- ===== src/Metrics/Tree.antt =====
-- crates/eiger-metrics/src/lib.rs, `sample_process_tree`: the table that `ps` prints, the descendants
-- of a process, and their sums. Sums of bytes wrap around at 64 bits, as they do in a release build.
pub mod Rows
pub mod Scan
pub mod Descendants
pub mod Sums
use eiger.Common.{
  ℕ, zero, suc, ◌+◌, ◌*◌, ◌%◌, ◌==◌, String, Bool, true, false, not, ◌&&◌, List, [], ◌∷◌, ◌++◌,
  Option, none, some, if◌then◌else◌, and_then, length, get_elem?, contains, filter, any, u64_mod,
}
use eiger.Text.{is_empty_str, trim, split_whitespace}
use eiger.Text.Decimal.{parse_unsigned}
use eiger.Metrics.{ProcessSample}

-- `f32`: the type, its 0, its addition and its parser.
pub record Float : Type 1 where
  pub F32 : Type 0
  pub zero_f32 : F32
  pub add_f32 : F32 → F32 → F32
  pub parse_f32 : String → Option F32

pub record Row (F32 : Type 0) : Type 0 where
  pub child_pid : ℕ
  pub parent_pid : ℕ
  pub rss_bytes : ℕ
  pub cpu_percent : F32

module _ {F32 : Type 0} where
  -- The `for` loop over the rows, for one process of the queue.
  pub scan : ℕ → List (Row F32) → List ℕ → List ℕ
  scan current [] descendants = descendants
  scan current (r ∷ rows) descendants = scan current rows (
      if r.parent_pid == current && not (contains descendants r.child_pid)
      then descendants ++ r.child_pid ∷ []
      else descendants)

  -- The `while` loop, with fuel; `none` means that the fuel ran out.
  pub collect : List (Row F32) → ℕ → ℕ → List ℕ → Option (List ℕ)
  collect rows zero cursor descendants = none
  collect rows (suc fuel) cursor descendants = elim (get_elem? descendants cursor) [
    | none ↦ some descendants
    | some current ↦ collect rows fuel (cursor + 1) (scan current rows descendants)
  ]

  -- A round for each row and two more are enough: see `Descendants`.
  unfoldable pub descendants_of : List (Row F32) → ℕ → Option (List ℕ)
  unfolding collect scan
  descendants_of rows pid = collect rows (length rows + 2) 0 (pid ∷ [])

-- The text of a line, cut at white space, as a row; a line that is no row is passed over.
module _ (fl : Float) where
  parse_columns : List String → Option (Row fl.F32)
  unfolding parse_unsigned
  parse_columns (a ∷ b ∷ c ∷ d ∷ rest) = and_then (parse_unsigned 0xffff_ffff a) λ child_pid.
      and_then (parse_unsigned 0xffff_ffff b) λ parent_pid.
        and_then (parse_unsigned 0xffff_ffff_ffff_ffff c) λ rss_kb.
          and_then (fl.parse_f32 d) λ cpu_percent. some (record {
            child_pid = child_pid;
            parent_pid = parent_pid;
            rss_bytes = rss_kb * 1024 % u64_mod;
            cpu_percent = cpu_percent;
          })
  parse_columns (a ∷ b ∷ c ∷ []) = none
  parse_columns (a ∷ b ∷ []) = none
  parse_columns (a ∷ []) = none
  parse_columns [] = none

  unfoldable pub parse_rows : List String → List (Row fl.F32)
  unfolding parse_columns split_whitespace trim
  parse_rows [] = []
  parse_rows (line ∷ lines) =
      let rest = parse_rows lines in
      if is_empty_str (trim line)
      then rest
      else elim (parse_columns (split_whitespace line)) [ none ↦ rest | some r ↦ r ∷ rest ]

  -- The last loop: the rows of the descendants are added up.
  add_rows : List ℕ → List (Row fl.F32) → ProcessSample fl.F32 → ProcessSample fl.F32
  add_rows descendants [] sample = sample
  add_rows descendants (r ∷ rows) sample = add_rows descendants rows (
      if contains descendants r.child_pid
      then record sample {
        rss_bytes = (sample.rss_bytes + r.rss_bytes) % u64_mod;
        cpu_percent = fl.add_f32 sample.cpu_percent r.cpu_percent;
        process_count = sample.process_count + 1;
      }
      else sample)

  abbrev pub no_sample : ℕ → ProcessSample fl.F32
  no_sample pid = record { pid = pid; rss_bytes = 0; cpu_percent = fl.zero_f32; process_count = 0 }

  -- `sample_process_tree` from the rows on.
  unfoldable pub sample_rows : List (Row fl.F32) → ℕ → Option (ProcessSample fl.F32)
  unfolding descendants_of add_rows
  sample_rows rows pid =
      if any (λ r. r.child_pid == pid) rows
      then and_then (descendants_of rows pid)
          (λ descendants. some (add_rows descendants rows (no_sample pid)))
      else none

  -- `sample_process` from the lines that `ps` prints for one process on.
  first_line_of : List String → Option String
  unfolding trim
  first_line_of [] = none
  first_line_of (line ∷ lines) =
      let rest = first_line_of lines in if is_empty_str (trim line) then rest else some line

  parse_sample : ℕ → List String → Option (ProcessSample fl.F32)
  unfolding parse_unsigned
  parse_sample pid (a ∷ b ∷ parts) = and_then (parse_unsigned 0xffff_ffff_ffff_ffff a) λ rss_kb.
      and_then (fl.parse_f32 b) λ cpu_percent. some (record {
        pid = pid;
        rss_bytes = rss_kb * 1024 % u64_mod;
        cpu_percent = cpu_percent;
        process_count = 1;
      })
  parse_sample pid (a ∷ []) = none
  parse_sample pid [] = none

  unfoldable pub sample_process : ℕ → List String → Option (ProcessSample fl.F32)
  unfolding first_line_of parse_sample split_whitespace
  sample_process pid lines =
      and_then (first_line_of lines) λ line. parse_sample pid (split_whitespace line)
