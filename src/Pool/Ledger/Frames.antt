-- ===== src/Pool/Ledger/Frames.antt =====
-- What the parts of the pool's operations do to its ledger.
use eiger.Common.{
  ℕ, ◌==◌, ◌≡◌, inl, inr, true, List, none, some, if◌then◌else◌, Bool-cases, Option-cases, ==_iff,
  ==_refl,
}
use eiger.Pool.{SessionEntry}
use eiger.Pool.Runtime.{Runtime}
use eiger.Pool.State.{SessionPool, update_entry}
use eiger.Pool.State.Owners.{update_entry-Keeps}
use eiger.Pool.Sessions.{entry_at}
use eiger.Pool.Sessions.Entries.{entry_at-update_entry}
use eiger.Pool.Ledger.{phase, ledger}
use eiger.Pool.Steps.{Task}
use eiger.Pool.Steps.Tidy.{Tidy}
use eiger.Pool.Steps.Tidy.Map.{listed_once}

module _ (rt : Runtime) where
  pub ledger_at :
      (s : SessionPool rt) (j a : ℕ) (e : SessionEntry)
      → rt.get s.sessions j ≡ some a
      → entry_at rt s a ≡ some e
      → ledger rt s j ≡ some (phase e.state)
  ledger_at s j a e g h = rw (g, h)

  pub ledger_same :
      (s t : SessionPool rt)
      → t.sessions ≡ s.sessions
      → ((b : ℕ) → entry_at rt t b ≡ entry_at rt s b)
      → (j : ℕ) → ledger rt t j ≡ ledger rt s j
  ledger_same s t m h j = elim (Option-cases (rt.get s.sessions j)) [
    | inl g ↦ rw (m, g)
    | inr (a, g) ↦ rw (m, g, h a)
  ]

  -- A write that leaves the phase of an entry.
  pub ledger-update_entry :
      (a : ℕ) (f : SessionEntry → SessionEntry) (s : SessionPool rt)
      → ((e : SessionEntry) → (f e).state ≡ e.state)
      → (j : ℕ) → ledger rt (update_entry rt a f s) j ≡ ledger rt s j
  ledger-update_entry a f s same j = elim (Option-cases (rt.get s.sessions j)) [
    | inl g ↦ rw ((update_entry-Keeps rt a f s).same_sessions, g)
    | inr (b, g) ↦ elim (Bool-cases (a == b)) [
      | inl h ↦ elim (Option-cases (entry_at rt s b)) [
        | inl e ↦
            rw (
              (update_entry-Keeps rt a f s).same_sessions,
              g,
              entry_at-update_entry rt a f s b,
              h,
              e,
            )
        | inr (x, e) ↦ rw (
          (update_entry-Keeps rt a f s).same_sessions,
          g,
          entry_at-update_entry rt a f s b,
          h,
          e,
          same x,
        )
      ]
      | inr h ↦
          rw ((update_entry-Keeps rt a f s).same_sessions, g, entry_at-update_entry rt a f s b, h)
    ]
  ]

  -- A write to an entry that no id has.
  pub ledger-write_outside :
      (a : ℕ) (f : SessionEntry → SessionEntry) (s : SessionPool rt)
      → ((id : ℕ) → rt.get s.sessions id ≡ some a → ⊥)
      → (j : ℕ) → ledger rt (update_entry rt a f s) j ≡ ledger rt s j
  ledger-write_outside a f s u j = elim (Option-cases (rt.get s.sessions j)) [
    | inl g ↦ rw ((update_entry-Keeps rt a f s).same_sessions, g)
    | inr (b, g) ↦ elim (Bool-cases (a == b)) [
      | inl h ↦ absurd (u j (rw ((==_iff a b).0 h) g))
      | inr h ↦
          rw ((update_entry-Keeps rt a f s).same_sessions, g, entry_at-update_entry rt a f s b, h)
    ]
  ]

  -- A write to the entry of a session.
  pub ledger-listed_write :
      (id a : ℕ) (f : SessionEntry → SessionEntry) (e : SessionEntry) (s : SessionPool rt)
      (ts : List Task)
      → Tidy rt s ts
      → rt.get s.sessions id ≡ some a
      → entry_at rt s a ≡ some e
      → (j : ℕ)
      → ledger rt (update_entry rt a f s) j
        ≡ (if id == j then some (phase (f e).state) else ledger rt s j)
  ledger-listed_write id a f e s ts y g there j = elim (Bool-cases (id == j)) [
    | inl k ↦
        let same : id ≡ j = (==_iff id j).0 k in
        let at : rt.get s.sessions j ≡ some a = rw (← same) g in
        rw (
          (update_entry-Keeps rt a f s).same_sessions,
          at,
          entry_at-update_entry rt a f s a,
          ==_refl a,
          there,
          k,
        )
    | inr k ↦ elim (Option-cases (rt.get s.sessions j)) [
      | inl h ↦ rw ((update_entry-Keeps rt a f s).same_sessions, h, k)
      | inr (b, h) ↦ elim (Bool-cases (a == b)) [
        | inl o ↦
            let same : id ≡ j = listed_once rt s ts id j a y g (rw ((==_iff a b).0 o) h) in
            let hit : (id == j) ≡ true = (==_iff id j).1 same in cc
        | inr o ↦
            rw (
              (update_entry-Keeps rt a f s).same_sessions,
              h,
              k,
              entry_at-update_entry rt a f s b,
              o,
            )
      ]
    ]
  ]

  -- A session that the map no longer has.
  pub ledger-remove :
      (id : ℕ) (s : SessionPool rt) (j : ℕ)
      → ledger rt (record s { sessions = rt.remove s.sessions id }) j
        ≡ (if id == j then none else ledger rt s j)
  ledger-remove id s j = elim (Bool-cases (id == j)) [
    | inl k ↦ rw (rt.get-remove s.sessions id j, k)
    | inr k ↦ rw (rt.get-remove s.sessions id j, k)
  ]
