-- ===== src/Pool/Maintenance/Round.antt =====
-- What one round of a maintenance pass does to the pool.
use eiger.Common.{
  ℕ, ◌==◌, ◌≡◌, refl, inl, inr, String, Bool, false, List, [], ◌∷◌, Option, none, some, is_some,
  if◌then◌else◌, Bool-cases, ◌∙◌, ap, ==_iff,
}
use eiger.Browser.Shutdown.{ChildAnswers}
use eiger.Pool.{PoolOptions, SessionEntry, killing, dead}
use eiger.Pool.Runtime.{Runtime}
use eiger.Pool.State.{SessionPool, update_entry, drop_arc}
use eiger.Pool.State.Owners.{update_entry-Keeps, drop_arc-Keeps}
use eiger.Pool.Shutdown.{begin_shutdown, finish_shutdown, shutdown_entry, terminate_session}
use eiger.Pool.Shutdown.Removal.{terminate_session_removes}
use eiger.Pool.Sessions.{entry_at}
use eiger.Pool.Sessions.Entries.{entry_at-update_entry, entry_at-drop_arc}
use eiger.Pool.Maintenance.{Probe, kill_reason_for, is_going, recycle, maintain_entry, maintain}
use eiger.Pool.Steps.{Task, holding, terminate, finish}
use eiger.Pool.Steps.Moves.{begin_shutdown-Keeps, finish_shutdown-Keeps}
use eiger.Pool.Steps.Invariant.{Inv}
use eiger.Pool.Steps.Preservation.{update-Inv, let_go-Inv, Step-Inv}
use eiger.Pool.Steps.Tidy.{Tidy, update_entry-Evolves, drop_arc-Evolves, Evolves-Tidy}
use eiger.Pool.Steps.Tidy.Preservation.{Step-Tidy}

-- Whether the checks find a reason to kill the session of an entry.
abbrev pub overdue : {F32 : Type 0} → PoolOptions → Probe F32 → SessionEntry → Bool
overdue o p e = is_some (kill_reason_for o p e).1

module _ (rt : Runtime) where
  module _ (id a : ℕ) (reason : String) (answers : ChildAnswers) (s : SessionPool rt)
      (g : rt.get s.sessions id ≡ some a) where
    terminate_session-Inv :
        {max : ℕ} (ts : List Task)
        → Inv rt max s ts
        → Inv rt max (terminate_session rt id reason answers s).1 ts
    unfolding terminate_session shutdown_entry
    terminate_session-Inv ts v =
        rw (g, terminate_session)
          (Step-Inv rt (finish [] ts a reason answers) (Step-Inv rt (terminate id a reason g) v))

    terminate_session-Tidy :
        (ts : List Task) → Tidy rt s ts → Tidy rt (terminate_session rt id reason answers s).1 ts
    unfolding terminate_session shutdown_entry
    terminate_session-Tidy ts y =
        rw (g, terminate_session)
          (Step-Tidy rt (finish [] ts a reason answers) (Step-Tidy rt (terminate id a reason g) y))

    options-terminate_session : (terminate_session rt id reason answers s).1.options ≡ s.options
    unfolding terminate_session shutdown_entry
    options-terminate_session =
        let s' : SessionPool rt = record s { sessions = rt.remove s.sessions id } in
        rw (g, terminate_session)
          ((finish_shutdown-Keeps rt a reason answers (begin_shutdown rt a reason s')).same_options
            ∙ (begin_shutdown-Keeps rt a reason s').same_options)

    entry_at-terminate_session :
        (b : ℕ)
        → (a == b) ≡ false
        → entry_at rt (terminate_session rt id reason answers s).1 b ≡ entry_at rt s b
    unfolding terminate_session shutdown_entry begin_shutdown finish_shutdown
    entry_at-terminate_session b h =
        let f = λ (e : SessionEntry). record e { state = dead; browser = none } in
        let k = λ (e : SessionEntry). record e { state = killing; kill_reason = some reason } in
        rw (g, terminate_session)
          (entry_at-drop_arc rt a _ b
            ∙ rw (entry_at-update_entry rt a f _ b, h) (rw (entry_at-update_entry rt a k _ b, h)))

module _ (rt : Runtime) where
  -- The time of a health check.
  abbrev pub at_time : ℕ → SessionEntry → SessionEntry
  at_time n e = record e { last_cdp_health_check = n }

  abbrev pub checked : ℕ → ℕ → SessionPool rt → SessionPool rt
  checked a n s = update_entry rt a (at_time n) s

  same_map :
      (id a j : ℕ) (m : rt.Sessions)
      → rt.get m id ≡ some a
      → rt.get m j ≡ (if id == j then some a else rt.get m j)
  same_map id a j m g = elim (Bool-cases (id == j)) [
    | inl h ↦ let same : id ≡ j = (==_iff id j).0 h in rw (h, ← same) g
    | inr h ↦ rw h
  ]

  entry_at-checked :
      (a n b : ℕ) (s : SessionPool rt)
      → (a == b) ≡ false
      → entry_at rt (checked a n s) b ≡ entry_at rt s b
  entry_at-checked a n b s o = rw (entry_at-update_entry rt a (at_time n) s b, o)

module _ (rt : Runtime) {F32 : Type 0} where
  -- The map after a round, and what the round leaves alone.
  pub record Maintained (p : Probe F32) (id a : ℕ) (e : SessionEntry) (s t : SessionPool rt)
      : Type 0 where
    pub map_after :
        (j : ℕ)
        → rt.get t.sessions j ≡ (
            if id == j
            then (if overdue s.options p e then none else some a)
            else rt.get s.sessions j)
    pub others : (b : ℕ) → (a == b) ≡ false → entry_at rt t b ≡ entry_at rt s b
    pub same_options : t.options ≡ s.options

  module _ (p : Probe F32) (a : ℕ) (e : SessionEntry) (s : SessionPool rt)
      (g : rt.get s.sessions e.id ≡ some a) where
    -- A round, on the reason that the checks find.
    abbrev pub round : ℕ × Option String → SessionPool rt
    round (n, reason) = drop_arc rt a (recycle rt p e.id reason (checked rt a n s))

    pub maintain_lem :
        entry_at rt s a ≡ some e
        → is_going e.state ≡ false
        → maintain rt p a s ≡ round (kill_reason_for s.options p e)
    unfolding maintain maintain_entry
    maintain_lem there alive = rw (there, maintain, maintain_entry, alive)

    still : (n : ℕ) → rt.get (checked rt a n s).sessions e.id ≡ some a
    still n = rw (update_entry-Keeps rt a (at_time rt n) s).same_sessions g

    round-Maintained :
        (k : ℕ × Option String)
        → kill_reason_for s.options p e ≡ k
        → Maintained p e.id a e s (round k)
    round-Maintained (n, none) h =
        let c = update_entry-Keeps rt a (at_time rt n) s in
        let d = drop_arc-Keeps rt a (checked rt a n s) in
        record {
          map_after =
              λ j. rw (h, d.same_sessions, c.same_sessions) (same_map rt e.id a j s.sessions g);
          others = λ b o. entry_at-drop_arc rt a _ b ∙ entry_at-checked rt a n b s o;
          same_options = d.same_options ∙ c.same_options;
        }
    round-Maintained (n, some reason) h =
        let c = update_entry-Keeps rt a (at_time rt n) s in
        let s' = checked rt a n s in
        let d = drop_arc-Keeps rt a (terminate_session rt e.id reason p.child s').1 in
        record {
          map_after = λ j.
              rw (h, d.same_sessions)
                ((terminate_session_removes rt e.id reason p.child s' j).1
                  ∙ ap (λ m. if e.id == j then none else rt.get m j) c.same_sessions);
          others = λ b o.
              entry_at-drop_arc rt a _ b
              ∙ entry_at-terminate_session rt e.id a reason p.child s' (still n) b o
              ∙ entry_at-checked rt a n b s o;
          same_options =
              d.same_options
              ∙ options-terminate_session rt e.id a reason p.child s' (still n)
              ∙ c.same_options;
        }

    pub maintain-Maintained :
        entry_at rt s a ≡ some e
        → is_going e.state ≡ false
        → Maintained p e.id a e s (maintain rt p a s)
    maintain-Maintained there alive =
        rw (maintain_lem there alive) (round-Maintained (kill_reason_for s.options p e) refl)

    round-Tidy : (k : ℕ × Option String) (ts : List Task) → Tidy rt s ts → Tidy rt (round k) ts
    round-Tidy (n, reason) ts y = Evolves-Tidy rt (drop_arc-Evolves rt a _) ts (
        recycled reason (
          Evolves-Tidy rt (update_entry-Evolves rt a (at_time rt n) s (λ x. refl) (λ x h. h)) ts y))
      where
        recycled :
            (reason : Option String)
            → Tidy rt (checked rt a n s) ts
            → Tidy rt (recycle rt p e.id reason (checked rt a n s)) ts
        recycled none y' = y'
        recycled (some r) y' = terminate_session-Tidy rt e.id a r p.child _ (still n) ts y'

    round-Inv :
        {max : ℕ} (k : ℕ × Option String) (ts : List Task)
        → Inv rt max s (holding a ∷ ts)
        → Inv rt max (round k) ts
    round-Inv {max} (n, reason) ts v =
        let-go reason (update-Inv rt (holding a ∷ ts) a (at_time rt n) v)
      where
        let-go :
            (reason : Option String)
            → Inv rt max (checked rt a n s) (holding a ∷ ts)
            → Inv rt max (round (n, reason)) ts
        let-go none v' = let_go-Inv rt _ [] ts a v'
        let-go (some r) v' =
            let_go-Inv rt _ [] ts a
              (terminate_session-Inv rt e.id a r p.child _ (still n) (holding a ∷ ts) v')

    pub maintain-Tidy :
        (ts : List Task)
        → entry_at rt s a ≡ some e
        → is_going e.state ≡ false
        → Tidy rt s ts
        → Tidy rt (maintain rt p a s) ts
    maintain-Tidy ts there alive y =
        rw (maintain_lem there alive) (round-Tidy (kill_reason_for s.options p e) ts y)

    pub maintain-Inv :
        {max : ℕ} (ts : List Task)
        → entry_at rt s a ≡ some e
        → is_going e.state ≡ false
        → Inv rt max s (holding a ∷ ts)
        → Inv rt max (maintain rt p a s) ts
    maintain-Inv ts there alive v =
        rw (maintain_lem there alive) (round-Inv (kill_reason_for s.options p e) ts v)
