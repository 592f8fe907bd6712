-- ===== src/Pool/Shutdown/Ending.antt =====
-- What `terminate_session` leaves of the entry and of the counters.
use eiger.Common.{
  get_elem?-set_self, ℕ, zero, suc, ◌≡◌, refl, ap, inl, inr, Option-cases, ◌∙◌, String, none, some,
  get_elem?,
}
use eiger.Browser.Shutdown.{ChildAnswers}
use eiger.Pool.{SessionEntry, killing, dead}
use eiger.Pool.Runtime.{Runtime}
use eiger.Pool.State.{Arc, SessionPool, update_entry, drop_counted, drop_arc}
use eiger.Pool.Shutdown.{
  count_recycle_reason, counted_shutdown, begin_shutdown, browser_of, finish_shutdown,
  shutdown_entry, terminate_session,
}
use eiger.Pool.Shutdown.Counting.{
  causes, cause_in, recycled, was_killed, hard_killed, count_recycle_reason-recycled,
  counted_shutdown-hard_killed,
}

abbrev pub one_owner_less : ℕ → ℕ
one_owner_less zero = zero
one_owner_less (suc n) = n

-- The entry when the browser is gone.
abbrev pub ended : String → SessionEntry → SessionEntry
ended reason e = record e { state = dead; browser = none; kill_reason = some reason }

module _ (rt : Runtime) (a : ℕ) where
  pub update_entry-there :
      (f : SessionEntry → SessionEntry) (s : SessionPool rt) (c : Arc)
      → get_elem? s.arcs a ≡ some c
      → get_elem? (update_entry rt a f s).arcs a ≡ some (record c { entry = f c.entry })
  unfolding update_entry
  update_entry-there f s c e = rw (e, update_entry) (get_elem?-set_self s.arcs a _ e)

  counters-update_entry :
      (f : SessionEntry → SessionEntry) (s : SessionPool rt)
      → (update_entry rt a f s).counters ≡ s.counters
  unfolding update_entry
  counters-update_entry f s = elim (Option-cases (get_elem? s.arcs a)) [
    | inl e ↦ rw (e, update_entry)
    | inr (c, e) ↦ rw (e, update_entry)
  ]

  drop_counted-there :
      (c : Arc) (n : ℕ) (s : SessionPool rt)
      → get_elem? s.arcs a ≡ some (record c { strong = n })
      → (get_elem? (drop_counted rt a c.entry n s).arcs a
          ≡ some (record c { strong = one_owner_less n }))
        × ((drop_counted rt a c.entry n s).counters ≡ s.counters)
  unfolding drop_counted
  drop_counted-there c zero s e = (e, refl)
  drop_counted-there c (suc zero) s e = (get_elem?-set_self s.arcs a _ e, refl)
  drop_counted-there c (suc (suc n)) s e = (get_elem?-set_self s.arcs a _ e, refl)

  pub drop_arc-there :
      (c : Arc) (s : SessionPool rt)
      → get_elem? s.arcs a ≡ some c
      → (get_elem? (drop_arc rt a s).arcs a ≡ some (record c { strong = one_owner_less c.strong }))
        × ((drop_arc rt a s).counters ≡ s.counters)
  unfolding drop_arc
  drop_arc-there c s e = rw (e, drop_arc) (drop_counted-there c c.strong s e)

  shutdown_entry-there :
      (reason : String) (answers : ChildAnswers) (s : SessionPool rt) (c : Arc)
      → get_elem? s.arcs a ≡ some c
      → (get_elem? (shutdown_entry rt a reason answers s).arcs a
          ≡ some (record { entry = ended reason c.entry; strong = one_owner_less c.strong }))
        × ((shutdown_entry rt a reason answers s).counters
            ≡ counted_shutdown c.entry.browser reason answers
                (count_recycle_reason reason s.counters))
  unfolding shutdown_entry begin_shutdown finish_shutdown
  shutdown_entry-there reason answers s c e =
      let s' = begin_shutdown rt a reason s in
      let begun =
        update_entry-there (λ x. record x { state = killing; kill_reason = some reason }) s c e in
      let same_counters : s'.counters ≡ count_recycle_reason reason s.counters =
        ap (count_recycle_reason reason) (counters-update_entry _ s) in
      let taken : browser_of rt a s' ≡ c.entry.browser = rw (begun, browser_of) in
      let counted = counted_shutdown (browser_of rt a s') reason answers s'.counters in
      let same : counted
          ≡ counted_shutdown c.entry.browser reason answers
              (count_recycle_reason reason s.counters) =
        rw (taken, same_counters) in
      let closing : SessionPool rt = record s' { counters = counted } in
      let kill : SessionEntry → SessionEntry = λ x. record x { state = dead; browser = none } in
      let last = drop_arc-there _ _ (update_entry-there kill closing _ begun) in
      (last.0, last.1 ∙ counters-update_entry kill closing ∙ same)

module _ (rt : Runtime) where
  -- A termination of a listed session leaves its entry dead, without its browser and with the reason,
  -- has dropped one owner of it, and has counted: in the counter of the cause that the reason begins with,
  -- if any, and a hard kill if the entry still had its browser and the shutdown of the browser ended with
  -- a kill. No other counter changes.
  pub terminate_session_ends :
      (id a : ℕ) (reason : String) (answers : ChildAnswers) (s : SessionPool rt) (c : Arc)
      → rt.get s.sessions id ≡ some a
      → get_elem? s.arcs a ≡ some c
      → (get_elem? (terminate_session rt id reason answers s).1.arcs a
          ≡ some (record { entry = ended reason c.entry; strong = one_owner_less c.strong }))
        × ((terminate_session rt id reason answers s).1.counters
            ≡ hard_killed
                (was_killed c.entry.browser reason answers)
                (recycled (cause_in causes reason) s.counters))
  unfolding terminate_session
  terminate_session_ends id a reason answers s c listed there =
      let ended =
        shutdown_entry-there rt a reason answers (record s { sessions = rt.remove s.sessions id }) c
          there in
      let counts =
        counted_shutdown-hard_killed c.entry.browser reason answers
          (count_recycle_reason reason s.counters)
        ∙ ap (hard_killed (was_killed c.entry.browser reason answers))
            (count_recycle_reason-recycled reason s.counters) in
      rw (listed, terminate_session) (ended.0, ended.1 ∙ counts)
