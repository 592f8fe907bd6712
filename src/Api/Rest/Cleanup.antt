-- ===== src/Api/Rest/Cleanup.antt =====
-- crates/eiger-api/src/lib.rs: what `with_rest_session` leaves of the session pool.
use eiger.Common.{
  ◌≡◌, refl, sym, ap, ◌∙◌, ℕ, suc, String, Bool-cases, Option-cases, inl, inr, none, some, Result,
  ok, err, get_elem?, ◌==◌, ==_iff, ==_refl, if◌then◌else◌,
}
use eiger.Browser.Shutdown.{ChildAnswers}
use eiger.Pool.{SessionOverrides, SessionEntry, SessionHandle, PoolError, killing, dead}
use eiger.Pool.Runtime.{Runtime}
use eiger.Pool.State.{Arc, SessionPool, update_entry, drop_arc, drop_counted}
use eiger.Pool.State.Owners.{update_entry-Keeps, drop_arc-Keeps}
use eiger.Pool.Create.{create_session}
use eiger.Pool.Create.Outcomes.{IsCreated, IsUntouched, create_session_ok, create_session_err}
use eiger.Pool.Sessions.{mark_in_use, touch, touched, used}
use eiger.Pool.Shutdown.{
  terminate_session, shutdown_entry, begin_shutdown, finish_shutdown, counted_shutdown, browser_of,
}
use eiger.Pool.Shutdown.Removal.{terminate_session_removes}
use eiger.Pool.Shutdown.Ending.{update_entry-there, drop_arc-there}
use eiger.Api.Requests.{RestEndpointError}
use eiger.Api.Rest.{RestEnv, handle_id, after_creation, run_rest_session, with_rest_session}

abbrev rest_reason : String
rest_reason = "rest endpoint completed"

module _ (rt : Runtime) (a : ℕ) where
  semaphore-update_entry :
      (f : SessionEntry → SessionEntry) (s : SessionPool rt)
      → (update_entry rt a f s).semaphore ≡ s.semaphore
  unfolding update_entry
  semaphore-update_entry f s = elim (Option-cases (get_elem? s.arcs a)) [
    | inl e ↦ rw (e, update_entry)
    | inr (c, e) ↦ rw (e, update_entry)
  ]

  semaphore-drop_shared :
      (s : SessionPool rt) (c : Arc)
      → get_elem? s.arcs a ≡ some c
      → c.strong ≡ 2
      → (drop_arc rt a s).semaphore ≡ s.semaphore
  unfolding drop_arc drop_counted
  semaphore-drop_shared s c e two = rw (e, drop_arc, two, drop_counted)

  available-drop_last :
      (s : SessionPool rt) (c : Arc)
      → get_elem? s.arcs a ≡ some c
      → c.strong ≡ 1
      → rt.available (drop_arc rt a s).semaphore ≡ suc (rt.available s.semaphore)
  unfolding drop_arc drop_counted
  available-drop_last s c e one = rw (e, drop_arc, one, drop_counted) (rt.available-release _)

  -- The shutdown of an entry with one owner frees a permit.
  available-shutdown_entry :
      (reason : String) (answers : ChildAnswers) (s : SessionPool rt) (c : Arc)
      → get_elem? s.arcs a ≡ some c
      → c.strong ≡ 1
      → rt.available (shutdown_entry rt a reason answers s).semaphore
        ≡ suc (rt.available s.semaphore)
  unfolding shutdown_entry begin_shutdown finish_shutdown
  available-shutdown_entry reason answers s c e one =
      let s' = begin_shutdown rt a reason s in
      let begun =
        update_entry-there rt a (λ x. record x { state = killing; kill_reason = some reason }) s c
          e in
      let counted = counted_shutdown (browser_of rt a s') reason answers s'.counters in
      let closing : SessionPool rt = record s' { counters = counted } in
      let kill : SessionEntry → SessionEntry = λ x. record x { state = dead; browser = none } in
      available-drop_last _ _ (update_entry-there rt a kill closing _ begun) one
      ∙ ap (λ p. suc (rt.available p))
          (semaphore-update_entry kill closing
            ∙ semaphore-update_entry (λ x. record x { state = killing; kill_reason = some reason })
                s)

module _ (rt : Runtime) where
  -- The sessions are the same, and as many permits are free.
  pub record IsRestored (s t : SessionPool rt) : Type 0 where
    pub same_sessions : (j : ℕ) → rt.get t.sessions j ≡ rt.get s.sessions j
    pub same_available : rt.available t.semaphore ≡ rt.available s.semaphore

  -- An entry with a handle, and the map as its other owner: after the handle is dropped, the session
  -- ends, and with it its permit is free.
  ended_session :
      (id a : ℕ) (reason : String) (answers : ChildAnswers) (s : SessionPool rt) (c : Arc)
      → rt.get s.sessions id ≡ some a
      → get_elem? s.arcs a ≡ some c
      → c.strong ≡ 1
      → rt.available (terminate_session rt id reason answers s).1.semaphore
        ≡ suc (rt.available s.semaphore)
  unfolding terminate_session
  ended_session id a reason answers s c listed there one =
      rw (listed, terminate_session) (available-shutdown_entry rt a reason answers _ c there one)

  module _ {T : Type 0} (env : RestEnv) (operation : String → Result T RestEndpointError) where
    left_out :
        (s t : SessionPool rt) (h : SessionHandle)
        → rt.get s.sessions env.create.id ≡ none
        → IsCreated rt env.create s t h
        → (j : ℕ) → (if env.create.id == j then none else rt.get t.sessions j) ≡ rt.get s.sessions j
    left_out s t h fresh made j = elim (Bool-cases (env.create.id == j)) [
      | inl e ↦
          let same : env.create.id ≡ j = (==_iff env.create.id j).0 e in
          rw e (sym fresh ∙ ap (rt.get s.sessions) same)
      | inr e ↦ rw e (made.listed j ∙ rw e)
    ]

    run_rest_session-IsRestored :
        (s t : SessionPool rt) (h : SessionHandle)
        → rt.get s.sessions env.create.id ≡ none
        → IsCreated rt env.create s t h
        → IsRestored s (run_rest_session rt env operation h t).1
    unfolding run_rest_session mark_in_use touch
    run_rest_session-IsRestored s t h fresh made =
        let a = h.entry in
        let (b, o, launched, there) = made.entry in
        let there₁ = update_entry-there rt a used t _ there in
        let t₁ = update_entry rt a used t in
        let there₂ = update_entry-there rt a (touched env.now env.instant) t₁ _ there₁ in
        let t₂ = update_entry rt a (touched env.now env.instant) t₁ in
        let there₃ = drop_arc-there rt a _ t₂ there₂ in
        let t₃ = drop_arc rt a t₂ in
        let id = env.create.id in
        let same : t₃.sessions ≡ t.sessions =
          (drop_arc-Keeps rt a t₂).same_sessions
          ∙ (update_entry-Keeps rt a (touched env.now env.instant) t₁).same_sessions
          ∙ (update_entry-Keeps rt a used t).same_sessions in
        let free : rt.available t₃.semaphore ≡ rt.available t.semaphore = ap rt.available (
          semaphore-drop_shared rt a t₂ _ there₂ refl
          ∙ semaphore-update_entry rt a (touched env.now env.instant) t₁
          ∙ semaphore-update_entry rt a used t) in
        let listed : rt.get t₃.sessions id ≡ some a =
          ap (λ m. rt.get m id) same ∙ made.listed id ∙ rw (==_refl id) in
        let named : handle_id rt h t ≡ id = rw there refl in
        rw named (record {
          same_sessions = λ j.
              (terminate_session_removes rt id rest_reason env.answers t₃ j).1
              ∙ ap (λ m. if id == j then none else rt.get m j) same
              ∙ left_out s t h fresh made j;
          same_available =
              ended_session id a rest_reason env.answers t₃ _ listed there₃.0 refl
              ∙ ap suc free
              ∙ sym made.one_less;
        })

    after_creation-IsRestored :
        (p : Result SessionHandle PoolError × SessionPool rt) (s : SessionPool rt)
        → rt.get s.sessions env.create.id ≡ none
        → ((x : PoolError) → p.0 ≡ err x → IsUntouched rt s p.1)
        → ((h : SessionHandle) → p.0 ≡ ok h → IsCreated rt env.create s p.1 h)
        → IsRestored s (after_creation rt env operation p).1
    after_creation-IsRestored (err x, t) s fresh untouched created =
        let same = untouched x refl in
        record {
          same_sessions = λ j. ap (λ m. rt.get m j) same.same_sessions;
          same_available = same.same_available;
        }
    after_creation-IsRestored (ok h, t) s fresh untouched created =
        run_rest_session-IsRestored s t h fresh (created h refl)

    -- A request that has a session of its own, under a new id, leaves the pool with the sessions and the
    -- number of free permits that it had, however the creation and the operation end.
    pub with_rest_session-IsRestored :
        (overrides : SessionOverrides) (s : SessionPool rt)
        → rt.get s.sessions env.create.id ≡ none
        → IsRestored s (with_rest_session rt env operation overrides s).1
    unfolding with_rest_session
    with_rest_session-IsRestored overrides s fresh =
        after_creation-IsRestored (create_session rt env.create overrides s) s fresh
          (create_session_err rt env.create overrides s)
          (λ h. create_session_ok rt env.create overrides s h fresh)
