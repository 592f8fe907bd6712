-- ===== src/Pool/Shutdown/Removal.antt =====
-- What `terminate_session` does to the map of sessions.
use eiger.Common.{
  Bool-cases, ==_iff, if◌then◌else◌, ℕ, ◌≡◌, refl, ◌∙◌, ap, inl, inr, String, none, some, is_some,
  Option-cases, ◌==◌,
}
use eiger.Browser.Shutdown.{ChildAnswers}
use eiger.Pool.{killing}
use eiger.Pool.Runtime.{Runtime}
use eiger.Pool.State.{SessionPool}
use eiger.Pool.State.Owners.{update_entry-Keeps, drop_arc-Keeps}
use eiger.Pool.Shutdown.{begin_shutdown, finish_shutdown, shutdown_entry, terminate_session}

module _ (rt : Runtime) where
  shutdown_entry-sessions :
      (a : ℕ) (reason : String) (answers : ChildAnswers) (s : SessionPool rt)
      → (shutdown_entry rt a reason answers s).sessions ≡ s.sessions
  unfolding shutdown_entry begin_shutdown finish_shutdown
  shutdown_entry-sessions a reason answers s =
      (drop_arc-Keeps rt a _).same_sessions
      ∙ (update_entry-Keeps rt a _ _).same_sessions
      ∙ (update_entry-Keeps rt a (λ e. record e { state = killing; kill_reason = some reason })
          s).same_sessions

  sessions-terminate :
      (id a : ℕ) (reason : String) (answers : ChildAnswers) (s : SessionPool rt)
      → rt.get s.sessions id ≡ some a
      → (terminate_session rt id reason answers s).1.sessions ≡ rt.remove s.sessions id
  unfolding terminate_session
  sessions-terminate id a reason answers s e =
      rw (e, terminate_session) (shutdown_entry-sessions a reason answers _)

  missing_stays :
      (id j : ℕ) (s : SessionPool rt)
      → rt.get s.sessions id ≡ none
      → rt.get s.sessions j ≡ (if id == j then none else rt.get s.sessions j)
  missing_stays id j s e = elim (Bool-cases (id == j)) [
    | inl h ↦ let same : id ≡ j = (==_iff id j).0 h in rw (h, ← same) e
    | inr h ↦ rw h refl
  ]

  -- A termination answers whether there was a session of that id. After it the map has none of that id,
  -- and every other session is as before.
  pub terminate_session_removes :
      (id : ℕ) (reason : String) (answers : ChildAnswers) (s : SessionPool rt) (j : ℕ)
      → ((terminate_session rt id reason answers s).0 ≡ is_some (rt.get s.sessions id))
        × (rt.get (terminate_session rt id reason answers s).1.sessions j
            ≡ (if id == j then none else rt.get s.sessions j))
  unfolding terminate_session
  terminate_session_removes id reason answers s j = elim (Option-cases (rt.get s.sessions id)) [
    | inl e ↦ rw (e, terminate_session) (refl, missing_stays id j s e)
    | inr (a, e) ↦ (
      rw (e, terminate_session),
      ap (λ m. rt.get m j) (sessions-terminate id a reason answers s e)
          ∙ rt.get-remove s.sessions id j,
    )
  ]
