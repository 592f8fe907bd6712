-- ===== src/Pool/Ledger/Refines.antt =====
-- The pool refines its ledger.
use eiger.Common.{
  ℕ, ◌≡◌, refl, inl, inr, String, List, [], ◌∷◌, ◌++◌, none, some, Bool-cases, Option-cases, ◌∙◌,
}
use eiger.Browser.Shutdown.{ChildAnswers}
use eiger.Config.{AppConfig}
use eiger.Pool.{SessionEntry, killing, dead}
use eiger.Pool.Runtime.{Runtime}
use eiger.Pool.State.{SessionPool, from_config}
use eiger.Pool.Create.{launch_options}
use eiger.Pool.Shutdown.{begin_shutdown, finish_shutdown, counted_shutdown, browser_of}
use eiger.Pool.Sessions.{entry_at, is_ready, touch, mark_in_use, connect_entry, connect_session}
use eiger.Pool.Ledger.{Answers, nothing, closed, event, events, replay, after_same, Follows, ledger}
use eiger.Pool.Ledger.Frames.{ledger-update_entry, ledger-write_outside, ledger-remove}
use eiger.Pool.Steps.{
  Task, leaving, closing, Step, admit, reject, launch, connect, connect_found, take_out, begin,
  borrow, use_handle, touch_handle, note_check, let_go, terminate, finish, abandon, drop_leaving,
  drop_closing, Reach, here, next,
}
use eiger.Pool.Steps.Tidy.{Tidy}
use eiger.Pool.Steps.Tidy.Map.{retask, removed}
use eiger.Pool.Steps.Tidy.Preservation.{get-no_sessions, from_config-Tidy, Reach-Tidy}
use eiger.Pool.Ledger.Operations.{
  clone_stays, drop_stays, mark-Follows, launch-Follows, connect_session-Follows,
  connect_found-Follows,
}

module _ (rt : Runtime) where
  terminate-Follows :
      (s : SessionPool rt) (ts : List Task) (id a : ℕ) (reason : String)
      → Tidy rt s ts
      → rt.get s.sessions id ≡ some a
      → Follows
          (closed id)
          (ledger rt s)
          (ledger rt (begin_shutdown rt a reason (record s { sessions = rt.remove s.sessions id })))
  unfolding begin_shutdown
  terminate-Follows s ts id a reason y g =
      let s' : SessionPool rt = record s { sessions = rt.remove s.sessions id } in
      let gone = (removed rt s ts id a reason y g).unlisted.0 in
      let mark = λ (e : SessionEntry). record e { state = killing; kill_reason = some reason } in
      λ j. ledger-write_outside rt a mark s' gone.not_listed j ∙ ledger-remove rt id s j

  finish-Follows :
      (s : SessionPool rt) (before after : List Task) (a : ℕ) (reason : String)
      (answers : ChildAnswers)
      → Tidy rt s (before ++ closing a reason ∷ after)
      → Follows nothing (ledger rt s) (ledger rt (finish_shutdown rt a reason answers s))
  unfolding finish_shutdown
  finish-Follows s before after a reason answers y =
      let s' : SessionPool rt = record s {
        counters = counted_shutdown (browser_of rt a s) reason answers s.counters;
      } in
      let u = (retask rt s before after (closing a reason) y).0 in
      λ j.
        drop_stays rt a _ j
        ∙ ledger-write_outside rt a (λ e. record e { state = dead; browser = none }) s' u.not_listed
            j

  Step-Follows :
      {s t : SessionPool rt} {ts us : List Task} (st : Step rt s ts t us)
      → Tidy rt s ts
      → Follows (event rt st) (ledger rt s) (ledger rt t)
  unfolding touch mark_in_use event
  Step-Follows (admit p e) y = λ j. refl
  Step-Follows (reject e) y = λ j. refl
  Step-Follows {s} (launch before later env o) y =
      launch-Follows rt s _ env (launch_options rt s o) y
  Step-Follows {s} (connect now instant id) y = connect_session-Follows rt s _ now instant id y
  Step-Follows {s} (connect_found before later now instant id a) y =
      connect_found-Follows rt s _ now instant id a (entry_at rt s a) refl y
  Step-Follows {s} (take_out id a reason e) y = ledger-remove rt id s
  Step-Follows {s} (begin before later a reason) y =
      unfold begin_shutdown in
      ledger-write_outside rt a (λ e. record e { state = killing; kill_reason = some reason }) s
        (retask rt s before later (leaving a reason) y).0.not_listed
  Step-Follows {s} (borrow id a e) y = clone_stays rt a s
  Step-Follows {s} (use_handle before later now instant a) y = mark-Follows rt now instant a s _ y
  Step-Follows {s} (touch_handle before later now instant a) y =
      ledger-update_entry rt a _ s (λ e. refl)
  Step-Follows {s} (note_check before later checked a) y = ledger-update_entry rt a _ s (λ e. refl)
  Step-Follows {s} (let_go before later a) y = drop_stays rt a s
  Step-Follows {s} (terminate id a reason e) y = terminate-Follows s _ id a reason y e
  Step-Follows {s} (finish before later a reason answers) y =
      finish-Follows s before later a reason answers y
  Step-Follows (abandon before later) y = λ j. refl
  Step-Follows {s} (drop_leaving before later a reason) y = drop_stays rt a s
  Step-Follows {s} (drop_closing before later a reason) y =
      λ j. drop_stays rt a _ j ∙ ledger-update_entry rt a _ s (λ e. refl) j

  Reach-replay :
      {s : SessionPool rt} {ts : List Task} {t : SessionPool rt} {us : List Task}
      (r : Reach rt s ts t us)
      → Tidy rt s ts
      → ((j : ℕ) → ledger rt s j ≡ none)
      → (j : ℕ) → ledger rt t j ≡ replay (events rt r) j
  unfolding events
  Reach-replay here y empty j = empty j
  Reach-replay (next r st) y empty j =
      Step-Follows st (Reach-Tidy rt r y) j
      ∙ after_same (event rt st) _ (replay (events rt r)) (Reach-replay r y empty) j

  connect_session-Answers :
      (s : SessionPool rt) (ts : List Task) (now instant id : ℕ)
      → Tidy rt s ts
      → Answers rt s id (ledger rt s id) (connect_session rt now instant id s).0
  unfolding connect_session connect_entry
  connect_session-Answers s ts now instant id y = elim (Option-cases (rt.get s.sessions id)) [
    | inl g ↦ rw (g, connect_session) refl
    | inr (a, g) ↦
        let l = y.listed id a g in
        elim (Bool-cases (is_ready l.entry.state)) [
          | inl r ↦ rw (g, connect_session, l.there, connect_entry, r) (a, g, refl)
          | inr r ↦ rw (g, connect_session, l.there, connect_entry, r) refl
        ]
  ]

  -- The pool refines its ledger. Whatever its tasks do in whatever order, the ledger of the pool is the
  -- one that the events of the calls make of the empty ledger: a creation that succeeds opens a session
  -- under its id, a call to connect and a mark of a listed entry take the session of the id if there is
  -- one, a termination closes it, and all else leaves every session as it is. And a client that
  -- connects is told by this ledger: there is no session, the session is taken, or it gets the handle of
  -- the entry that the map has under the id.
  pub pool-Refines :
      {SocketAddr : Type 0} (config : AppConfig SocketAddr) {s : SessionPool rt} {ts : List Task}
      (r : Reach rt (from_config rt config) [] s ts)
      → ((j : ℕ) → ledger rt s j ≡ replay (events rt r) j)
        × ((now instant id : ℕ)
            → Answers rt s id (replay (events rt r) id) (connect_session rt now instant id s).0)
  unfolding from_config
  pool-Refines config {s} {ts} r =
      let y = from_config-Tidy rt config in
      let replayed = Reach-replay r y (λ j. rw (get-no_sessions rt j)) in
      (
        replayed,
        λ now instant id.
            rw (← replayed id) (connect_session-Answers s ts now instant id (Reach-Tidy rt r y)),
      )
