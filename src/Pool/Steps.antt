-- ===== src/Pool/Steps.antt =====
-- crates/eiger-pool/src/lib.rs: the pool under many tasks. A step is what one task does between two
-- of its waits; the tasks in flight are those that hold a permit or an `Arc`. A request that its
-- client drops in a wait ends there, and what it holds is dropped with it.
pub mod Moves
pub mod Invariant
pub mod Preservation
pub mod Capacity
pub mod Unready
pub mod SingleUse
pub mod Tidy
use eiger.Common.{ℕ, ◌+◌, ◌≡◌, String, List, [], ◌∷◌, ◌++◌, Option, none, some, Result, ok, err}
use eiger.Browser.Shutdown.{ChildAnswers}
use eiger.Pool.{SessionOverrides, SessionHandle, PoolError}
use eiger.Pool.Runtime.{Runtime}
use eiger.Pool.State.{SessionPool, release_permit, update_entry, clone_arc, drop_arc}
use eiger.Pool.Create.{CreateEnv, count_rejected, launch_options, launch_session}
use eiger.Pool.Shutdown.{begin_shutdown, finish_shutdown}
use eiger.Pool.Sessions.{touch, mark_in_use, entry_at, connect_entry, connect_session}

-- A request that has a permit and launches a browser; an owner of an entry (a handle, or a clone that
-- a lookup, a report or the maintenance took); a termination that has taken an entry out of the map;
-- and one that waits for the browser.
pub data Task : Type 0 where
  admitted : Task
  holding : ℕ → Task
  leaving closing : ℕ → String → Task

-- The task that goes on with the handle of a call.
abbrev pub handed : Result SessionHandle PoolError → List Task
handed (ok h) = holding h.entry ∷ []
handed (err e) = []

module _ (rt : Runtime) where
  pub data Step : SessionPool rt → List Task → SessionPool rt → List Task → Type 0 where
    -- `create_session` gets a permit
    admit :
        {s : SessionPool rt} {ts : List Task} (p : rt.Permits)
        → rt.acquire s.semaphore ≡ some p
        → Step s ts (record s { semaphore = p }) (admitted ∷ ts)
    -- `create_session` gives up its wait
    reject :
        {s : SessionPool rt} {ts : List Task}
        → rt.acquire s.semaphore ≡ none
        → Step s ts (count_rejected rt s) ts
    -- the rest of `create_session`
    launch :
        {s : SessionPool rt} (before after : List Task) (env : CreateEnv) (v : SessionOverrides)
        → Step s
            (before ++ admitted ∷ after)
            (launch_session rt env (launch_options rt s v) s).1
            (handed (launch_session rt env (launch_options rt s v) s).0 ++ before ++ after)
    -- `connect_session` with no other task between its lookup and its write
    connect :
        {s : SessionPool rt} {ts : List Task} (now instant id : ℕ)
        → Step s ts
            (connect_session rt now instant id s).1
            (handed (connect_session rt now instant id s).0 ++ ts)
    -- the rest of `connect_session`, with the clone of the `Arc` that its lookup took
    connect_found :
        {s : SessionPool rt} (before after : List Task) (now instant id a : ℕ)
        → Step s
            (before ++ holding a ∷ after)
            (connect_entry rt now instant id a (entry_at rt s a) s).1
            (handed (connect_entry rt now instant id a (entry_at rt s a) s).0 ++ (before ++ after))
    -- a clone of the `Arc` of a session, by a lookup of `connect_session`, a report or the maintenance
    borrow :
        {s : SessionPool rt} {ts : List Task} (id a : ℕ)
        → rt.get s.sessions id ≡ some a
        → Step s ts (clone_arc rt a s) (holding a ∷ ts)
    use_handle :
        {s : SessionPool rt} (before after : List Task) (now instant a : ℕ)
        → Step s
            (before ++ holding a ∷ after)
            (mark_in_use rt now instant (record { entry = a }) s)
            (before ++ holding a ∷ after)
    touch_handle :
        {s : SessionPool rt} (before after : List Task) (now instant a : ℕ)
        → Step s
            (before ++ holding a ∷ after)
            (touch rt now instant (record { entry = a }) s)
            (before ++ holding a ∷ after)
    -- the time of a health check
    note_check :
        {s : SessionPool rt} (before after : List Task) (checked a : ℕ)
        → Step s
            (before ++ holding a ∷ after)
            (update_entry rt a (λ e. record e { last_cdp_health_check = checked }) s)
            (before ++ holding a ∷ after)
    -- a handle or a clone is dropped
    let_go :
        {s : SessionPool rt} (before after : List Task) (a : ℕ)
        → Step s (before ++ holding a ∷ after) (drop_arc rt a s) (before ++ after)
    -- `terminate_session` takes the entry out of the map
    take_out :
        {s : SessionPool rt} {ts : List Task} (id a : ℕ) (reason : String)
        → rt.get s.sessions id ≡ some a
        → Step s ts (record s { sessions = rt.remove s.sessions id }) (leaving a reason ∷ ts)
    -- and goes on up to its wait for the browser
    begin :
        {s : SessionPool rt} (before after : List Task) (a : ℕ) (reason : String)
        → Step s
            (before ++ leaving a reason ∷ after)
            (begin_shutdown rt a reason s)
            (closing a reason ∷ before ++ after)
    -- both, with no other task between
    terminate :
        {s : SessionPool rt} {ts : List Task} (id a : ℕ) (reason : String)
        → rt.get s.sessions id ≡ some a
        → Step s ts
            (begin_shutdown rt a reason (record s { sessions = rt.remove s.sessions id }))
            (closing a reason ∷ ts)
    -- the rest of `terminate_session`
    finish :
        {s : SessionPool rt} (before after : List Task) (a : ℕ) (reason : String)
        (answers : ChildAnswers)
        → Step s
            (before ++ closing a reason ∷ after)
            (finish_shutdown rt a reason answers s)
            (before ++ after)
    -- a request is dropped in the wait for its launch
    abandon :
        {s : SessionPool rt} (before after : List Task)
        → Step s (before ++ admitted ∷ after) (release_permit rt s) (before ++ after)
    -- in the wait for the lock of the state that it ends
    drop_leaving :
        {s : SessionPool rt} (before after : List Task) (a : ℕ) (reason : String)
        → Step s (before ++ leaving a reason ∷ after) (drop_arc rt a s) (before ++ after)
    -- in the wait for the browser that it has taken out of the entry
    drop_closing :
        {s : SessionPool rt} (before after : List Task) (a : ℕ) (reason : String)
        → Step s
            (before ++ closing a reason ∷ after)
            (drop_arc rt a (update_entry rt a (λ e. record e { browser = none }) s))
            (before ++ after)

  pub data Reach (s : SessionPool rt) (ts : List Task) : SessionPool rt → List Task → Type 0 where
    here : Reach s ts s ts
    next :
        {t u : SessionPool rt} {ts' us : List Task}
        → Reach s ts t ts'
        → Step t ts' u us
        → Reach s ts u us
