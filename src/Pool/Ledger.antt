-- ===== src/Pool/Ledger.antt =====
-- What the pool of crates/eiger-pool/src/lib.rs promises of its sessions: a ledger that says for each
-- id whether there is a session and whether a client may still connect to it. The calls of the pool are
-- the events of a ledger, and the ledger after an event is a function of it.
pub mod Frames
pub mod Operations
pub mod Refines
use eiger.Common.{
  ℕ, ◌==◌, ◌≡◌, refl, ap, List, [], ◌∷◌, Option, none, some, option_map, and_then, if◌then◌else◌,
  Result, ok, err,
}
use eiger.Pool.{SessionEntry, SessionState, SessionHandle, PoolError, not_found, not_connectable}
use eiger.Pool.Runtime.{Runtime}
use eiger.Pool.State.{SessionPool}
use eiger.Pool.Sessions.{is_ready, entry_at}
use eiger.Pool.Create.{launch_options, launch_session}
use eiger.Pool.Steps.{
  Task, Step, admit, reject, launch, connect, connect_found, take_out, begin, borrow, use_handle,
  touch_handle, note_check, let_go, terminate, finish, abandon, drop_leaving, drop_closing, Reach,
  here, next,
}

pub data Phase : Type 0 where
  idle taken : Phase

abbrev pub Ledger : Type 0
Ledger = ℕ → Option Phase

abbrev pub phase : SessionState → Phase
phase state = if is_ready state then idle else taken

-- What is done to a ledger: nothing, a session is opened under an id, the session of an id is asked
-- for, or the one of an id is closed.
pub data Event : Type 0 where
  nothing : Event
  opened requested closed : ℕ → Event

-- A session that is asked for is taken, if there is one.
abbrev pub claim : Option Phase → Option Phase
claim none = none
claim (some p) = some taken

abbrev pub after : Event → Ledger → Ledger
after nothing l j = l j
after (opened id) l j = if id == j then some idle else l j
after (requested id) l j = if id == j then claim (l j) else l j
after (closed id) l j = if id == j then none else l j

-- The ledger after events, the last of which comes first, from the empty ledger on.
abbrev pub replay : List Event → Ledger
replay [] j = none
replay (e ∷ es) j = after e (replay es) j

abbrev pub Follows : Event → Ledger → Ledger → Type 0
Follows e l l' = (j : ℕ) → l' j ≡ after e l j

pub after_same :
    (e : Event) (l m : Ledger) → ((j : ℕ) → l j ≡ m j) → (j : ℕ) → after e l j ≡ after e m j
after_same nothing l m h j = h j
after_same (opened id) l m h j = ap (λ x. if id == j then some idle else x) (h j)
after_same (requested id) l m h j = ap (λ x. if id == j then claim x else x) (h j)
after_same (closed id) l m h j = ap (λ x. if id == j then none else x) (h j)

-- The answer to a creation opens a session, where it is not an error.
abbrev pub opened_by : ℕ → Result SessionHandle PoolError → Event
opened_by id (ok h) = opened id
opened_by id (err e) = nothing

module _ (rt : Runtime) where
  -- The ledger of a pool.
  abbrev pub ledger : SessionPool rt → Ledger
  ledger s j =
      option_map (λ e. phase e.state) (and_then (rt.get s.sessions j) (λ a. entry_at rt s a))

  -- What a client that connects is told: by the ledger, and the handle is that of the session that the
  -- map has under the id.
  abbrev pub Answers : SessionPool rt → ℕ → Option Phase → Result SessionHandle PoolError → Type 0
  Answers s id none r = r ≡ err (not_found id)
  Answers s id (some taken) r = r ≡ err (not_connectable id)
  Answers s id (some idle) r =
      (a : ℕ) × (rt.get s.sessions id ≡ some a) × (r ≡ ok (record { entry = a }))

  -- A mark of an entry asks for the session of that entry, if the map still has it.
  abbrev pub requested_key : ℕ → ℕ → Option ℕ → Event
  requested_key id a none = nothing
  requested_key id a (some b) = if b == a then requested id else nothing

  abbrev pub requested_entry : SessionPool rt → ℕ → Option SessionEntry → Event
  requested_entry s a none = nothing
  requested_entry s a (some e) = requested_key e.id a (rt.get s.sessions e.id)

  -- What a step of a task does to the ledger, by the call that it belongs to.
  pub event :
      {s : SessionPool rt} {ts : List Task} {t : SessionPool rt} {us : List Task}
      → Step rt s ts t us
      → Event
  event (admit p e) = nothing
  event (reject e) = nothing
  event {s} (launch before later env o) =
      opened_by env.id (launch_session rt env (launch_options rt s o) s).0
  event (connect now instant id) = requested id
  event {s} (connect_found before later now instant id a) = requested_entry s a (entry_at rt s a)
  event (take_out id a reason e) = closed id
  event (begin before later a reason) = nothing
  event (borrow id a e) = nothing
  event {s} (use_handle before later now instant a) = requested_entry s a (entry_at rt s a)
  event (touch_handle before later now instant a) = nothing
  event (note_check before later checked a) = nothing
  event (let_go before later a) = nothing
  event (terminate id a reason e) = closed id
  event (finish before later a reason answers) = nothing
  event (abandon before later) = nothing
  event (drop_leaving before later a reason) = nothing
  event (drop_closing before later a reason) = nothing

  -- The events of a run, the last one first.
  pub events :
      {s : SessionPool rt} {ts : List Task} {t : SessionPool rt} {us : List Task}
      → Reach rt s ts t us
      → List Event
  unfolding event
  events here = []
  events (next r st) = event st ∷ events r
