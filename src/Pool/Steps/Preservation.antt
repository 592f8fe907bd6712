-- ===== src/Pool/Steps/Preservation.antt =====
-- Each step of each task keeps the pool's accounts.
use eiger.Common.{
  ℕ, ◌∙◌, ◌≤◌, ◌≡◌, refl, ap, inl, inr, List, [], ◌∷◌, ◌++◌, Option, none, some, arith,
  Option-cases, Bool-cases, Result, ok, err, length,
}
use eiger.Browser.{ChromeLaunchOptions, LaunchedBrowser, BrowserError}
use eiger.Pool.{PoolError, SessionEntry}
use eiger.Pool.Runtime.{Runtime}
use eiger.Pool.Heap.{delta, refs}
use eiger.Pool.State.{SessionPool, update_entry, clone_arc, drop_arc}
use eiger.Pool.State.Owners.{
  Keeps-refl, update_entry-Keeps, own-update_entry, own-clone_arc, clone_arc-Keeps, own-drop_arc,
  drop_arc-Keeps,
}
use eiger.Pool.Create.{
  CreateEnv, launch_options, launched, launch_session, launch_succeeded, register,
}
use eiger.Pool.Sessions.{touch, mark_in_use, is_ready, entry_at, connect_entry, connect_session}
use eiger.Pool.Steps.{
  Task, admitted, holding, leaving, closing, handed, Step, admit, reject, launch, connect,
  connect_found, take_out, begin, borrow, use_handle, touch_handle, note_check, let_go, terminate,
  finish, abandon, drop_leaving, drop_closing, Reach, here, next,
}
use eiger.Pool.Steps.Moves.{
  own-begin_shutdown, begin_shutdown-Keeps, own-finish_shutdown, finish_shutdown-Keeps, refs-remove,
  refs-insert, own_fresh, Registers, register-Registers,
}
use eiger.Pool.Steps.Invariant.{
  task_ref, has_permit, delta_self, task_refs-append, permits_in_flight-append, Inv, Inv-move,
  Inv-terminate, Inv-take_out, Inv-first, owned_by_map, owned_at, owned_by_task, Inv-drop,
  Inv-release,
}

module _ (rt : Runtime) {max : ℕ} where
  register-Inv :
      (s : SessionPool rt) (before after : List Task) (e : SessionEntry)
      → Inv rt max s (before ++ admitted ∷ after)
      → Inv rt max (register rt e s).0 (holding (register rt e s).1.entry ∷ before ++ after)
  unfolding register
  register-Inv s before after e v = record {
    configured = omega (arith, v.configured, ap (λ x. x.max_concurrent_sessions) r.kept_options);
    permits = omega (
      arith,
      v.permits,
      r.one_more,
      permits_in_flight-append before (admitted ∷ after),
      permits_in_flight-append before after,
    );
    owners = λ b. omega (
      arith,
      v.owners b,
      r.new_owners b,
      ap (λ x. refs b (rt.entries x)) r.new_sessions,
      task_refs-append b before (admitted ∷ after),
      task_refs-append b before after,
    );
    once = λ b. ground (
      arith,
      v.once b,
      v.owners b,
      own_fresh rt s,
      ap (λ x. refs b (rt.entries x)) r.new_sessions,
      refs-insert rt s.sessions e.id (length s.arcs) b,
      removed b,
    );
  }
    where
      r : Registers rt e s
      r = register-Registers rt e s (owned_by_map rt s (before ++ admitted ∷ after) v)

      removed :
          (b : ℕ) → refs b (rt.entries (rt.remove s.sessions e.id)) ≤ refs b (rt.entries s.sessions)
      removed b = elim (Option-cases (rt.get s.sessions e.id)) [
        | inl h ↦ omega (arith, ap (refs b) (rt.entries_missing s.sessions e.id h))
        | inr (o, h) ↦ omega (arith, refs-remove rt s.sessions e.id o b h)
      ]

  launched-Inv :
      (s : SessionPool rt) (before after : List Task) (env : CreateEnv) (o : ChromeLaunchOptions)
      (r : Result LaunchedBrowser BrowserError)
      → Inv rt max s (before ++ admitted ∷ after)
      → Inv rt max (launched rt env o r s).1 (handed (launched rt env o r s).0 ++ before ++ after)
  unfolding launched
  launched-Inv s before after env o (err e) v = Inv-release rt before after v refl refl refl refl
  launched-Inv s before after env o (ok b) v =
      register-Inv (launch_succeeded rt s) before after _ (record {
        configured = v.configured;
        permits = v.permits;
        owners = v.owners;
        once = v.once;
      })

  launch_session-Inv :
      (s : SessionPool rt) (before after : List Task) (env : CreateEnv)
      (o : Result ChromeLaunchOptions PoolError)
      → Inv rt max s (before ++ admitted ∷ after)
      → Inv rt max
          (launch_session rt env o s).1
          (handed (launch_session rt env o s).0 ++ before ++ after)
  unfolding launch_session
  launch_session-Inv s before after env (err e) v =
      Inv-release rt before after v refl refl refl refl
  launch_session-Inv s before after env (ok o) v =
      launched-Inv s before after env o (env.launch o) v

  pub clone-Inv :
      (s : SessionPool rt) (ts : List Task) (id a : ℕ)
      → Inv rt max s ts
      → rt.get s.sessions id ≡ some a
      → Inv rt max (clone_arc rt a s) (holding a ∷ ts)
  clone-Inv s ts id a v e =
      let h = owned_at rt s ts id a v e in
      Inv-move rt ts (holding a ∷ ts) v (clone_arc-Keeps rt a s h) (omega arith)
        λ b. omega (arith, own-clone_arc rt a s b h)

  pub update-Inv :
      {s : SessionPool rt} (ts : List Task) (a : ℕ) (f : SessionEntry → SessionEntry)
      → Inv rt max s ts
      → Inv rt max (update_entry rt a f s) ts
  update-Inv {s} ts a f v =
      Inv-move rt ts ts v (update_entry-Keeps rt a f s) refl
        λ b. omega (arith, own-update_entry rt a f s b)

  -- A task that owns an entry ends.
  ended-Inv :
      (s : SessionPool rt) (before after : List Task) (x : Task) (a : ℕ)
      → has_permit x ≡ 0
      → ((b : ℕ) → task_ref b x ≡ delta a b)
      → Inv rt max s (before ++ x ∷ after)
      → Inv rt max (drop_arc rt a s) (before ++ after)
  ended-Inv s before after x a p r v =
      Inv-drop rt before after x a v p r (drop_arc-Keeps rt a s)
        λ b. own-drop_arc rt a s b (owned_by_task rt s before after x a v (r a ∙ delta_self a))

  pub let_go-Inv :
      (s : SessionPool rt) (before after : List Task) (a : ℕ)
      → Inv rt max s (before ++ holding a ∷ after)
      → Inv rt max (drop_arc rt a s) (before ++ after)
  let_go-Inv s before after a v = ended-Inv s before after (holding a) a refl (λ b. refl) v

  connect_entry-Inv :
      (s : SessionPool rt) (ts : List Task) (now instant id a : ℕ) (e : Option SessionEntry)
      → Inv rt max s (holding a ∷ ts)
      → Inv rt max
          (connect_entry rt now instant id a e s).1
          (handed (connect_entry rt now instant id a e s).0 ++ ts)
  unfolding connect_entry
  connect_entry-Inv s ts now instant id a none v = let_go-Inv s [] ts a v
  connect_entry-Inv s ts now instant id a (some e) v = elim (Bool-cases (is_ready e.state)) [
    | inl h ↦ rw (h, connect_entry) (update-Inv _ a _ (update-Inv _ a _ v))
    | inr h ↦ rw (h, connect_entry) (let_go-Inv s [] ts a v)
  ]

  connect_session-Inv :
      (s : SessionPool rt) (ts : List Task) (now instant id : ℕ)
      → Inv rt max s ts
      → Inv rt max
          (connect_session rt now instant id s).1
          (handed (connect_session rt now instant id s).0 ++ ts)
  unfolding connect_session
  connect_session-Inv s ts now instant id v = elim (Option-cases (rt.get s.sessions id)) [
    | inl e ↦ rw (e, connect_session) v
    | inr (a, e) ↦
        rw (e, connect_session)
          (connect_entry-Inv _ ts now instant id a (entry_at rt s a) (clone-Inv s ts id a v e))
  ]

  -- Every step keeps the accounts: the permits are the free ones, those of live entries and those of
  -- requests in flight; each entry has as many owners as the map and the tasks hold; and the map lists
  -- each entry at most once.
  pub Step-Inv :
      {s t : SessionPool rt} {ts us : List Task}
      → Step rt s ts t us
      → Inv rt max s ts
      → Inv rt max t us
  unfolding touch mark_in_use
  Step-Inv {s} (admit p e) v = record {
    configured = v.configured;
    permits = omega (arith, v.permits, rt.available-acquire s.semaphore p e);
    owners = λ b. omega (arith, v.owners b);
    once = v.once;
  }
  Step-Inv (reject e) v = record {
    configured = v.configured;
    permits = v.permits;
    owners = v.owners;
    once = v.once;
  }
  Step-Inv {s} (launch before after env o) v =
      launch_session-Inv s before after env (launch_options rt s o) v
  Step-Inv {s} {ts} (connect now instant id) v = connect_session-Inv s ts now instant id v
  Step-Inv {s} (connect_found before after now instant id a) v =
      connect_entry-Inv s (before ++ after) now instant id a (entry_at rt s a) (
        Inv-first rt before after (holding a) (holding a) v refl (λ b. refl) (Keeps-refl rt s)
          (λ b. refl))
  Step-Inv {s} {ts} (take_out id a reason e) v = Inv-take_out rt ts id a reason v e
  Step-Inv {s} (begin before after a reason) v =
      Inv-first rt before after (leaving a reason) (closing a reason) v refl (λ b. refl)
        (begin_shutdown-Keeps rt a reason s) (λ b. own-begin_shutdown rt a reason s b)
  Step-Inv {s} {ts} (borrow id a e) v = clone-Inv s ts id a v e
  Step-Inv {ts} (use_handle before after now instant a) v = update-Inv _ a _ (update-Inv _ a _ v)
  Step-Inv {ts} (touch_handle before after now instant a) v = update-Inv _ a _ v
  Step-Inv {ts} (note_check before after checked a) v = update-Inv _ a _ v
  Step-Inv {s} (let_go before after a) v = let_go-Inv s before after a v
  Step-Inv {s} {ts} (terminate id a reason e) v =
      let s' : SessionPool rt = record s { sessions = rt.remove s.sessions id } in
      Inv-move rt (closing a reason ∷ ts) (closing a reason ∷ ts)
        (Inv-terminate rt ts id a reason v e) (begin_shutdown-Keeps rt a reason s') refl
        λ b. omega (arith, own-begin_shutdown rt a reason s' b)
  Step-Inv {s} (finish before after a reason answers) v =
      Inv-drop rt before after (closing a reason) a v refl (λ b. refl)
        (finish_shutdown-Keeps rt a reason answers s)
        λ b.
          own-finish_shutdown rt a reason answers s b
            (owned_by_task rt s before after (closing a reason) a v (ground arith))
  Step-Inv (abandon before after) v = Inv-release rt before after v refl refl refl refl
  Step-Inv {s} (drop_leaving before after a reason) v =
      ended-Inv s before after (leaving a reason) a refl (λ b. refl) v
  Step-Inv (drop_closing before after a reason) v =
      ended-Inv _ before after (closing a reason) a refl (λ b. refl) (update-Inv _ a _ v)

  pub Reach-Inv :
      {s : SessionPool rt} {ts : List Task} {t : SessionPool rt} {us : List Task}
      → Reach rt s ts t us
      → Inv rt max s ts
      → Inv rt max t us
  Reach-Inv here v = v
  Reach-Inv (next r st) v = Step-Inv st (Reach-Inv r v)
