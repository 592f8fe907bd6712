-- ===== src/Pool/Create/Outcomes.antt =====
-- What `create_session` leaves behind, where it fails and where it succeeds.
use eiger.Common.{
  if◌then◌else◌, ℕ, suc, ◌≡◌, refl, ◌∙◌, inl, inr, none, some, arith, Option-cases, Result, ok, err,
  length, List, [], ◌∷◌, ◌++◌, get_elem?, ◌==◌, ==_refl,
}
use eiger.Browser.{ChromeLaunchOptions, LaunchedBrowser, BrowserError}
use eiger.Pool.{SessionOverrides, PoolError, SessionHandle, ready}
use eiger.Pool.Runtime.{Runtime}
use eiger.Pool.State.{Arc, SessionPool, drop_option}
use eiger.Pool.Sessions.{connect_session, connect_entry}
use eiger.Pool.Create.{
  CreateEnv, rejection, count_rejected, launch_options, register, launched, launch_session,
  create_session,
}

get_elem?-concat : (cs : List Arc) (c : Arc) → get_elem? (cs ++ c ∷ []) (length cs) ≡ some c
get_elem?-concat [] c = refl
get_elem?-concat (x ∷ cs) c = get_elem?-concat cs c

module _ (rt : Runtime) where
  -- With no permit the request is refused as its wait ended, and only the counter of rejected requests
  -- changes.
  create_session_full :
      (env : CreateEnv) (v : SessionOverrides) (s : SessionPool rt)
      → rt.available s.semaphore ≡ 0
      → create_session rt env v s ≡ (err (rejection env.wait_end), count_rejected rt s)
  unfolding create_session
  create_session_full env v s full = elim (Option-cases (rt.acquire s.semaphore)) [
    | inl e ↦ rw (e, create_session)
    | inr (p, e) ↦ absurd (omega (arith, rt.available-acquire s.semaphore p e))
  ]

  -- The sessions, the allocations and the number of free permits are the same.
  pub record IsUntouched (s t : SessionPool rt) : Type 0 where
    pub same_sessions : t.sessions ≡ s.sessions
    pub same_arcs : t.arcs ≡ s.arcs
    pub same_available : rt.available t.semaphore ≡ rt.available s.semaphore

  launched_err :
      (env : CreateEnv) (o : ChromeLaunchOptions) (r : Result LaunchedBrowser BrowserError)
      (s : SessionPool rt) (p : rt.Permits) (x : PoolError)
      → rt.acquire s.semaphore ≡ some p
      → (launched rt env o r (record s { semaphore = p })).0 ≡ err x
      → IsUntouched s (launched rt env o r (record s { semaphore = p })).1
  unfolding launched
  launched_err env o (ok b) s p x h e = cc
  launched_err env o (err b) s p x h e = record {
    same_sessions = refl;
    same_arcs = refl;
    same_available = omega (arith, rt.available-acquire s.semaphore p h, rt.available-release p);
  }

  launch_session_err :
      (env : CreateEnv) (o : Result ChromeLaunchOptions PoolError) (s : SessionPool rt)
      (p : rt.Permits) (x : PoolError)
      → rt.acquire s.semaphore ≡ some p
      → (launch_session rt env o (record s { semaphore = p })).0 ≡ err x
      → IsUntouched s (launch_session rt env o (record s { semaphore = p })).1
  unfolding launch_session
  launch_session_err env (ok o) s p x h e = launched_err env o (env.launch o) s p x h e
  launch_session_err env (err b) s p x h e = record {
    same_sessions = refl;
    same_arcs = refl;
    same_available = omega (arith, rt.available-acquire s.semaphore p h, rt.available-release p);
  }

  -- Whatever makes a request fail, the sessions, the allocations and the number of free permits are
  -- what they were.
  pub create_session_err :
      (env : CreateEnv) (v : SessionOverrides) (s : SessionPool rt) (x : PoolError)
      → (create_session rt env v s).0 ≡ err x
      → IsUntouched s (create_session rt env v s).1
  unfolding create_session
  create_session_err env v s x e = elim (Option-cases (rt.acquire s.semaphore)) [
    | inl h ↦
        rw (h, create_session)
          (record { same_sessions = refl; same_arcs = refl; same_available = refl })
    | inr (p, h) ↦
        rw (h, create_session)
          (launch_session_err env (launch_options rt s v) s p x h (rw (h, create_session) at e))
  ]

  -- The map has an entry for the new id, which is ready with the launched browser and has two owners;
  -- the other sessions are the same, and one permit less is free.
  pub record IsCreated (env : CreateEnv) (s t : SessionPool rt) (h : SessionHandle) : Type 0 where
    pub listed :
        (j : ℕ) → rt.get t.sessions j ≡ (if env.id == j then some h.entry else rt.get s.sessions j)
    pub entry :
        (b : LaunchedBrowser) × (o : ChromeLaunchOptions) × (env.launch o ≡ ok b)
        × (get_elem? t.arcs h.entry
            ≡ some (record {
              entry = record {
                id = env.id;
                pid = b.pid;
                browser_ws_url = b.browser_ws_url;
                stealth_enabled = o.stealth.enabled;
                created_at = env.now;
                created_instant = env.instant;
                last_used_at = env.now;
                last_used_instant = env.instant;
                last_cdp_health_check = env.instant;
                state = ready;
                browser = some b;
                kill_reason = none;
              };
              strong = 2;
            }))
    pub one_less : rt.available s.semaphore ≡ suc (rt.available t.semaphore)

  launched_ok :
      (env : CreateEnv) (o : ChromeLaunchOptions) (r : Result LaunchedBrowser BrowserError)
      (s : SessionPool rt) (p : rt.Permits) (h : SessionHandle)
      → env.launch o ≡ r
      → rt.get s.sessions env.id ≡ none
      → rt.acquire s.semaphore ≡ some p
      → (launched rt env o r (record s { semaphore = p })).0 ≡ ok h
      → IsCreated env s (launched rt env o r (record s { semaphore = p })).1 h
  unfolding launched register
  launched_ok env o (err x) s p h l n a e = cc
  launched_ok env o (ok b) s p h l n a e =
      let at_end : length s.arcs ≡ h.entry = cc in
      rw (n, launched, register, drop_option)
        (record {
          listed = λ j. rt.get-insert _ _ _ _ ∙ rw at_end;
          entry = (b, o, l, rw (← at_end) (get_elem?-concat s.arcs _));
          one_less = rt.available-acquire s.semaphore p a;
        })

  launch_session_ok :
      (env : CreateEnv) (o : Result ChromeLaunchOptions PoolError) (s : SessionPool rt)
      (p : rt.Permits) (h : SessionHandle)
      → rt.get s.sessions env.id ≡ none
      → rt.acquire s.semaphore ≡ some p
      → (launch_session rt env o (record s { semaphore = p })).0 ≡ ok h
      → IsCreated env s (launch_session rt env o (record s { semaphore = p })).1 h
  unfolding launch_session
  launch_session_ok env (ok o) s p h n a e = launched_ok env o (env.launch o) s p h refl n a e
  launch_session_ok env (err x) s p h n a e = cc

  -- A request that succeeds under a new id adds one session: the map has its entry, which is ready,
  -- holds the launched browser and has two owners; the other sessions are as before, and one permit
  -- less is free.
  pub create_session_ok :
      (env : CreateEnv) (v : SessionOverrides) (s : SessionPool rt) (h : SessionHandle)
      → rt.get s.sessions env.id ≡ none
      → (create_session rt env v s).0 ≡ ok h
      → IsCreated env s (create_session rt env v s).1 h
  unfolding create_session
  create_session_ok env v s h n e = elim (Option-cases (rt.acquire s.semaphore)) [
    | inl a ↦
        let e' : err (rejection env.wait_end) ≡ ok h = rw (a, create_session) at e in
        absurd (ground arith)
    | inr (p, a) ↦
        rw (a, create_session)
          (launch_session_ok env (launch_options rt s v) s p h n a (rw (a, create_session) at e))
  ]

  -- A session that was just created can be connected to, and the connection has the same entry.
  connect-create_session :
      (env : CreateEnv) (v : SessionOverrides) (s : SessionPool rt) (h : SessionHandle)
      (now instant : ℕ)
      → rt.get s.sessions env.id ≡ none
      → (create_session rt env v s).0 ≡ ok h
      → (connect_session rt now instant env.id (create_session rt env v s).1).0 ≡ ok h
  unfolding connect_session connect_entry
  connect-create_session env v s h now instant n e =
      let made = create_session_ok env v s h n e in
      let listed : rt.get (create_session rt env v s).1.sessions env.id ≡ some h.entry =
        made.listed env.id ∙ rw (==_refl env.id) in
      let (b, o, l, there) = made.entry in rw (listed, connect_session, there, connect_entry)
