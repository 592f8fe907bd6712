-- ===== src/Pool/Readiness.antt =====
-- What `readiness` reports after a `create_session`.
use eiger.Common.{
  Result-cases, String, ◌>>=◌, ok_or, ℕ, ◌≡◌, refl, Bool, true, false, ◌&&◌, Option, none, some,
  Option-cases, zero, suc, get_elem?, inl, inr, Result, ok, err, arith, ltb,
}
use eiger.Text.{trim}
use eiger.Browser.{ChromeLaunchOptions, LaunchedBrowser, BrowserError, error_text}
use eiger.Pool.{
  PoolReadiness, SessionEntry, SessionOverrides, SessionHandle, PoolError, at_capacity,
  capacity_timeout, not_found, not_connectable, persistent_profiles_disabled,
  invalid_persistent_profile_id, browser,
}
use eiger.Pool.Profile.{profile_path, checked_profile_path}
use eiger.Pool.Runtime.{Runtime}
use eiger.Pool.State.{SessionPool, drop_counted, drop_arc, drop_option}
use eiger.Pool.Create.{
  CreateEnv, WaitEnd, closed, elapsed, rejection, profile_dir, count_rejected, launched, register,
  launch_options, launch_session, create_session,
}
use eiger.Pool.Sessions.{readiness}

-- What a report says after a request with a result, where `before` is the report before it.
abbrev pub Reports : PoolReadiness → Result SessionHandle PoolError → PoolReadiness → Type 0
Reports before (ok h) r =
    (r.browser_launch_ready ≡ true)
    × (r.last_browser_launch_error ≡ none)
    × (r.can_accept_sessions ≡ ltb 0 r.available_capacity)
Reports before (err (browser e)) r =
    (r.status ≡ "not_ready")
    × (r.can_accept_sessions ≡ false)
    × (r.last_browser_launch_error ≡ some (error_text e))
    × (r.available_capacity ≡ before.available_capacity)
Reports before (err at_capacity) r = r ≡ before
Reports before (err capacity_timeout) r = r ≡ before
Reports before (err (not_found id)) r = r ≡ before
Reports before (err (not_connectable id)) r = r ≡ before
Reports before (err persistent_profiles_disabled) r = r ≡ before
Reports before (err (invalid_persistent_profile_id id)) r = r ≡ before

-- The errors that the options of a launch can have.
abbrev IsOptionsError {ℓ} : {A : Type ℓ} → Result A PoolError → Type 0
IsOptionsError (ok a) = Unit
IsOptionsError (err at_capacity) = ⊥
IsOptionsError (err capacity_timeout) = ⊥
IsOptionsError (err (not_found id)) = ⊥
IsOptionsError (err (not_connectable id)) = ⊥
IsOptionsError (err persistent_profiles_disabled) = Unit
IsOptionsError (err (invalid_persistent_profile_id id)) = Unit
IsOptionsError (err (browser e)) = ⊥

bind_error {ℓ κ} :
    {A : Type ℓ} {B : Type κ} (m : Result A PoolError) (f : A → Result B PoolError)
    → IsOptionsError m
    → ((a : A) → IsOptionsError (f a))
    → IsOptionsError (m >>= f)
bind_error (ok a) f h k = k a
bind_error (err at_capacity) f h k = absurd h
bind_error (err capacity_timeout) f h k = absurd h
bind_error (err (not_found id)) f h k = absurd h
bind_error (err (not_connectable id)) f h k = absurd h
bind_error (err (browser e)) f h k = absurd h
bind_error (err persistent_profiles_disabled) f h k = tt
bind_error (err (invalid_persistent_profile_id id)) f h k = tt

ok_or_error : (o : Option String) → IsOptionsError (ok_or o persistent_profiles_disabled)
ok_or_error none = tt
ok_or_error (some a) = tt

profile_path_error : (base id : String) → IsOptionsError (profile_path base id)
unfolding profile_path checked_profile_path
profile_path_error base id = elim (Result-cases (profile_path base id)) [
  | inl (path, e) ↦ rw e tt
  | inr (x, e) ↦
      let same : invalid_persistent_profile_id (trim id) ≡ x = ground arith in rw (e, ← same) tt
]

profile_dir_error : (storage id : Option String) → IsOptionsError (profile_dir storage id)
unfolding profile_dir
profile_dir_error storage none = tt
profile_dir_error storage (some id) =
    bind_error (ok_or storage persistent_profiles_disabled) _ (ok_or_error storage)
      λ base. bind_error (profile_path base id) _ (profile_path_error base id) λ path. tt

and_true : (b : Bool) → (b && true) ≡ b
and_true true = refl
and_true false = refl

and_false : (b : Bool) → (b && false) ≡ false
and_false true = refl
and_false false = refl

module _ (rt : Runtime) where
  -- What a drop of an `Arc` leaves of the flags.
  record SameFlags (s t : SessionPool rt) : Type 0 where
    same_ready : t.browser_launch_ready ≡ s.browser_launch_ready
    same_error : t.last_browser_launch_error ≡ s.last_browser_launch_error

  drop_counted-SameFlags :
      (a n : ℕ) (e : SessionEntry) (s : SessionPool rt) → SameFlags s (drop_counted rt a e n s)
  unfolding drop_counted
  drop_counted-SameFlags a zero e s = record { same_ready = refl; same_error = refl }
  drop_counted-SameFlags a (suc zero) e s = record { same_ready = refl; same_error = refl }
  drop_counted-SameFlags a (suc (suc n)) e s = record { same_ready = refl; same_error = refl }

  drop_option-SameFlags : (o : Option ℕ) (s : SessionPool rt) → SameFlags s (drop_option rt o s)
  unfolding drop_option drop_arc
  drop_option-SameFlags none s = record { same_ready = refl; same_error = refl }
  drop_option-SameFlags (some a) s = elim (Option-cases (get_elem? s.arcs a)) [
    | inl e ↦ rw (e, drop_arc) (record { same_ready = refl; same_error = refl })
    | inr (c, e) ↦ rw (e, drop_arc) (drop_counted-SameFlags a c.strong c.entry s)
  ]

  given_back :
      (s : SessionPool rt) (p : rt.Permits)
      → rt.acquire s.semaphore ≡ some p
      → rt.available (rt.release p) ≡ rt.available s.semaphore
  given_back s p h = omega (arith, rt.available-acquire s.semaphore p h, rt.available-release p)

  rejected-Reports :
      (w : WaitEnd) (s : SessionPool rt)
      → Reports (readiness rt s) (err (rejection w)) (readiness rt (count_rejected rt s))
  unfolding readiness
  rejected-Reports closed s = refl
  rejected-Reports elapsed s = refl

  launch_options_error :
      (s : SessionPool rt) (v : SessionOverrides) → IsOptionsError (launch_options rt s v)
  unfolding launch_options
  launch_options_error s v =
      bind_error (profile_dir s.options.profile_storage_dir v.persistent_profile_id) _
        (profile_dir_error s.options.profile_storage_dir v.persistent_profile_id) λ dir. tt

  launched-Reports :
      (env : CreateEnv) (o : ChromeLaunchOptions) (r : Result LaunchedBrowser BrowserError)
      (s : SessionPool rt) (p : rt.Permits)
      → rt.acquire s.semaphore ≡ some p
      → Reports
          (readiness rt s)
          (launched rt env o r (record s { semaphore = p })).0
          (readiness rt (launched rt env o r (record s { semaphore = p })).1)
  unfolding launched register readiness
  launched-Reports env o (ok b) s p h =
      let flags = drop_option-SameFlags (rt.get s.sessions env.id) _ in
      (flags.same_ready, flags.same_error, rw flags.same_ready (and_true _))
  launched-Reports env o (err e) s p h =
      (rw (and_false (ltb 0 (rt.available (rt.release p)))), and_false _, refl, given_back s p h)

  launch_session-Reports :
      (env : CreateEnv) (o : Result ChromeLaunchOptions PoolError) (s : SessionPool rt)
      (p : rt.Permits)
      → rt.acquire s.semaphore ≡ some p
      → IsOptionsError o
      → Reports
          (readiness rt s)
          (launch_session rt env o (record s { semaphore = p })).0
          (readiness rt (launch_session rt env o (record s { semaphore = p })).1)
  unfolding launch_session readiness
  launch_session-Reports env (ok o) s p h v = launched-Reports env o (env.launch o) s p h
  launch_session-Reports env (err at_capacity) s p h v = absurd v
  launch_session-Reports env (err capacity_timeout) s p h v = absurd v
  launch_session-Reports env (err (not_found id)) s p h v = absurd v
  launch_session-Reports env (err (not_connectable id)) s p h v = absurd v
  launch_session-Reports env (err (browser e)) s p h v = absurd v
  launch_session-Reports env (err persistent_profiles_disabled) s p h v = rw (given_back s p h)
  launch_session-Reports env (err (invalid_persistent_profile_id id)) s p h v =
      rw (given_back s p h)

  -- After a request the readiness report says how its launch ended: after a success it knows no launch
  -- error and accepts sessions exactly while there is capacity; after a failed launch it refuses
  -- sessions with the error, and the capacity is what it was; any other failure leaves the report as it
  -- was.
  pub create_session-Reports :
      (env : CreateEnv) (v : SessionOverrides) (s : SessionPool rt)
      → Reports
          (readiness rt s)
          (create_session rt env v s).0
          (readiness rt (create_session rt env v s).1)
  unfolding create_session
  create_session-Reports env v s = elim (Option-cases (rt.acquire s.semaphore)) [
    | inl h ↦ rw (h, create_session) (rejected-Reports env.wait_end s)
    | inr (p, h) ↦
        rw (h, create_session)
          (launch_session-Reports env (launch_options rt s v) s p h (launch_options_error s v))
  ]
