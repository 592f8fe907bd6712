-- ===== src/Pool/Steps/Unready.antt =====
-- No step of any task makes a session ready again.
use eiger.Common.{
  ℕ, zero, suc, ◌≡◌, refl, inl, inr, false, List, [], ◌∷◌, ◌++◌, Option, none, some, arith,
  Option-cases, Bool-cases, Result, ok, err, get_elem?, set,
}
use eiger.Browser.{ChromeLaunchOptions, LaunchedBrowser, BrowserError}
use eiger.Pool.{PoolError, SessionEntry, killing, dead}
use eiger.Pool.Runtime.{Runtime}
use eiger.Pool.State.{
  Arc, SessionPool, update_entry, clone_arc, drop_counted, drop_arc, drop_option,
}
use eiger.Pool.Create.{CreateEnv, launched, launch_options, launch_session}
use eiger.Pool.Shutdown.{begin_shutdown, finish_shutdown}
use eiger.Pool.Sessions.{
  is_ready, touched, used, touch, mark_in_use, connect_entry, connect_session, entry_at,
}
use eiger.Pool.Steps.{
  Task, Step, admit, reject, launch, connect, connect_found, take_out, begin, borrow, use_handle,
  touch_handle, note_check, let_go, terminate, finish, abandon, drop_leaving, drop_closing, Reach,
  here, next,
}

-- The entry at an address is there, and is not ready.
abbrev pub Unready : List Arc → ℕ → Type 0
Unready [] a = ⊥
Unready (c ∷ cs) zero = is_ready c.entry.state ≡ false
Unready (c ∷ cs) (suc a) = Unready cs a

Unready-set :
    (cs : List Arc) (a b : ℕ) (c d : Arc)
    → get_elem? cs b ≡ some c
    → (is_ready c.entry.state ≡ false → is_ready d.entry.state ≡ false)
    → Unready cs a
    → Unready (set cs b d) a
Unready-set [] a b c d e f u = u
Unready-set (x ∷ cs) zero zero c d e f u = f (ground arith)
Unready-set (x ∷ cs) zero (suc b) c d e f u = u
Unready-set (x ∷ cs) (suc a) zero c d e f u = u
Unready-set (x ∷ cs) (suc a) (suc b) c d e f u = Unready-set cs a b c d e f u

Unready-append : (cs ds : List Arc) (a : ℕ) → Unready cs a → Unready (cs ++ ds) a
Unready-append [] ds a u = absurd u
Unready-append (c ∷ cs) ds zero u = u
Unready-append (c ∷ cs) ds (suc a) u = Unready-append cs ds a u

-- What a write to an entry may do to its state.
abbrev pub KeepsUnready : (SessionEntry → SessionEntry) → Type 0
KeepsUnready f = (e : SessionEntry) → is_ready e.state ≡ false → is_ready (f e).state ≡ false

module _ (rt : Runtime) (a : ℕ) where
  pub update_entry-Unready :
      (b : ℕ) (f : SessionEntry → SessionEntry) (s : SessionPool rt)
      → KeepsUnready f
      → Unready s.arcs a
      → Unready (update_entry rt b f s).arcs a
  unfolding update_entry
  update_entry-Unready b f s k u = elim (Option-cases (get_elem? s.arcs b)) [
    | inl e ↦ rw (e, update_entry) u
    | inr (c, e) ↦
        rw (e, update_entry)
          (Unready-set s.arcs a b c (record c { entry = f c.entry }) e (k c.entry) u)
  ]

  clone_arc-Unready :
      (b : ℕ) (s : SessionPool rt) → Unready s.arcs a → Unready (clone_arc rt b s).arcs a
  unfolding clone_arc
  clone_arc-Unready b s u = elim (Option-cases (get_elem? s.arcs b)) [
    | inl e ↦ rw (e, clone_arc) u
    | inr (c, e) ↦
        rw (e, clone_arc)
          (Unready-set s.arcs a b c (record c { strong = suc c.strong }) e (λ h. h) u)
  ]

  drop_counted-Unready :
      (b : ℕ) (c : Arc) (n : ℕ) (s : SessionPool rt)
      → get_elem? s.arcs b ≡ some c
      → Unready s.arcs a
      → Unready (drop_counted rt b c.entry n s).arcs a
  unfolding drop_counted
  drop_counted-Unready b c zero s e u = u
  drop_counted-Unready b c (suc zero) s e u = Unready-set s.arcs a b c _ e (λ h. h) u
  drop_counted-Unready b c (suc (suc n)) s e u = Unready-set s.arcs a b c _ e (λ h. h) u

  drop_arc-Unready :
      (b : ℕ) (s : SessionPool rt) → Unready s.arcs a → Unready (drop_arc rt b s).arcs a
  unfolding drop_arc
  drop_arc-Unready b s u = elim (Option-cases (get_elem? s.arcs b)) [
    | inl e ↦ rw (e, drop_arc) u
    | inr (c, e) ↦ rw (e, drop_arc) (drop_counted-Unready b c c.strong s e u)
  ]

  drop_option-Unready :
      (o : Option ℕ) (s : SessionPool rt) → Unready s.arcs a → Unready (drop_option rt o s).arcs a
  unfolding drop_option
  drop_option-Unready none s u = u
  drop_option-Unready (some b) s u = drop_arc-Unready b s u

  launched-Unready :
      (env : CreateEnv) (o : ChromeLaunchOptions) (r : Result LaunchedBrowser BrowserError)
      (s : SessionPool rt)
      → Unready s.arcs a
      → Unready (launched rt env o r s).1.arcs a
  unfolding launched
  launched-Unready env o (err e) s u = u
  launched-Unready env o (ok b) s u =
      drop_option-Unready (rt.get s.sessions env.id) _ (Unready-append s.arcs _ a u)

  launch_session-Unready :
      (env : CreateEnv) (o : Result ChromeLaunchOptions PoolError) (s : SessionPool rt)
      → Unready s.arcs a
      → Unready (launch_session rt env o s).1.arcs a
  unfolding launch_session
  launch_session-Unready env (err e) s u = u
  launch_session-Unready env (ok o) s u = launched-Unready env o (env.launch o) s u

  connect_entry-Unready :
      (now instant id b : ℕ) (o : Option SessionEntry) (s : SessionPool rt)
      → Unready s.arcs a
      → Unready (connect_entry rt now instant id b o s).1.arcs a
  unfolding connect_entry
  connect_entry-Unready now instant id b none s u = drop_arc-Unready b s u
  connect_entry-Unready now instant id b (some e) s u = elim (Bool-cases (is_ready e.state)) [
    | inl h ↦
        rw (h, connect_entry)
          (update_entry-Unready b (touched now instant) _ (λ x p. p)
            (update_entry-Unready b used s (λ x p. refl) u))
    | inr h ↦ rw (h, connect_entry) (drop_arc-Unready b s u)
  ]

  connect_session-Unready :
      (now instant id : ℕ) (s : SessionPool rt)
      → Unready s.arcs a
      → Unready (connect_session rt now instant id s).1.arcs a
  unfolding connect_session
  connect_session-Unready now instant id s u = elim (Option-cases (rt.get s.sessions id)) [
    | inl e ↦ rw (e, connect_session) u
    | inr (b, e) ↦
        rw (e, connect_session)
          (connect_entry-Unready now instant id b (entry_at rt s b) _ (clone_arc-Unready b s u))
  ]

  Step-Unready :
      {s t : SessionPool rt} {ts us : List Task}
      → Step rt s ts t us
      → Unready s.arcs a
      → Unready t.arcs a
  unfolding touch mark_in_use begin_shutdown finish_shutdown
  Step-Unready (admit p e) u = u
  Step-Unready (reject e) u = u
  Step-Unready {s} (launch before after env v) u =
      launch_session-Unready env (launch_options rt s v) s u
  Step-Unready {s} (connect now instant id) u = connect_session-Unready now instant id s u
  Step-Unready {s} (connect_found before after now instant id b) u =
      connect_entry-Unready now instant id b (entry_at rt s b) s u
  Step-Unready (take_out id b reason e) u = u
  Step-Unready {s} (begin before after b reason) u =
      update_entry-Unready b (λ x. record x { state = killing; kill_reason = some reason }) _
        (λ x p. refl) u
  Step-Unready {s} (borrow id b e) u = clone_arc-Unready b s u
  Step-Unready {s} (use_handle before after now instant b) u =
      update_entry-Unready b (touched now instant) _ (λ x p. p)
        (update_entry-Unready b used s (λ x p. refl) u)
  Step-Unready {s} (touch_handle before after now instant b) u =
      update_entry-Unready b (touched now instant) s (λ x p. p) u
  Step-Unready {s} (note_check before after checked b) u = update_entry-Unready b _ s (λ x p. p) u
  Step-Unready {s} (let_go before after b) u = drop_arc-Unready b s u
  Step-Unready {s} (terminate id b reason e) u =
      update_entry-Unready b (λ x. record x { state = killing; kill_reason = some reason }) _
        (λ x p. refl) u
  Step-Unready {s} (finish before after b reason answers) u =
      drop_arc-Unready b _
        (update_entry-Unready b (λ x. record x { state = dead; browser = none }) _ (λ x p. refl) u)
  Step-Unready (abandon before after) u = u
  Step-Unready {s} (drop_leaving before after b reason) u = drop_arc-Unready b s u
  Step-Unready {s} (drop_closing before after b reason) u =
      drop_arc-Unready b _
        (update_entry-Unready b (λ x. record x { browser = none }) s (λ x p. p) u)

  pub Reach-Unready :
      {s : SessionPool rt} {ts : List Task} {t : SessionPool rt} {us : List Task}
      → Reach rt s ts t us
      → Unready s.arcs a
      → Unready t.arcs a
  Reach-Unready here u = u
  Reach-Unready (next r st) u = Step-Unready st (Reach-Unready r u)
