-- ===== src/Pool/Steps/Tidy/Preservation.antt =====
-- Each step of each task keeps what the map lists.
use eiger.Common.{
  ℕ, String, ◌≡◌, refl, inl, inr, List, [], ◌∷◌, ◌++◌, Option, none, some, arith, Bool-cases,
  Option-cases, length, ap, Result, ok, err,
}
use eiger.Browser.Shutdown.{ChildAnswers}
use eiger.Browser.{ChromeLaunchOptions, LaunchedBrowser, BrowserError}
use eiger.Pool.{SessionEntry, PoolError, killing, dead}
use eiger.Pool.Runtime.{Runtime}
use eiger.Pool.State.{SessionPool, from_config, update_entry, drop_option}
use eiger.Pool.Create.{
  CreateEnv, launch_options, launched, launch_session, launch_succeeded, register,
}
use eiger.Pool.Shutdown.{begin_shutdown, finish_shutdown}
use eiger.Pool.Sessions.{
  is_ready, touched, used, touch, mark_in_use, connect_entry, connect_session, entry_at,
}
use eiger.Pool.Steps.{
  Task, admitted, holding, leaving, closing, handed, Step, admit, reject, launch, connect,
  connect_found, take_out, begin, borrow, use_handle, touch_handle, note_check, let_go, terminate,
  finish, abandon, drop_leaving, drop_closing, Reach, here, next,
}
use eiger.Pool.Steps.Tidy.{
  Tidy, Evolves, same_entries, clone_arc-Evolves, drop_arc-Evolves, update_entry-Evolves,
  Evolves-Tidy,
}
use eiger.Pool.Shutdown.{counted_shutdown, browser_of}
use eiger.Config.{AppConfig}
use eiger.Pool.Heap.{refs}
use eiger.Pool.Steps.Moves.{refs-remove}
use eiger.Pool.Steps.Tidy.Map.{retask, write_outside, removed, taken_out, grown-Tidy}
use eiger.Pool.Steps.Invariant.{delta_self}

module _ (rt : Runtime) where
  drop_option-Evolves : (o : Option ℕ) (s : SessionPool rt) → Evolves rt s (drop_option rt o s)
  unfolding drop_option
  drop_option-Evolves none s = same_entries rt s s refl (λ b. refl)
  drop_option-Evolves (some a) s = drop_arc-Evolves rt a s

  launched-Tidy :
      (s : SessionPool rt) (before after : List Task) (env : CreateEnv) (o : ChromeLaunchOptions)
      (r : Result LaunchedBrowser BrowserError)
      → Tidy rt s (before ++ admitted ∷ after)
      → Tidy rt (launched rt env o r s).1 (handed (launched rt env o r s).0 ++ before ++ after)
  unfolding launched register
  launched-Tidy s before after env o (err e) y =
      Evolves-Tidy rt (same_entries rt s _ refl (λ b. refl)) (before ++ after)
        ((retask rt s before after admitted y).1 [] tt)
  launched-Tidy s before after env o (ok b) y =
      let y' : Tidy rt (launch_succeeded rt s) (holding (length s.arcs) ∷ before ++ after) =
        Evolves-Tidy rt (same_entries rt s _ refl (λ b. refl)) _
          ((retask rt s before after admitted y).1 (holding (length s.arcs) ∷ []) (tt, tt)) in
      Evolves-Tidy rt (drop_option-Evolves (rt.get s.sessions env.id) _) _
        (grown-Tidy rt (launch_succeeded rt s) _ _ y' refl)

  launch_session-Tidy :
      (s : SessionPool rt) (before after : List Task) (env : CreateEnv)
      (o : Result ChromeLaunchOptions PoolError)
      → Tidy rt s (before ++ admitted ∷ after)
      → Tidy rt
          (launch_session rt env o s).1
          (handed (launch_session rt env o s).0 ++ before ++ after)
  unfolding launch_session
  launch_session-Tidy s before after env (err e) y =
      Evolves-Tidy rt (same_entries rt s _ refl (λ b. refl)) (before ++ after)
        ((retask rt s before after admitted y).1 [] tt)
  launch_session-Tidy s before after env (ok o) y =
      launched-Tidy s before after env o (env.launch o) y

  used-Evolves :
      (now instant a : ℕ) (s : SessionPool rt) (ts : List Task)
      → Tidy rt s ts
      → Tidy rt (update_entry rt a (touched now instant) (update_entry rt a used s)) ts
  used-Evolves now instant a s ts y =
      Evolves-Tidy rt (update_entry-Evolves rt a (touched now instant) _ (λ e. refl) (λ e g. g)) ts
        (Evolves-Tidy rt (update_entry-Evolves rt a used s (λ e. refl) (λ e g. refl)) ts y)

  connect_entry-Tidy :
      (s : SessionPool rt) (ts : List Task) (now instant id a : ℕ) (e : Option SessionEntry)
      → Tidy rt s ts
      → Tidy rt
          (connect_entry rt now instant id a e s).1
          (handed (connect_entry rt now instant id a e s).0 ++ ts)
  unfolding connect_entry
  connect_entry-Tidy s ts now instant id a none y = Evolves-Tidy rt (drop_arc-Evolves rt a s) ts y
  connect_entry-Tidy s ts now instant id a (some e) y = elim (Bool-cases (is_ready e.state)) [
    | inl h ↦
        rw (h, connect_entry)
          (used-Evolves now instant a s (holding a ∷ ts)
            (record { listed = y.listed; unlisted = (tt, y.unlisted) }))
    | inr h ↦ rw (h, connect_entry) (Evolves-Tidy rt (drop_arc-Evolves rt a s) ts y)
  ]

  connect_session-Tidy :
      (s : SessionPool rt) (ts : List Task) (now instant id : ℕ)
      → Tidy rt s ts
      → Tidy rt
          (connect_session rt now instant id s).1
          (handed (connect_session rt now instant id s).0 ++ ts)
  unfolding connect_session
  connect_session-Tidy s ts now instant id y = elim (Option-cases (rt.get s.sessions id)) [
    | inl e ↦ rw (e, connect_session) y
    | inr (a, e) ↦
        rw (e, connect_session)
          (connect_entry-Tidy _ ts now instant id a (entry_at rt s a)
            (Evolves-Tidy rt (clone_arc-Evolves rt a s) ts y))
  ]

  begin_shutdown-Tidy :
      (s : SessionPool rt) (ts : List Task) (a : ℕ) (reason : String)
      → Tidy rt s (closing a reason ∷ ts)
      → Tidy rt (begin_shutdown rt a reason s) (closing a reason ∷ ts)
  unfolding begin_shutdown
  begin_shutdown-Tidy s ts a reason y = Evolves-Tidy rt (same_entries rt _ _ refl (λ b. refl)) _ (
      write_outside rt a (λ e. record e { state = killing; kill_reason = some reason }) s _
        y.unlisted.0 y)

  finish_shutdown-Tidy :
      (s : SessionPool rt) (before after : List Task) (a : ℕ) (reason : String)
      (answers : ChildAnswers)
      → Tidy rt s (before ++ closing a reason ∷ after)
      → Tidy rt (finish_shutdown rt a reason answers s) (before ++ after)
  unfolding finish_shutdown
  finish_shutdown-Tidy s before after a reason answers y =
      let (u, rest) = retask rt s before after (closing a reason) y in
      let s' : SessionPool rt = record s {
        counters = counted_shutdown (browser_of rt a s) reason answers s.counters;
      } in
      let z : Tidy rt s' (closing a reason ∷ before ++ after) =
        Evolves-Tidy rt (same_entries rt s s' refl (λ b. refl)) _
          (rest (closing a reason ∷ []) (u, tt)) in
      Evolves-Tidy rt (drop_arc-Evolves rt a _) (before ++ after) (
        write_outside rt a (λ e. record e { state = dead; browser = none }) s' (before ++ after)
          z.unlisted.0 (record { listed = z.listed; unlisted = z.unlisted.1 }))

  pub Step-Tidy :
      {s t : SessionPool rt} {ts us : List Task} → Step rt s ts t us → Tidy rt s ts → Tidy rt t us
  unfolding touch mark_in_use
  Step-Tidy {s} {ts = ts} (admit p e) y =
      Evolves-Tidy rt (same_entries rt s _ refl (λ b. refl)) (admitted ∷ ts)
        (record { listed = y.listed; unlisted = (tt, y.unlisted) })
  Step-Tidy {s} {ts = ts} (reject e) y = Evolves-Tidy rt (same_entries rt s _ refl (λ b. refl)) ts y
  Step-Tidy {s} (launch before after env o) y =
      launch_session-Tidy s before after env (launch_options rt s o) y
  Step-Tidy {s} {ts = ts} (connect now instant id) y = connect_session-Tidy s ts now instant id y
  Step-Tidy {s} (connect_found before after now instant id a) y =
      connect_entry-Tidy s (before ++ after) now instant id a (entry_at rt s a)
        ((retask rt s before after (holding a) y).1 [] tt)
  Step-Tidy {s} {ts = ts} (take_out id a reason e) y = taken_out rt s ts id a reason y e
  Step-Tidy {s} (begin before after a reason) y =
      let (u, rest) = retask rt s before after (leaving a reason) y in
      begin_shutdown-Tidy s (before ++ after) a reason (rest (closing a reason ∷ []) (u, tt))
  Step-Tidy {s} {ts = ts} (borrow id a e) y =
      Evolves-Tidy rt (clone_arc-Evolves rt a s) (holding a ∷ ts)
        (record { listed = y.listed; unlisted = (tt, y.unlisted) })
  Step-Tidy {s} (use_handle before after now instant a) y =
      used-Evolves now instant a s (before ++ holding a ∷ after) y
  Step-Tidy {s} (touch_handle before after now instant a) y =
      Evolves-Tidy rt (update_entry-Evolves rt a _ s (λ e. refl) (λ e g. g)) _ y
  Step-Tidy {s} (note_check before after checked a) y =
      Evolves-Tidy rt (update_entry-Evolves rt a _ s (λ e. refl) (λ e g. g)) _ y
  Step-Tidy {s} (let_go before after a) y =
      Evolves-Tidy rt (drop_arc-Evolves rt a s) _ ((retask rt s before after (holding a) y).1 [] tt)
  Step-Tidy {s} {ts = ts} (terminate id a reason e) y =
      begin_shutdown-Tidy _ ts a reason (removed rt s ts id a reason y e)
  Step-Tidy {s} (finish before after a reason answers) y =
      finish_shutdown-Tidy s before after a reason answers y
  Step-Tidy {s} (abandon before after) y =
      Evolves-Tidy rt (same_entries rt s _ refl (λ b. refl)) (before ++ after)
        ((retask rt s before after admitted y).1 [] tt)
  Step-Tidy {s} (drop_leaving before after a reason) y =
      Evolves-Tidy rt (drop_arc-Evolves rt a s) _
        ((retask rt s before after (leaving a reason) y).1 [] tt)
  Step-Tidy {s} (drop_closing before after a reason) y =
      Evolves-Tidy rt (drop_arc-Evolves rt a _) _ (
        Evolves-Tidy rt
          (update_entry-Evolves rt a (λ e. record e { browser = none }) s (λ e. refl) (λ e g. g)) _
          ((retask rt s before after (closing a reason) y).1 [] tt))

  pub Reach-Tidy :
      {s : SessionPool rt} {ts : List Task} {t : SessionPool rt} {us : List Task}
      → Reach rt s ts t us
      → Tidy rt s ts
      → Tidy rt t us
  Reach-Tidy here y = y
  Reach-Tidy (next r st) y = Step-Tidy st (Reach-Tidy r y)

  pub get-no_sessions : (id : ℕ) → rt.get rt.no_sessions id ≡ none
  get-no_sessions id = elim (Option-cases (rt.get rt.no_sessions id)) [
    | inl e ↦ e
    | inr (a, e) ↦ absurd (
        omega (
          arith,
          refs-remove rt rt.no_sessions id a a e,
          ap (refs a) rt.entries-no_sessions,
          delta_self a,
        ))
  ]

  -- A new pool lists nothing.
  pub from_config-Tidy :
      {SocketAddr : Type 0} (config : AppConfig SocketAddr) → Tidy rt (from_config rt config) []
  unfolding from_config
  from_config-Tidy config = record {
    listed = λ id a g. let gone : none ≡ some a = rw (get-no_sessions id) at g in cc;
    unlisted = tt;
  }
