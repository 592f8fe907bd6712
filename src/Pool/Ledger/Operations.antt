-- ===== src/Pool/Ledger/Operations.antt =====
-- What each operation of the pool does to its ledger.
use eiger.Common.{
  ℕ, ◌==◌, ◌≡◌, refl, inl, inr, true, false, List, Option, none, some, sym, if◌then◌else◌,
  Bool-cases, Option-cases, ◌∙◌, ==_iff, ==_refl, length, Result, ok, err, ap,
}
use eiger.Browser.{ChromeLaunchOptions, LaunchedBrowser, BrowserError}
use eiger.Pool.{SessionEntry, PoolError}
use eiger.Pool.Runtime.{Runtime}
use eiger.Pool.State.{SessionPool, update_entry, clone_arc, drop_arc, drop_option}
use eiger.Pool.State.Owners.{drop_arc-Keeps}
use eiger.Pool.Create.{CreateEnv, new_entry, launched, launch_session, launch_succeeded, register}
use eiger.Pool.Sessions.{is_ready, touched, used, connect_entry, connect_session, entry_at}
use eiger.Pool.Sessions.Entries.{
  entry_in-append, entry_at-clone_arc, entry_at-drop_arc, entry_at-drop_option,
}
use eiger.Pool.Ledger.{
  Phase, idle, taken, Ledger, phase, claim, requested, after, after_same, Follows, opened_by,
  requested_entry, ledger,
}
use eiger.Pool.Ledger.Frames.{
  ledger_at, ledger_same, ledger-update_entry, ledger-write_outside, ledger-listed_write,
}
use eiger.Pool.Steps.{Task}
use eiger.Pool.Steps.Tidy.{Tidy, same_entries, sessions-clone_arc, clone_arc-Evolves, Evolves-Tidy}
use eiger.Pool.Steps.Tidy.Map
use eiger.Pool.Steps.Tidy.Map.{retask, removed, same_there}

-- Asking for a session that is there.
claimed :
    (l : Ledger) (id : ℕ) (p : Phase)
    → l id ≡ some p
    → (j : ℕ) → (if id == j then some taken else l j) ≡ after (requested id) l j
claimed l id p there j = elim (Bool-cases (id == j)) [
  | inl h ↦
      let same : id ≡ j = (==_iff id j).0 h in
      let at : l j ≡ some p = rw (← same) there in rw (h, at) refl
  | inr h ↦ rw h refl
]

-- Asking for a session that is not there, or is taken.
unclaimed : (l : Ledger) (id : ℕ) → claim (l id) ≡ l id → (j : ℕ) → l j ≡ after (requested id) l j
unclaimed l id kept j = elim (Bool-cases (id == j)) [
  | inl h ↦ let same : id ≡ j = (==_iff id j).0 h in rw h (rw (← same) (sym kept))
  | inr h ↦ rw h refl
]

module _ (rt : Runtime) where
  pub clone_stays :
      (a : ℕ) (s : SessionPool rt) (j : ℕ) → ledger rt (clone_arc rt a s) j ≡ ledger rt s j
  clone_stays a s =
      ledger_same rt s (clone_arc rt a s) (sessions-clone_arc rt a s) (entry_at-clone_arc rt a s)

  pub drop_stays :
      (a : ℕ) (s : SessionPool rt) (j : ℕ) → ledger rt (drop_arc rt a s) j ≡ ledger rt s j
  drop_stays a s =
      ledger_same rt s (drop_arc rt a s) (drop_arc-Keeps rt a s).same_sessions
        (entry_at-drop_arc rt a s)

  abbrev marked : ℕ → ℕ → ℕ → SessionPool rt → SessionPool rt
  marked now instant a s = update_entry rt a (touched now instant) (update_entry rt a used s)

  -- A mark on the entry of a session.
  mark_listed :
      (now instant id a : ℕ) (e : SessionEntry) (s : SessionPool rt) (ts : List Task)
      → Tidy rt s ts
      → rt.get s.sessions id ≡ some a
      → entry_at rt s a ≡ some e
      → (j : ℕ)
      → ledger rt (marked now instant a s) j ≡ (if id == j then some taken else ledger rt s j)
  mark_listed now instant id a e s ts y g there j =
      ledger-update_entry rt a (touched now instant) _ (λ x. refl) j
      ∙ ledger-listed_write rt id a used e s ts y g there j

  mark_unlisted :
      (now instant a : ℕ) (s : SessionPool rt)
      → ((id : ℕ) → rt.get s.sessions id ≡ some a → ⊥)
      → (j : ℕ) → ledger rt (marked now instant a s) j ≡ ledger rt s j
  mark_unlisted now instant a s u j =
      ledger-update_entry rt a (touched now instant) _ (λ x. refl) j
      ∙ ledger-write_outside rt a used s u j

  -- An id that has an entry is the entry's own.
  own_key :
      (id a : ℕ) (e : SessionEntry) (s : SessionPool rt) (ts : List Task)
      → Tidy rt s ts
      → entry_at rt s a ≡ some e
      → rt.get s.sessions id ≡ some a
      → rt.get s.sessions e.id ≡ some a
  own_key id a e s ts y there g =
      let l = y.listed id a g in
      let both : some e ≡ some l.entry = rw (← there) l.there in
      let same : e ≡ l.entry = cc in rw (same, l.own_id) g

  -- A mark asks for the session of the entry, if it has one.
  pub mark-Follows :
      (now instant a : ℕ) (s : SessionPool rt) (ts : List Task)
      → Tidy rt s ts
      → Follows
          (requested_entry rt s a (entry_at rt s a))
          (ledger rt s)
          (ledger rt (marked now instant a s))
  mark-Follows now instant a s ts y j = elim (Option-cases (entry_at rt s a)) [
    | inl e ↦ rw e (
        mark_unlisted now instant a s
          (λ id g.
            let clash : none ≡ some (y.listed id a g).entry = rw (← e) (y.listed id a g).there in
            cc)
          j)
    | inr (e, there) ↦ elim (Option-cases (rt.get s.sessions e.id)) [
      | inl g ↦
          rw (there, g)
            (mark_unlisted now instant a s
              (λ id h.
                let own = own_key id a e s ts y there h in
                let clash : none ≡ some a = rw (← g) own in cc)
              j)
      | inr (b, g) ↦ elim (Bool-cases (b == a)) [
        | inl k ↦
            let at : rt.get s.sessions e.id ≡ some a = rw (← (==_iff b a).0 k) g in
            rw (there, g, k)
              (mark_listed now instant e.id a e s ts y at there j
                ∙ claimed (ledger rt s) e.id (phase e.state) (ledger_at rt s e.id a e at there) j)
        | inr k ↦
            rw (there, g, k)
              (mark_unlisted now instant a s
                (λ id h.
                  let own = own_key id a e s ts y there h in
                  let both : some b ≡ some a = rw (← g) own in
                  let same : b ≡ a = cc in let hit = (==_iff b a).1 same in cc)
                j)
      ]
    ]
  ]

  -- A session that is registered opens.
  register-opens :
      (e : SessionEntry) (s : SessionPool rt) (ts : List Task)
      → Tidy rt s ts
      → is_ready e.state ≡ true
      → (j : ℕ) → ledger rt (register rt e s).0 j ≡ (if e.id == j then some idle else ledger rt s j)
  unfolding register
  register-opens e s ts y r j =
      ledger_same rt grown (drop_option rt (rt.get s.sessions e.id) grown)
        (sessions-drop_option (rt.get s.sessions e.id) grown)
        (entry_at-drop_option rt (rt.get s.sessions e.id) grown) j
      ∙ grown_ledger
    where
      grown : SessionPool rt
      grown = Map.grown rt s e ts y

      sessions-drop_option :
          (o : Option ℕ) (t : SessionPool rt) → (drop_option rt o t).sessions ≡ t.sessions
      sessions-drop_option none t = refl
      sessions-drop_option (some a) t = (drop_arc-Keeps rt a t).same_sessions

      grown_ledger : ledger rt grown j ≡ (if e.id == j then some idle else ledger rt s j)
      grown_ledger = elim (Bool-cases (e.id == j)) [
        | inl h ↦ rw (
          rt.get-insert s.sessions e.id (length s.arcs) j,
          h,
          entry_in-append s.arcs (record { entry = e; strong = 2 }) (length s.arcs),
          ==_refl (length s.arcs),
          r,
        )
        | inr h ↦ elim (Option-cases (rt.get s.sessions j)) [
          | inl g ↦ rw (rt.get-insert s.sessions e.id (length s.arcs) j, h, g)
          | inr (b, g) ↦
              let l = y.listed j b g in
              rw (
                rt.get-insert s.sessions e.id (length s.arcs) j,
                h,
                g,
                Map.same_there rt s e ts y b l.entry l.there,
                l.there,
              )
        ]
      ]

  pub launch-Follows :
      (s : SessionPool rt) (ts : List Task) (env : CreateEnv)
      (o : Result ChromeLaunchOptions PoolError)
      → Tidy rt s ts
      → Follows
          (opened_by env.id (launch_session rt env o s).0)
          (ledger rt s)
          (ledger rt (launch_session rt env o s).1)
  unfolding launch_session
  launch-Follows s ts env (err e) y = λ j. refl
  launch-Follows s ts env (ok o) y = of_launch (env.launch o)
    where
      of_launch :
          (r : Result LaunchedBrowser BrowserError)
          → Follows
              (opened_by env.id (launched rt env o r s).0)
              (ledger rt s)
              (ledger rt (launched rt env o r s).1)
      of_launch (err e) = λ j. refl
      of_launch (ok b) =
          register-opens (new_entry o.stealth.enabled b env.id env.now env.instant)
            (launch_succeeded rt s) ts
            (Evolves-Tidy rt (same_entries rt s (launch_succeeded rt s) refl (λ b. refl)) ts y) refl

  -- Of a session that is listed.
  connect_entry-Follows :
      (s : SessionPool rt) (ts : List Task) (now instant id a : ℕ) (e : SessionEntry)
      → Tidy rt s ts
      → rt.get s.sessions id ≡ some a
      → entry_at rt s a ≡ some e
      → Follows
          (requested id)
          (ledger rt s)
          (ledger rt (connect_entry rt now instant id a (some e) s).1)
  unfolding connect_entry
  connect_entry-Follows s ts now instant id a e y g there j =
      let was = ledger_at rt s id a e g there in
      elim (Bool-cases (is_ready e.state)) [
        | inl h ↦
            rw (h, connect_entry)
              (mark_listed now instant id a e s ts y g there j
                ∙ claimed (ledger rt s) id (phase e.state) was j)
        | inr h ↦
            let busy : ledger rt s id ≡ some taken = was ∙ rw h refl in
            rw (h, connect_entry)
              (drop_stays a s j ∙ unclaimed (ledger rt s) id (ap claim busy ∙ sym busy) j)
      ]

  pub connect_session-Follows :
      (s : SessionPool rt) (ts : List Task) (now instant id : ℕ)
      → Tidy rt s ts
      → Follows (requested id) (ledger rt s) (ledger rt (connect_session rt now instant id s).1)
  unfolding connect_session
  connect_session-Follows s ts now instant id y j = elim (Option-cases (rt.get s.sessions id)) [
    | inl g ↦
        let absent : ledger rt s id ≡ none = rw g refl in
        rw (g, connect_session) (unclaimed (ledger rt s) id (ap claim absent ∙ sym absent) j)
    | inr (a, g) ↦
        let l = y.listed id a g in
        let s' = clone_arc rt a s in
        let y' = Evolves-Tidy rt (clone_arc-Evolves rt a s) ts y in
        let g' : rt.get s'.sessions id ≡ some a = rw (sessions-clone_arc rt a s) g in
        let there' : entry_at rt s' a ≡ some l.entry = entry_at-clone_arc rt a s a ∙ l.there in
        rw (g, connect_session, l.there)
          (connect_entry-Follows s' ts now instant id a l.entry y' g' there' j
            ∙ after_same (requested id) (ledger rt s') (ledger rt s) (clone_stays a s) j)
  ]

  -- A request for an entry that is taken changes nothing.
  taken-requested :
      (a : ℕ) (e : SessionEntry) (s : SessionPool rt)
      → entry_at rt s a ≡ some e
      → is_ready e.state ≡ false
      → (j : ℕ) → ledger rt s j ≡ after (requested_entry rt s a (some e)) (ledger rt s) j
  taken-requested a e s there busy j = elim (Option-cases (rt.get s.sessions e.id)) [
    | inl g ↦ rw g refl
    | inr (b, g) ↦ elim (Bool-cases (b == a)) [
      | inr k ↦ rw (g, k) refl
      | inl k ↦
          let at : rt.get s.sessions e.id ≡ some a = rw (← (==_iff b a).0 k) g in
          let was : ledger rt s e.id ≡ some taken =
            ledger_at rt s e.id a e at there ∙ rw busy refl in
          rw (g, k) (unclaimed (ledger rt s) e.id (ap claim was ∙ sym was) j)
    ]
  ]

  pub connect_found-Follows :
      (s : SessionPool rt) (ts : List Task) (now instant id a : ℕ) (o : Option SessionEntry)
      → entry_at rt s a ≡ o
      → Tidy rt s ts
      → Follows
          (requested_entry rt s a o)
          (ledger rt s)
          (ledger rt (connect_entry rt now instant id a o s).1)
  unfolding connect_entry
  connect_found-Follows s ts now instant id a none there y j = drop_stays a s j
  connect_found-Follows s ts now instant id a (some e) there y j =
      elim (Bool-cases (is_ready e.state)) [
        | inl h ↦
            let marks = mark-Follows now instant a s ts y j in
            rw (h, connect_entry) (rw there at marks)
        | inr h ↦ rw (h, connect_entry) (drop_stays a s j ∙ taken-requested a e s there h j)
      ]
