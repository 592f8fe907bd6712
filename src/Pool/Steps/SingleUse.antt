-- ===== src/Pool/Steps/SingleUse.antt =====
-- A session is connected to once.
use eiger.Common.{
  get_elem?-set_self, ℕ, zero, suc, ◌≡◌, refl, inl, inr, false, List, [], ◌∷◌, Option, none, some,
  Option-cases, Bool-cases, ok, err, get_elem?, set, option_map,
}
use eiger.Pool.{not_found, not_connectable, SessionEntry, SessionHandle}
use eiger.Pool.Runtime.{Runtime}
use eiger.Pool.State.{Arc, SessionPool, update_entry, clone_arc}
use eiger.Pool.Sessions.{is_ready, touched, used, connect_entry, connect_session, entry_at}
use eiger.Pool.Steps.{Task, Reach}
use eiger.Pool.Steps.Unready.{Unready, update_entry-Unready, Reach-Unready}

set-Unready_self :
    (cs : List Arc) (a : ℕ) (c d : Arc)
    → get_elem? cs a ≡ some c
    → is_ready d.entry.state ≡ false
    → Unready (set cs a d) a
set-Unready_self [] a c d e h = cc
set-Unready_self (x ∷ cs) zero c d e h = h
set-Unready_self (x ∷ cs) (suc a) c d e h = set-Unready_self cs a c d e h

-- An entry that is not ready is refused.
Unready-entry :
    (cs : List Arc) (a : ℕ)
    → Unready cs a
    → (e : SessionEntry) × (option_map (λ c. c.entry) (get_elem? cs a) ≡ some e)
      × (is_ready e.state ≡ false)
Unready-entry [] a u = absurd u
Unready-entry (c ∷ cs) zero u = (c.entry, refl, u)
Unready-entry (c ∷ cs) (suc a) u = Unready-entry cs a u

module _ (rt : Runtime) where
  pub connect-Unready :
      (now instant id a : ℕ) (s : SessionPool rt)
      → rt.get s.sessions id ≡ some a
      → Unready s.arcs a
      → (connect_session rt now instant id s).0 ≡ err (not_connectable id)
  unfolding connect_session connect_entry
  connect-Unready now instant id a s e u =
      let (x, p, q) = Unready-entry s.arcs a u in rw (e, connect_session, p, connect_entry, q)

  -- An entry that is marked as used is not ready.
  used-Unready :
      (a : ℕ) (s : SessionPool rt) (c : Arc)
      → get_elem? s.arcs a ≡ some c
      → Unready (update_entry rt a used s).arcs a
  unfolding update_entry
  used-Unready a s c e = rw (e, update_entry) (set-Unready_self s.arcs a c _ e refl)

  clone_arc-there :
      (a : ℕ) (s : SessionPool rt) (c : Arc)
      → get_elem? s.arcs a ≡ some c
      → get_elem? (clone_arc rt a s).arcs a ≡ some (record c { strong = suc c.strong })
  unfolding clone_arc
  clone_arc-there a s c e = rw (e, clone_arc) (get_elem?-set_self s.arcs a _ e)

  connect_entry_ok :
      (now instant id a : ℕ) (o : Option SessionEntry) (s : SessionPool rt) (c : Arc)
      (h : SessionHandle)
      → get_elem? s.arcs a ≡ some c
      → (connect_entry rt now instant id a o s).0 ≡ ok h
      → Unready (connect_entry rt now instant id a o s).1.arcs h.entry
  unfolding connect_entry
  connect_entry_ok now instant id a none s c h there e = cc
  connect_entry_ok now instant id a (some x) s c h there e = elim (Bool-cases (is_ready x.state)) [
    | inl r ↦
        let e' : ok (record { entry = a }) ≡ ok h = rw (r, connect_entry) at e in
        let same : a ≡ h.entry = cc in
        rw (r, connect_entry, ← same)
          (update_entry-Unready rt a a (touched now instant) _ (λ y p. p)
            (used-Unready a s c there))
    | inr r ↦ let e' : err (not_connectable id) ≡ ok h = rw (r, connect_entry) at e in cc
  ]

  refused :
      (now instant id a : ℕ) (s : SessionPool rt) (h : SessionHandle)
      → (connect_entry rt now instant id a none s).0 ≡ ok h
      → ⊥
  unfolding connect_entry
  refused now instant id a s h e = cc

  connect_ok :
      (now instant id : ℕ) (s : SessionPool rt) (h : SessionHandle)
      → (connect_session rt now instant id s).0 ≡ ok h
      → Unready (connect_session rt now instant id s).1.arcs h.entry
  unfolding connect_session
  connect_ok now instant id s h e = elim (Option-cases (rt.get s.sessions id)) [
    | inl g ↦ let e' : err (not_found id) ≡ ok h = rw (g, connect_session) at e in cc
    | inr (a, g) ↦ elim (Option-cases (get_elem? s.arcs a)) [
      | inl l ↦
          let e' : (connect_entry rt now instant id a none (clone_arc rt a s)).0 ≡ ok h =
            rw (g, connect_session, l) at e in
          absurd (refused now instant id a (clone_arc rt a s) h e')
      | inr (c, l) ↦
          rw (g, connect_session)
            (connect_entry_ok now instant id a (entry_at rt s a) (clone_arc rt a s) _ h
              (clone_arc-there a s c l) (rw (g, connect_session) at e))
    ]
  ]

  -- After one client has connected to a session, every later attempt to connect to it is refused as not
  -- connectable, whatever the tasks of the pool do in between and as long as the map still holds it.
  pub connected_once :
      (s t : SessionPool rt) (ts us : List Task) (now instant id : ℕ) (h : SessionHandle)
      (now' instant' id' : ℕ)
      → (connect_session rt now instant id s).0 ≡ ok h
      → Reach rt (connect_session rt now instant id s).1 ts t us
      → rt.get t.sessions id' ≡ some h.entry
      → (connect_session rt now' instant' id' t).0 ≡ err (not_connectable id')
  connected_once s t ts us now instant id h now' instant' id' e r g =
      connect-Unready now' instant' id' h.entry t g
        (Reach-Unready rt h.entry r (connect_ok now instant id s h e))
