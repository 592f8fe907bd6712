-- ===== src/Pool/Steps/Moves.antt =====
-- What the parts of the pool's operations do to owners and permits.
use eiger.Common.{
  ℕ, suc, ◌+◌, ◌≤◌, ◌<◌, ◌≡◌, refl, inl, inr, String, List, [], ◌∷◌, ◌++◌, none, some, arith,
  Option-cases, fetch_add, length, ap, ◌∙◌,
}
use eiger.Browser.Shutdown.{ChildAnswers}
use eiger.Pool.{SessionEntry, killing, dead}
use eiger.Pool.Runtime.{Runtime}
use eiger.Pool.Heap.{delta, refs, refs-perm, owners_at-concat, owners_at-length, live-concat}
use eiger.Pool.State.{Arc, SessionPool, update_entry}
use eiger.Pool.State.Owners.{
  strongs, own, held, Keeps, update_entry-Keeps, own-update_entry, own-drop_arc, drop_arc-Keeps,
}
use eiger.Pool.Create.{register}
use eiger.Pool.Shutdown.{begin_shutdown, finish_shutdown, counted_shutdown, browser_of}

strongs-concat : (cs : List Arc) (c : Arc) → strongs (cs ++ c ∷ []) ≡ strongs cs ++ c.strong ∷ []
strongs-concat [] c = refl
strongs-concat (x ∷ cs) c = ap (◌∷◌ x.strong) (strongs-concat cs c)

length-strongs : (cs : List Arc) → length (strongs cs) ≡ length cs
length-strongs [] = refl
length-strongs (x ∷ cs) = ap suc (length-strongs cs)

module _ (rt : Runtime) where
  pub own-begin_shutdown :
      (a : ℕ) (reason : String) (s : SessionPool rt) (b : ℕ)
      → own rt (begin_shutdown rt a reason s) b ≡ own rt s b
  unfolding begin_shutdown
  own-begin_shutdown a reason s b = own-update_entry rt a _ s b

  pub begin_shutdown-Keeps :
      (a : ℕ) (reason : String) (s : SessionPool rt) → Keeps rt s (begin_shutdown rt a reason s)
  unfolding begin_shutdown
  begin_shutdown-Keeps a reason s =
      let k =
        update_entry-Keeps rt a (λ e. record e { state = killing; kill_reason = some reason }) s in
      record {
        same_sessions = k.same_sessions;
        same_options = k.same_options;
        same_held = k.same_held;
      }

  pub own-finish_shutdown :
      (a : ℕ) (reason : String) (answers : ChildAnswers) (s : SessionPool rt) (b : ℕ)
      → 0 < own rt s a
      → own rt (finish_shutdown rt a reason answers s) b + delta a b ≡ own rt s b
  unfolding finish_shutdown
  own-finish_shutdown a reason answers s b h =
      let s' : SessionPool rt = record s {
        counters = counted_shutdown (browser_of rt a s) reason answers s.counters;
      } in
      let f = λ (e : SessionEntry). record e { state = dead; browser = none } in
      omega (
        arith,
        own-drop_arc rt a (update_entry rt a f s') b (omega (arith, own-update_entry rt a f s' a)),
        own-update_entry rt a f s' b,
      )

  pub finish_shutdown-Keeps :
      (a : ℕ) (reason : String) (answers : ChildAnswers) (s : SessionPool rt)
      → Keeps rt s (finish_shutdown rt a reason answers s)
  unfolding finish_shutdown
  finish_shutdown-Keeps a reason answers s =
      let s' : SessionPool rt = record s {
        counters = counted_shutdown (browser_of rt a s) reason answers s.counters;
      } in
      let f = λ (e : SessionEntry). record e { state = dead; browser = none } in
      let k = update_entry-Keeps rt a f s' in
      let l = drop_arc-Keeps rt a (update_entry rt a f s') in
      record {
        same_sessions = l.same_sessions ∙ k.same_sessions;
        same_options = l.same_options ∙ k.same_options;
        same_held = l.same_held ∙ k.same_held;
      }

  pub refs-remove :
      (m : rt.Sessions) (k a b : ℕ)
      → rt.get m k ≡ some a
      → refs b (rt.entries m) ≡ delta a b + refs b (rt.entries (rt.remove m k))
  refs-remove m k a b e = refs-perm b (rt.entries_at m k a e)

  pub refs-insert :
      (m : rt.Sessions) (k a b : ℕ)
      → refs b (rt.entries (rt.insert m k a)) ≡ delta a b + refs b (rt.entries (rt.remove m k))
  refs-insert m k a b = refs-perm b (rt.entries-insert m k a)

  -- The allocation of `register` before the entry that it replaces is dropped.
  abbrev allocated : SessionEntry → SessionPool rt → SessionPool rt
  allocated e s = record s {
    sessions = rt.insert s.sessions e.id (length s.arcs);
    arcs = s.arcs ++ record { entry = e; strong = 2 } ∷ [];
  }

  pub own_fresh : (s : SessionPool rt) → own rt s (length s.arcs) ≡ 0
  own_fresh s = rw (← length-strongs s.arcs) (owners_at-length (strongs s.arcs))

  own-allocated :
      (e : SessionEntry) (s : SessionPool rt) (b : ℕ)
      → own rt (allocated e s) b ≡ own rt s b + (delta (length s.arcs) b + delta (length s.arcs) b)
  own-allocated e s b =
      rw (strongs-concat s.arcs _)
        (ground (arith, owners_at-concat (strongs s.arcs) 2 b, length-strongs s.arcs))

  held-allocated : (e : SessionEntry) (s : SessionPool rt) → held rt (allocated e s) ≡ held rt s + 1
  held-allocated e s = rw (strongs-concat s.arcs _) (omega (arith, live-concat (strongs s.arcs) 2))

  -- What `register` does: one more allocation, owned by the map and the handle.
  pub record Registers (e : SessionEntry) (s : SessionPool rt) : Type 0 where
    pub new_sessions : (register rt e s).0.sessions ≡ rt.insert s.sessions e.id (length s.arcs)
    pub kept_options : (register rt e s).0.options ≡ s.options
    pub one_more : held rt (register rt e s).0 ≡ held rt s + 1
    pub new_owners :
        (b : ℕ)
        → own rt (register rt e s).0 b + refs b (rt.entries s.sessions)
          ≡ own rt s b
            + delta (length s.arcs) b
            + refs b (rt.entries (rt.insert s.sessions e.id (length s.arcs)))

  module _ (e : SessionEntry) (s : SessionPool rt) where
    -- The state that `register` drops the replaced entry in.
    abbrev grown : SessionPool rt
    grown = record (allocated e s) {
      counters = record s.counters {
        sessions_created_total = fetch_add s.counters.sessions_created_total;
      };
    }

    register_new : rt.get s.sessions e.id ≡ none → Registers e s
    unfolding register
    register_new h = record {
      new_sessions = rw (h, register);
      kept_options = rw (h, register);
      one_more = rw (h, register) (held-allocated e s);
      new_owners = λ b.
          rw (h, register)
            (omega (
              arith,
              own-allocated e s b,
              refs-insert s.sessions e.id (length s.arcs) b,
              ap (refs b) (rt.entries_missing s.sessions e.id h),
            ));
    }

    module _ (owned : (b : ℕ) → refs b (rt.entries s.sessions) ≤ own rt s b) where
      register_over : (o : ℕ) → rt.get s.sessions e.id ≡ some o → Registers e s
      unfolding register
      register_over o h =
          let k = drop_arc-Keeps rt o grown in
          let grown_owner : 0 < own rt grown o =
            ground (arith, own-allocated e s o, owned o, refs-remove s.sessions e.id o o h) in
          record {
            new_sessions = rw (h, register) k.same_sessions;
            kept_options = rw (h, register) k.same_options;
            one_more = rw (h, register) (k.same_held ∙ held-allocated e s);
            new_owners = λ b.
                rw (h, register)
                  (omega (
                    arith,
                    own-allocated e s b,
                    own-drop_arc rt o grown b grown_owner,
                    refs-insert s.sessions e.id (length s.arcs) b,
                    refs-remove s.sessions e.id o b h,
                  ));
          }

      pub register-Registers : Registers e s
      register-Registers = elim (Option-cases (rt.get s.sessions e.id)) [
        | inl h ↦ register_new h
        | inr (o, h) ↦ register_over o h
      ]
