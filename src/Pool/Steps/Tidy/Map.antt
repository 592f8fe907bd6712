-- ===== src/Pool/Steps/Tidy/Map.antt =====
-- The map of sessions where an entry leaves it, or a new one comes in.
use eiger.Common.{
  ℕ, String, ◌==◌, ◌≡◌, inl, inr, true, false, List, [], ◌∷◌, ◌++◌, none, some, Bool-cases, All,
  All-append, All-split, All-map, ==_iff, ==_refl, length, fetch_add,
}
use eiger.Pool.{SessionEntry}
use eiger.Pool.Runtime.{Runtime}
use eiger.Pool.State.{SessionPool, update_entry}
use eiger.Pool.State.Owners.{update_entry-Keeps}
use eiger.Pool.Sessions.{entry_at}
use eiger.Pool.Sessions.Entries.{entry_in-append, entry_in-length, entry_at-update_entry}
use eiger.Pool.Maintenance.{is_going}
use eiger.Pool.Steps.{Task, admitted, holding, leaving, closing}
use eiger.Pool.Steps.Tidy.{Listed, Unlisted, TaskTidy, Tidy}

module _ (rt : Runtime) where
  -- The tasks of a tidy pool, where one goes on as another.
  pub retask :
      (s : SessionPool rt) (before after : List Task) (x : Task)
      → Tidy rt s (before ++ x ∷ after)
      → TaskTidy rt s x
        × ((ys : List Task) → All (TaskTidy rt s) ys → Tidy rt s (ys ++ before ++ after))
  retask s before after x y =
      let (hb, h) = All-split (TaskTidy rt s) before (x ∷ after) y.unlisted in
      (
        h.0,
        λ ys hy. record {
          listed = y.listed;
          unlisted =
              All-append (TaskTidy rt s) (ys ++ before) after
                (All-append (TaskTidy rt s) ys before hy hb) h.1;
        },
      )

  -- The entries that a pool lists have distinct addresses.
  pub listed_once :
      (s : SessionPool rt) (ts : List Task) (i j a : ℕ)
      → Tidy rt s ts
      → rt.get s.sessions i ≡ some a
      → rt.get s.sessions j ≡ some a
      → i ≡ j
  listed_once s ts i j a y gi gj =
      let li = y.listed i a gi in
      let lj = y.listed j a gj in
      let same : some li.entry ≡ some lj.entry = rw (← li.there) lj.there in
      let here : li.entry ≡ lj.entry = cc in cc (li.own_id, lj.own_id)

  -- A write to an entry that the map no longer has.
  pub write_outside :
      (a : ℕ) (f : SessionEntry → SessionEntry) (s : SessionPool rt) (ts : List Task)
      → Unlisted rt s a
      → Tidy rt s ts
      → Tidy rt (update_entry rt a f s) ts
  write_outside a f s ts u y =
      let m = (update_entry-Keeps rt a f s).same_sessions in
      record {
        listed = λ id b g.
            let l = y.listed id b (rw m at g) in
            record {
              entry = l.entry;
              there = elim (Bool-cases (a == b)) [
                | inl h ↦ absurd (u.not_listed id (rw ((==_iff a b).0 h) (rw m at g)))
                | inr h ↦ rw (entry_at-update_entry rt a f s b, h) l.there
              ];
              own_id = l.own_id;
              not_going = l.not_going;
            };
        unlisted = All-map (rewritten m) ts y.unlisted;
      }
    where
      rewritten :
          (update_entry rt a f s).sessions ≡ s.sessions
          → (x : Task) → TaskTidy rt s x
          → TaskTidy rt (update_entry rt a f s) x
      rewritten m admitted v = tt
      rewritten m (holding b) v = tt
      rewritten m (leaving b reason) v = elim (Bool-cases (a == b)) [
        | inl h ↦ record {
          entry = f v.entry;
          there = rw (entry_at-update_entry rt a f s b, h, v.there);
          not_listed = λ id g. v.not_listed id (rw m at g);
        }
        | inr h ↦ record {
          entry = v.entry;
          there = rw (entry_at-update_entry rt a f s b, h, v.there);
          not_listed = λ id g. v.not_listed id (rw m at g);
        }
      ]
      rewritten m (closing b reason) v = elim (Bool-cases (a == b)) [
        | inl h ↦ record {
          entry = f v.entry;
          there = rw (entry_at-update_entry rt a f s b, h, v.there);
          not_listed = λ id g. v.not_listed id (rw m at g);
        }
        | inr h ↦ record {
          entry = v.entry;
          there = rw (entry_at-update_entry rt a f s b, h, v.there);
          not_listed = λ id g. v.not_listed id (rw m at g);
        }
      ]

  -- A session that is taken out of the map.
  pub removed :
      (s : SessionPool rt) (ts : List Task) (id a : ℕ) (reason : String)
      → Tidy rt s ts
      → rt.get s.sessions id ≡ some a
      → Tidy rt (record s { sessions = rt.remove s.sessions id }) (closing a reason ∷ ts)
  removed s ts id a reason y g =
      let l = y.listed id a g in
      record {
        listed = λ j b h.
            let k = y.listed j b (still j b h) in
            record { entry = k.entry; there = k.there; own_id = k.own_id; not_going = k.not_going };
        unlisted = (
          record {
            entry = l.entry;
            there = l.there;
            not_listed = λ j h. other j a h (listed_once s ts id j a y g (still j a h));
          },
          All-map kept ts y.unlisted,
        );
      }
    where
      other : (j b : ℕ) → rt.get (rt.remove s.sessions id) j ≡ some b → id ≡ j → ⊥
      other j b h e =
          let hit : (id == j) ≡ true = (==_iff id j).1 e in
          let gone : none ≡ some b = rw (rt.get-remove s.sessions id j, hit) at h in cc

      still : (j b : ℕ) → rt.get (rt.remove s.sessions id) j ≡ some b → rt.get s.sessions j ≡ some b
      still j b h = elim (Bool-cases (id == j)) [
        | inl e ↦ absurd (other j b h ((==_iff id j).0 e))
        | inr e ↦ rw (rt.get-remove s.sessions id j, e) at h
      ]

      kept :
          (x : Task)
          → TaskTidy rt s x
          → TaskTidy rt (record s { sessions = rt.remove s.sessions id }) x
      kept admitted u = tt
      kept (holding b) u = tt
      kept (leaving b r) u = record {
        entry = u.entry;
        there = u.there;
        not_listed = λ j h. u.not_listed j (still j b h);
      }
      kept (closing b r) u = record {
        entry = u.entry;
        there = u.there;
        not_listed = λ j h. u.not_listed j (still j b h);
      }

  pub taken_out :
      (s : SessionPool rt) (ts : List Task) (id a : ℕ) (reason : String)
      → Tidy rt s ts
      → rt.get s.sessions id ≡ some a
      → Tidy rt (record s { sessions = rt.remove s.sessions id }) (leaving a reason ∷ ts)
  taken_out s ts id a reason y g =
      let z = removed s ts id a reason y g in
      record { listed = z.listed; unlisted = (z.unlisted.0, z.unlisted.1) }

  -- The entry of a new allocation.
  module _ (s : SessionPool rt) (e : SessionEntry) (ts : List Task) (y : Tidy rt s ts) where
    abbrev pub grown : SessionPool rt
    grown = record s {
      sessions = rt.insert s.sessions e.id (length s.arcs);
      arcs = s.arcs ++ record { entry = e; strong = 2 } ∷ [];
      counters = record s.counters {
        sessions_created_total = fetch_add s.counters.sessions_created_total;
      };
    }

    fresh : (b : ℕ) (x : SessionEntry) → entry_at rt s b ≡ some x → (length s.arcs == b) ≡ false
    fresh b x h = elim (Bool-cases (length s.arcs == b)) [
      | inl e ↦
          let gone : none ≡ some x =
            rw (← (==_iff (length s.arcs) b).0 e, entry_in-length s.arcs) at h in
          cc
      | inr e ↦ e
    ]

    pub same_there :
        (b : ℕ) (x : SessionEntry) → entry_at rt s b ≡ some x → entry_at rt grown b ≡ some x
    same_there b x h = rw (entry_in-append s.arcs _ b, fresh b x h) h

    inserted :
        is_going e.state ≡ false
        → (j b : ℕ) → rt.get grown.sessions j ≡ some b
        → Listed rt grown j b
    inserted ready j b g = elim (Bool-cases (e.id == j)) [
      | inl h ↦
          let new : some (length s.arcs) ≡ some b =
            rw (rt.get-insert s.sessions e.id (length s.arcs) j, h) at g in
          let at : length s.arcs ≡ b = cc in
          record {
            entry = e;
            there = rw (← at, entry_in-append s.arcs _ (length s.arcs), ==_refl (length s.arcs));
            own_id = (==_iff e.id j).0 h;
            not_going = ready;
          }
      | inr h ↦
          let l = y.listed j b (rw (rt.get-insert s.sessions e.id (length s.arcs) j, h) at g) in
          record {
            entry = l.entry;
            there = same_there b l.entry l.there;
            own_id = l.own_id;
            not_going = l.not_going;
          }
    ]

    unreached : (a j : ℕ) → Unlisted rt s a → rt.get grown.sessions j ≡ some a → ⊥
    unreached a j u g = elim (Bool-cases (e.id == j)) [
      | inl h ↦
          let new : some (length s.arcs) ≡ some a =
            rw (rt.get-insert s.sessions e.id (length s.arcs) j, h) at g in
          let here : length s.arcs ≡ a = cc in
          let clash : (length s.arcs == a) ≡ true = (==_iff (length s.arcs) a).1 here in
          let not_here = fresh a u.entry u.there in cc
      | inr h ↦ u.not_listed j (rw (rt.get-insert s.sessions e.id (length s.arcs) j, h) at g)
    ]

    grown_task : (x : Task) → TaskTidy rt s x → TaskTidy rt grown x
    grown_task admitted u = tt
    grown_task (holding a) u = tt
    grown_task (leaving a reason) u = record {
      entry = u.entry;
      there = same_there a u.entry u.there;
      not_listed = λ j. unreached a j u;
    }
    grown_task (closing a reason) u = record {
      entry = u.entry;
      there = same_there a u.entry u.there;
      not_listed = λ j. unreached a j u;
    }

    pub grown-Tidy : is_going e.state ≡ false → Tidy rt grown ts
    grown-Tidy ready = record {
      listed = inserted ready;
      unlisted = All-map grown_task ts y.unlisted;
    }
