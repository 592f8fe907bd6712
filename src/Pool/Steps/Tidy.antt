-- ===== src/Pool/Steps/Tidy.antt =====
-- What the map of sessions lists, under any interleaving of the pool's tasks.
pub mod Map
pub mod Keys
pub mod Preservation
use eiger.Common.{
  ℕ, ◌==◌, ◌≡◌, refl, inl, inr, true, false, List, [], ◌∷◌, ◌++◌, Option, none, some, arith,
  option_map, if◌then◌else◌, Bool-cases, Option-cases, All, All-append, All-split, All-map,
  get_elem?, ◌∙◌,
}
use eiger.Pool.{SessionEntry}
use eiger.Pool.Runtime.{Runtime}
use eiger.Pool.State.{SessionPool, update_entry, clone_arc, drop_arc}
use eiger.Pool.State.Owners.{update_entry-Keeps, drop_arc-Keeps}
use eiger.Pool.Sessions.{entry_at}
use eiger.Pool.Sessions.Entries.{entry_at-update_entry, entry_at-clone_arc, entry_at-drop_arc}
use eiger.Pool.Maintenance.{is_going}
use eiger.Pool.Steps.{Task, admitted, holding, leaving, closing}

module _ (rt : Runtime) where
  -- The map has an entry under its own id, which is neither shut down nor being so.
  pub record Listed (s : SessionPool rt) (id a : ℕ) : Type 0 where
    pub entry : SessionEntry
    pub there : entry_at rt s a ≡ some entry
    pub own_id : entry.id ≡ id
    pub not_going : is_going entry.state ≡ false

  -- An entry that the map no longer has.
  pub record Unlisted (s : SessionPool rt) (a : ℕ) : Type 0 where
    pub entry : SessionEntry
    pub there : entry_at rt s a ≡ some entry
    pub not_listed : (id : ℕ) → rt.get s.sessions id ≡ some a → ⊥

  abbrev pub TaskTidy : SessionPool rt → Task → Type 0
  TaskTidy s admitted = Unit
  TaskTidy s (holding a) = Unit
  TaskTidy s (leaving a reason) = Unlisted s a
  TaskTidy s (closing a reason) = Unlisted s a

  pub record Tidy (s : SessionPool rt) (ts : List Task) : Type 0 where
    pub listed : (id a : ℕ) → rt.get s.sessions id ≡ some a → Listed s id a
    pub unlisted : All (TaskTidy s) ts

  -- A step that keeps the map, each entry's id, and that an entry is not being shut down.
  pub record Evolves (s t : SessionPool rt) : Type 0 where
    pub same_sessions : t.sessions ≡ s.sessions
    pub moved :
        (b : ℕ) (e : SessionEntry)
        → entry_at rt s b ≡ some e
        → (e' : SessionEntry) × (entry_at rt t b ≡ some e')
          × (e'.id ≡ e.id)
          × (is_going e.state ≡ false → is_going e'.state ≡ false)

  pub same_entries :
      (s t : SessionPool rt)
      → t.sessions ≡ s.sessions
      → ((b : ℕ) → entry_at rt t b ≡ entry_at rt s b)
      → Evolves s t
  same_entries s t m h = record {
    same_sessions = m;
    moved = λ b e there. (e, h b ∙ there, refl, λ g. g);
  }

  pub sessions-clone_arc : (a : ℕ) (s : SessionPool rt) → (clone_arc rt a s).sessions ≡ s.sessions
  unfolding clone_arc
  sessions-clone_arc a s = elim (Option-cases (get_elem? s.arcs a)) [
    | inl e ↦ rw (e, clone_arc)
    | inr (c, e) ↦ rw (e, clone_arc)
  ]

  pub clone_arc-Evolves : (a : ℕ) (s : SessionPool rt) → Evolves s (clone_arc rt a s)
  clone_arc-Evolves a s = same_entries s _ (sessions-clone_arc a s) (entry_at-clone_arc rt a s)

  pub drop_arc-Evolves : (a : ℕ) (s : SessionPool rt) → Evolves s (drop_arc rt a s)
  drop_arc-Evolves a s =
      same_entries s _ (drop_arc-Keeps rt a s).same_sessions (entry_at-drop_arc rt a s)

  pub update_entry-Evolves :
      (a : ℕ) (f : SessionEntry → SessionEntry) (s : SessionPool rt)
      → ((e : SessionEntry) → (f e).id ≡ e.id)
      → ((e : SessionEntry) → is_going e.state ≡ false → is_going (f e).state ≡ false)
      → Evolves s (update_entry rt a f s)
  update_entry-Evolves a f s same alive = record {
    same_sessions = (update_entry-Keeps rt a f s).same_sessions;
    moved = λ b e there. elim (Bool-cases (a == b)) [
      | inl h ↦ (f e, rw (entry_at-update_entry rt a f s b, h, there), same e, alive e)
      | inr h ↦ (e, rw (entry_at-update_entry rt a f s b, h, there), refl, λ g. g)
    ];
  }

  module _ {s t : SessionPool rt} (v : Evolves s t) where
    Evolves-Listed : (id a : ℕ) → Listed s id a → Listed t id a
    Evolves-Listed id a l =
        let (e', there, same, alive) = v.moved a l.entry l.there in
        record {
          entry = e';
          there = there;
          own_id = same ∙ l.own_id;
          not_going = alive l.not_going;
        }

    Evolves-Unlisted : (a : ℕ) → Unlisted s a → Unlisted t a
    Evolves-Unlisted a u =
        let (e', there, same, alive) = v.moved a u.entry u.there in
        record {
          entry = e';
          there = there;
          not_listed = λ id g. u.not_listed id (rw v.same_sessions at g);
        }

    Evolves-TaskTidy : (x : Task) → TaskTidy s x → TaskTidy t x
    Evolves-TaskTidy admitted u = tt
    Evolves-TaskTidy (holding a) u = tt
    Evolves-TaskTidy (leaving a reason) u = Evolves-Unlisted a u
    Evolves-TaskTidy (closing a reason) u = Evolves-Unlisted a u

    pub Evolves-Tidy : (ts : List Task) → Tidy s ts → Tidy t ts
    Evolves-Tidy ts y = record {
      listed = λ id a g. Evolves-Listed id a (y.listed id a (rw v.same_sessions at g));
      unlisted = All-map Evolves-TaskTidy ts y.unlisted;
    }
