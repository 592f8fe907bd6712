-- ===== src/Pool/Sessions/Entries.antt =====
-- crates/eiger-pool/src/lib.rs: what the operations on `Arc`s do to the entries.
use eiger.Common.{
  ℕ, zero, suc, ◌==◌, ◌≡◌, refl, inl, inr, List, [], ◌∷◌, ◌++◌, Option, none, some, arith, length,
  Option-cases, Bool-cases, ==_iff, true, get_elem?, set, option_map, if◌then◌else◌,
}
use eiger.Pool.{SessionEntry}
use eiger.Pool.Runtime.{Runtime}
use eiger.Pool.State.{
  Arc, SessionPool, update_entry, clone_arc, drop_counted, drop_arc, drop_option,
}
use eiger.Pool.Sessions.{entry_at}

abbrev pub entry_in : List Arc → ℕ → Option SessionEntry
entry_in cs b = option_map (λ c. c.entry) (get_elem? cs b)

entry_in-set :
    (cs : List Arc) (a b : ℕ) (c d : Arc)
    → get_elem? cs a ≡ some c
    → entry_in (set cs a d) b ≡ (if a == b then some d.entry else entry_in cs b)
entry_in-set [] a b c d e = cc
entry_in-set (x ∷ cs) zero zero c d e = refl
entry_in-set (x ∷ cs) zero (suc b) c d e = ground arith
entry_in-set (x ∷ cs) (suc a) zero c d e = ground arith
entry_in-set (x ∷ cs) (suc a) (suc b) c d e = ground (arith, entry_in-set cs a b c d)

-- The write of an entry that is there already.
entry_in-set_same :
    (cs : List Arc) (a b n : ℕ) (c : Arc)
    → get_elem? cs a ≡ some c
    → entry_in (set cs a (record { entry = c.entry; strong = n })) b ≡ entry_in cs b
entry_in-set_same [] a b n c e = cc
entry_in-set_same (x ∷ cs) zero zero n c e = ground arith
entry_in-set_same (x ∷ cs) zero (suc b) n c e = refl
entry_in-set_same (x ∷ cs) (suc a) zero n c e = refl
entry_in-set_same (x ∷ cs) (suc a) (suc b) n c e = entry_in-set_same cs a b n c e

pub entry_in-append :
    (cs : List Arc) (c : Arc) (b : ℕ)
    → entry_in (cs ++ c ∷ []) b ≡ (if length cs == b then some c.entry else entry_in cs b)
entry_in-append [] c zero = refl
entry_in-append [] c (suc b) = ground arith
entry_in-append (x ∷ cs) c zero = ground arith
entry_in-append (x ∷ cs) c (suc b) = ground (arith, entry_in-append cs c b)

pub entry_in-length : (cs : List Arc) → entry_in cs (length cs) ≡ none
entry_in-length [] = refl
entry_in-length (x ∷ cs) = entry_in-length cs

at_same :
    (a b : ℕ) (cs : List Arc) {o : Option Arc}
    → (a == b) ≡ true
    → get_elem? cs a ≡ o
    → get_elem? cs b ≡ o
at_same a b cs h e = rw (← (==_iff a b).0 h) e

module _ (rt : Runtime) where
  pub entry_at-update_entry :
      (a : ℕ) (f : SessionEntry → SessionEntry) (s : SessionPool rt) (b : ℕ)
      → entry_at rt (update_entry rt a f s) b
        ≡ (if a == b then option_map f (entry_at rt s b) else entry_at rt s b)
  unfolding update_entry
  entry_at-update_entry a f s b = elim (Option-cases (get_elem? s.arcs a)) [
    | inl e ↦ elim (Bool-cases (a == b)) [
      | inl h ↦ rw (e, update_entry, h, at_same a b s.arcs h e)
      | inr h ↦ rw (e, update_entry, h)
    ]
    | inr (c, e) ↦ elim (Bool-cases (a == b)) [
      | inl h ↦ rw (e, update_entry, entry_in-set s.arcs a b c _ e, h, at_same a b s.arcs h e)
      | inr h ↦ rw (e, update_entry, entry_in-set s.arcs a b c _ e, h)
    ]
  ]

  pub entry_at-clone_arc :
      (a : ℕ) (s : SessionPool rt) (b : ℕ) → entry_at rt (clone_arc rt a s) b ≡ entry_at rt s b
  unfolding clone_arc
  entry_at-clone_arc a s b = elim (Option-cases (get_elem? s.arcs a)) [
    | inl e ↦ rw (e, clone_arc)
    | inr (c, e) ↦ rw (e, clone_arc) (entry_in-set_same s.arcs a b _ c e)
  ]

  entry_at-drop_counted :
      (a : ℕ) (c : Arc) (n : ℕ) (s : SessionPool rt) (b : ℕ)
      → get_elem? s.arcs a ≡ some c
      → entry_at rt (drop_counted rt a c.entry n s) b ≡ entry_at rt s b
  unfolding drop_counted
  entry_at-drop_counted a c zero s b e = refl
  entry_at-drop_counted a c (suc zero) s b e = entry_in-set_same s.arcs a b _ c e
  entry_at-drop_counted a c (suc (suc n)) s b e = entry_in-set_same s.arcs a b _ c e

  pub entry_at-drop_arc :
      (a : ℕ) (s : SessionPool rt) (b : ℕ) → entry_at rt (drop_arc rt a s) b ≡ entry_at rt s b
  unfolding drop_arc
  entry_at-drop_arc a s b = elim (Option-cases (get_elem? s.arcs a)) [
    | inl e ↦ rw (e, drop_arc)
    | inr (c, e) ↦ rw (e, drop_arc) (entry_at-drop_counted a c c.strong s b e)
  ]

  pub entry_at-drop_option :
      (o : Option ℕ) (s : SessionPool rt) (b : ℕ)
      → entry_at rt (drop_option rt o s) b ≡ entry_at rt s b
  unfolding drop_option
  entry_at-drop_option none s b = refl
  entry_at-drop_option (some a) s b = entry_at-drop_arc a s b
