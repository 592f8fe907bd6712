-- ===== src/Pool/Sessions/Listing.antt =====
-- The two reports on sessions agree: `list_sessions` and `get_session`.
use eiger.Common.{
  ℕ, suc, ◌==◌, ◌≡◌, refl, inl, inr, true, List, [], ◌∷◌, Option, none, some, if◌then◌else◌,
  Bool-cases, Option-cases, ◌∙◌, ap, ==_iff, arith, length, sym,
}
use eiger.Config.{AppConfig}
use eiger.Metrics.{ProcessSample}
use eiger.Pool.{SessionEntry, SessionInfo}
use eiger.Pool.Runtime.{Runtime}
use eiger.Pool.State.{SessionPool, from_config}
use eiger.Pool.Sessions.{entry_at, session_info, get_session, infos, list_sessions}
use eiger.Pool.Steps.{Task, Reach}
use eiger.Pool.Steps.Moves.{refs-remove}
use eiger.Pool.Steps.Tidy.{Tidy}
use eiger.Pool.Steps.Tidy.Keys.{has_key, Found, key_of_address}
use eiger.Pool.Steps.Tidy.Preservation.{from_config-Tidy, Reach-Tidy}

-- The first info of an id.
abbrev pub find_info : {F32 : Type 0} → ℕ → List (SessionInfo F32) → Option (SessionInfo F32)
find_info id [] = none
find_info id (i ∷ is) = if i.id == id then some i else find_info id is

find_here :
    {F32 : Type 0} (id : ℕ) (i : SessionInfo F32) (is : List (SessionInfo F32))
    → (i.id == id) ≡ true
    → find_info id (i ∷ is) ≡ some i
find_here id i is h = rw h

module _ (rt : Runtime) {F32 : Type 0} (sample : ℕ → Option (ProcessSample F32)) (instant : ℕ) where
  infos-cons :
      (s : SessionPool rt) (id a : ℕ) (l : List (ℕ × ℕ)) (e : SessionEntry)
      → entry_at rt s a ≡ some e
      → infos rt sample instant s ((id, a) ∷ l)
        ≡ session_info sample instant e ∷ infos rt sample instant s l
  unfolding infos
  infos-cons s id a l e h = rw (h, infos)

  find_info-infos :
      (s : SessionPool rt) (ts : List Task) (l : List (ℕ × ℕ)) (j : ℕ)
      → Tidy rt s ts
      → Found rt s l
      → find_info j (infos rt sample instant s l)
        ≡ (if has_key j l then get_session rt sample instant j s else none)
  unfolding infos get_session session_info
  find_info-infos s ts [] j y f = refl
  find_info-infos s ts ((id, a) ∷ l) j y f =
      let e = y.listed id a f.0 in
      elim (Bool-cases (id == j)) [
        | inl h ↦
            let same : id ≡ j = (==_iff id j).0 h in
            let at : rt.get s.sessions j ≡ some a = rw (← same) f.0 in
            let here : (e.entry.id == j) ≡ true = rw e.own_id h in
            rw (infos-cons s id a l e.entry e.there, h)
              (find_here j (session_info sample instant e.entry) _ here ∙ rw (at, e.there))
        | inr h ↦
            rw (infos-cons s id a l e.entry e.there, e.own_id, h) (find_info-infos s ts l j y f.1)
      ]

  nothing :
      (s : SessionPool rt) (j : ℕ)
      → rt.get s.sessions j ≡ none
      → get_session rt sample instant j s ≡ none
  unfolding get_session
  nothing s j e = rw e

  length-infos :
      (s : SessionPool rt) (ts : List Task) (l : List (ℕ × ℕ))
      → Tidy rt s ts
      → Found rt s l
      → length (infos rt sample instant s l) ≡ length l
  unfolding infos
  length-infos s ts [] y f = refl
  length-infos s ts ((id, a) ∷ l) y f =
      let e = y.listed id a f.0 in
      rw (infos-cons s id a l e.entry e.there) (ap suc (length-infos s ts l y f.1))

  -- In every state that a new pool reaches under any interleaving of its tasks, the two reports agree:
  -- the list has as many sessions as the map, and the first of an id in it is what is got under that id,
  -- with the same state, times and measurements; there is none of an id exactly where nothing is got.
  pub list_sessions-get_session :
      {SocketAddr : Type 0} (config : AppConfig SocketAddr) {s : SessionPool rt} {ts : List Task}
      → Reach rt (from_config rt config) [] s ts
      → (length (list_sessions rt sample instant s) ≡ rt.count s.sessions)
        × ((j : ℕ)
            → find_info j (list_sessions rt sample instant s) ≡ get_session rt sample instant j s)
  unfolding list_sessions
  list_sessions-get_session config {s} {ts} r = (
    length-infos s ts (rt.entries s.sessions) y found ∙ sym (rt.count-entries s.sessions),
    λ j. find_info-infos s ts (rt.entries s.sessions) j y found ∙ got j,
  )
    where
      y : Tidy rt s ts
      y = Reach-Tidy rt r (from_config-Tidy rt config)

      found : Found rt s (rt.entries s.sessions)
      found = rt.get-entries s.sessions

      got :
          (j : ℕ)
          → (if has_key j (rt.entries s.sessions) then get_session rt sample instant j s else none)
            ≡ get_session rt sample instant j s
      got j = elim (Option-cases (rt.get s.sessions j)) [
        | inl e ↦ elim (Bool-cases (has_key j (rt.entries s.sessions))) [
          | inl h ↦ rw h refl
          | inr h ↦ rw (h, nothing s j e)
        ]
        | inr (a, e) ↦ rw (
            key_of_address rt s ts j a (rt.entries s.sessions) y e found
              (ground (arith, refs-remove rt s.sessions j a a e)))
      ]
