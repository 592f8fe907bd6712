-- ===== src/Api/Overrides/Filled.antt =====
-- crates/eiger-api/src/lib.rs: the overrides that a request gets have no blank settings.
use eiger.Common.{
  ◌≡◌, String, false, not, List, [], ◌∷◌, map, Option, none, some, Result, ok, bind_ok,
  ok_injective, subst, and_then, or_else, option_map, option_filter, filter, All, Bool-cases, inl,
  inr,
}
use eiger.Text.{is_empty_str, trim, split}
use eiger.Serde.{Serde}
use eiger.Pool.{SessionOverrides}
use eiger.Api.Requests.{SessionQuery, CreateSessionRequest, LaunchQuery}
use eiger.Api.Overrides.{
  gathered, trimmed_optional, clean_extension_paths, parse_query_extension_paths, cleaned,
  first_filled, parse_launch_query, session_overrides,
}

-- A setting that is absent, or a text with a character.
abbrev pub Filled : Option String → Type 0
Filled none = Unit
Filled (some s) = is_empty_str s ≡ false

abbrev FilledPaths : List String → Type 0
FilledPaths paths = All (λ path. is_empty_str path ≡ false) paths

record IsFilled (v : SessionOverrides) : Type 0 where
  proxy : Filled v.proxy
  paths : FilledPaths v.extension_paths
  profile_id : Filled v.persistent_profile_id

or_else-Filled : (a b : Option String) → Filled a → Filled b → Filled (or_else a b)
or_else-Filled none b ha hb = hb
or_else-Filled (some s) b ha hb = ha

option_filter-Filled : (o : Option String) → Filled (option_filter (λ s. not (is_empty_str s)) o)
option_filter-Filled none = tt
option_filter-Filled (some s) = elim (Bool-cases (is_empty_str s)) [
  | inl h ↦ rw h tt
  | inr h ↦ rw h h
]

trimmed_optional-Filled : (o : Option String) → Filled (trimmed_optional o)
unfolding trimmed_optional
trimmed_optional-Filled o = option_filter-Filled (option_map trim o)

and_then-Filled {ℓ} :
    {A : Type ℓ} (f : A → Option String) (o : Option A)
    → Filled (and_then o (λ a. trimmed_optional (f a)))
and_then-Filled f none = tt
and_then-Filled f (some a) = trimmed_optional-Filled (f a)

filter-FilledPaths :
    (paths : List String) → FilledPaths (filter (λ path. not (is_empty_str path)) paths)
filter-FilledPaths [] = tt
filter-FilledPaths (x ∷ xs) = elim (Bool-cases (is_empty_str x)) [
  | inl h ↦ rw h (filter-FilledPaths xs)
  | inr h ↦ rw h (h, filter-FilledPaths xs)
]

cleaned-FilledPaths : (o : Option (List String)) → FilledPaths (cleaned o)
unfolding clean_extension_paths
cleaned-FilledPaths none = tt
cleaned-FilledPaths (some paths) = filter-FilledPaths paths

query-FilledPaths : (o : Option String) → FilledPaths (parse_query_extension_paths o)
unfolding parse_query_extension_paths
query-FilledPaths none = tt
query-FilledPaths (some s) = filter-FilledPaths (map trim (split b',' s))

first_filled-FilledPaths :
    (a b c : List String)
    → FilledPaths a
    → FilledPaths b
    → FilledPaths c
    → FilledPaths (first_filled a b c)
first_filled-FilledPaths [] [] c ha hb hc = hc
first_filled-FilledPaths [] (x ∷ b) c ha hb hc = hb
first_filled-FilledPaths (x ∷ a) b c ha hb hc = ha

gathered-IsFilled :
    (q : SessionQuery) (payload : Option CreateSessionRequest) (l : Option LaunchQuery)
    → IsFilled (gathered q payload l)
unfolding gathered
gathered-IsFilled q payload l = record {
  proxy =
      or_else-Filled _ _ (and_then-Filled (λ p. p.proxy) payload)
        (or_else-Filled _ _ (trimmed_optional-Filled q.proxy) (and_then-Filled (λ p. p.proxy) l));
  paths =
      let paths = and_then payload (λ p. p.extension_paths) in
      let launch = and_then l (λ x. x.extension_paths) in
      first_filled-FilledPaths (cleaned paths) (parse_query_extension_paths q.extension_paths)
        (cleaned launch) (cleaned-FilledPaths paths) (query-FilledPaths q.extension_paths)
        (cleaned-FilledPaths launch);
  profile_id = or_else-Filled _ _ (and_then-Filled (λ p. p.persistent_profile_id) payload) (
      or_else-Filled _ _ (trimmed_optional-Filled q.persistent_profile_id)
        (and_then-Filled (λ p. p.persistent_profile_id) l));
}

module _ (J : Serde) (from_value : J.Value → Result LaunchQuery String) where
  -- Overrides that the code answers have no blank setting: a proxy and a profile id are absent or a text
  -- with a character, and so is each path of an extension.
  session_overrides-IsFilled :
      (q : SessionQuery) (payload : Option CreateSessionRequest) (v : SessionOverrides)
      → session_overrides J from_value q payload ≡ ok v
      → IsFilled v
  unfolding session_overrides
  session_overrides-IsFilled q payload v e =
      bind_ok (parse_launch_query J from_value q.launch) _ e
        λ l parsed rest. subst IsFilled (ok_injective rest) (gathered-IsFilled q payload l)
