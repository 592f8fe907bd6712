-- ===== src/Api/Overrides/Precedence.antt =====
-- crates/eiger-api/src/lib.rs: which source of an override wins.
use eiger.Common.{
  ◌≡◌, refl, ap, String, Bool, List, [], ◌∷◌, ◌++◌, Option, none, some, Result, ok, err, ◌>>=◌,
  and_then, or_else, unwrap_or, map, sym, ◌∙◌, if◌then◌else◌, Bool-cases, Result-cases, inl, inr,
}
use eiger.Text.{append, is_empty_str, trim, split}
use eiger.Serde.{Serde}
use eiger.Pool.{SessionOverrides}
use eiger.Api.Requests.{SessionQuery, CreateSessionRequest, LaunchQuery}
use eiger.Api.Overrides.{
  gathered, trimmed_optional, clean_extension_paths, parse_query_extension_paths, cleaned,
  first_filled, parse_launch_query, session_overrides, rest_payload, rest_session_overrides,
}

-- What one source asks for: a list without entries asks for no paths.
pub record Layer : Type 0 where
  stealth : Option Bool
  proxy : Option String
  paths : List String
  profile_id : Option String

-- A text that is more than white space, without the white space around it.
abbrev filled : Option String → Option String
filled none = none
filled (some s) = if is_empty_str (trim s) then none else some (trim s)

abbrev not_empty : List String → List String
not_empty [] = []
not_empty (String.[] ∷ paths) = not_empty paths
not_empty (String.◌∷◌ c s ∷ paths) = String.◌∷◌ c s ∷ not_empty paths

-- The pieces of a text between its commas, without the white space around each.
abbrev pieces : Option String → List String
pieces none = []
pieces (some s) = map trim (split b',' s)

abbrev pub payload_layer : CreateSessionRequest → Layer
payload_layer p = record {
  stealth = p.stealth_enabled;
  proxy = filled p.proxy;
  paths = not_empty (unwrap_or p.extension_paths []);
  profile_id = filled p.persistent_profile_id;
}

abbrev pub query_layer : SessionQuery → Layer
query_layer q = record {
  stealth = q.stealth;
  proxy = filled q.proxy;
  paths = not_empty (pieces q.extension_paths);
  profile_id = filled q.persistent_profile_id;
}

abbrev pub launch_layer : LaunchQuery → Layer
launch_layer l = record {
  stealth = l.stealth;
  proxy = filled l.proxy;
  paths = not_empty (unwrap_or l.extension_paths []);
  profile_id = filled l.persistent_profile_id;
}

-- The layers of a request, the strongest first.
pub layers : Option CreateSessionRequest → SessionQuery → Option LaunchQuery → List Layer
layers none q none = query_layer q ∷ []
layers none q (some l) = query_layer q ∷ launch_layer l ∷ []
layers (some p) q none = payload_layer p ∷ query_layer q ∷ []
layers (some p) q (some l) = payload_layer p ∷ query_layer q ∷ launch_layer l ∷ []

trimmed_optional-filled : (o : Option String) → trimmed_optional o ≡ filled o
unfolding trimmed_optional
trimmed_optional-filled none = refl
trimmed_optional-filled (some s) = elim (Bool-cases (is_empty_str (trim s))) [
  | inl h ↦ rw h refl
  | inr h ↦ rw h refl
]

filter-not_empty : (paths : List String) → clean_extension_paths paths ≡ not_empty paths
unfolding clean_extension_paths
filter-not_empty [] = refl
filter-not_empty (String.[] ∷ paths) = filter-not_empty paths
filter-not_empty (String.◌∷◌ c s ∷ paths) = ap (λ l. String.◌∷◌ c s ∷ l) (filter-not_empty paths)

cleaned-not_empty : (o : Option (List String)) → cleaned o ≡ not_empty (unwrap_or o [])
cleaned-not_empty none = refl
cleaned-not_empty (some paths) = filter-not_empty paths

parse_query_extension_paths-pieces :
    (o : Option String) → parse_query_extension_paths o ≡ not_empty (pieces o)
unfolding parse_query_extension_paths clean_extension_paths
parse_query_extension_paths-pieces none = refl
parse_query_extension_paths-pieces (some s) = filter-not_empty (map trim (split b',' s))

-- The first layer that says something.
pub first_some {ℓ} : {A : Type ℓ} → (Layer → Option A) → List Layer → Option A
first_some f [] = none
first_some f (y ∷ ys) = or_else (f y) (first_some f ys)

pub or_paths : List String → List String → List String
or_paths [] b = b
or_paths (x ∷ a) b = x ∷ a

pub first_paths : List Layer → List String
unfolding or_paths
first_paths [] = []
first_paths (y ∷ ys) = or_paths y.paths (first_paths ys)

-- The overrides that the layers stand for, and the arguments of the launch parameter and the body.
pub record Overlays (payload : Option CreateSessionRequest) (q : SessionQuery)
    (l : Option LaunchQuery) (v : SessionOverrides) : Type 0 where
  stealth : v.stealth_enabled ≡ first_some (λ y. y.stealth) (layers payload q l)
  proxy : v.proxy ≡ first_some (λ y. y.proxy) (layers payload q l)
  paths : v.extension_paths ≡ first_paths (layers payload q l)
  profile_id : v.persistent_profile_id ≡ first_some (λ y. y.profile_id) (layers payload q l)
  args :
      v.extra_chrome_args
      ≡ unwrap_or (and_then l (λ x. x.args)) []
        ++ unwrap_or (and_then payload (λ p. p.extra_chrome_args)) []

or_else-none {ℓ} : {A : Type ℓ} (o : Option A) → or_else o none ≡ o
or_else-none none = refl
or_else-none (some a) = refl

or_else-chain {ℓ} :
    {A : Type ℓ} (f : Layer → Option A) (payload : Option CreateSessionRequest) (q : SessionQuery)
    → (l : Option LaunchQuery)
    → or_else
        (and_then payload (λ p. f (payload_layer p)))
        (or_else (f (query_layer q)) (and_then l (λ x. f (launch_layer x))))
      ≡ first_some f (layers payload q l)
unfolding first_some layers
or_else-chain f none q none = refl
or_else-chain f none q (some l) = rw (or_else-none (f (launch_layer l)), first_some) refl
or_else-chain f (some p) q none = refl
or_else-chain f (some p) q (some l) = rw (or_else-none (f (launch_layer l)), first_some) refl

first_filled-or_paths :
    (a b c : List String) → first_filled a b c ≡ or_paths a (or_paths b (or_paths c []))
unfolding or_paths
first_filled-or_paths [] [] [] = refl
first_filled-or_paths [] [] (x ∷ c) = refl
first_filled-or_paths [] (x ∷ b) c = refl
first_filled-or_paths (x ∷ a) b c = refl

or_paths_none : (a : List String) → or_paths a [] ≡ a
unfolding or_paths
or_paths_none [] = refl
or_paths_none (x ∷ a) = refl

and_then_same {ℓ κ} :
    {A : Type ℓ} {B : Type κ} (o : Option A) (f g : A → Option B)
    → ((a : A) → f a ≡ g a)
    → and_then o f ≡ and_then o g
and_then_same none f g h = refl
and_then_same (some a) f g h = h a

-- A setting that is a text.
gathered-filled :
    (body : CreateSessionRequest → Option String) (query : SessionQuery → Option String)
    (launch : LaunchQuery → Option String) (f : Layer → Option String)
    → ((p : CreateSessionRequest) → f (payload_layer p) ≡ filled (body p))
    → ((q : SessionQuery) → f (query_layer q) ≡ filled (query q))
    → ((l : LaunchQuery) → f (launch_layer l) ≡ filled (launch l))
    → (payload : Option CreateSessionRequest) (q : SessionQuery) (l : Option LaunchQuery)
    → or_else
        (and_then payload (λ p. trimmed_optional (body p)))
        (or_else (trimmed_optional (query q)) (and_then l (λ x. trimmed_optional (launch x))))
      ≡ first_some f (layers payload q l)
gathered-filled body query launch f b c d payload q l =
    rw
      (
        and_then_same payload (λ p. trimmed_optional (body p)) (λ p. f (payload_layer p))
            (λ p. trimmed_optional-filled (body p) ∙ sym (b p)),
        trimmed_optional-filled (query q),
        ← c q,
        and_then_same l (λ x. trimmed_optional (launch x)) (λ x. f (launch_layer x))
            (λ x. trimmed_optional-filled (launch x) ∙ sym (d x)),
      )
      (or_else-chain f payload q l)

gathered-paths :
    (payload : Option CreateSessionRequest) (q : SessionQuery) (l : Option LaunchQuery)
    → (gathered q payload l).extension_paths ≡ first_paths (layers payload q l)
unfolding gathered layers first_paths or_paths
gathered-paths none q none =
    rw (parse_query_extension_paths-pieces q.extension_paths)
      (first_filled-or_paths [] (query_layer q).paths [])
gathered-paths none q (some l) =
    rw (parse_query_extension_paths-pieces q.extension_paths, cleaned-not_empty l.extension_paths)
      (first_filled-or_paths [] (query_layer q).paths (launch_layer l).paths)
gathered-paths (some p) q none =
    rw (parse_query_extension_paths-pieces q.extension_paths, cleaned-not_empty p.extension_paths)
      (first_filled-or_paths (payload_layer p).paths (query_layer q).paths [])
gathered-paths (some p) q (some l) =
    rw
      (
        parse_query_extension_paths-pieces q.extension_paths,
        cleaned-not_empty p.extension_paths,
        cleaned-not_empty l.extension_paths,
      )
      (first_filled-or_paths (payload_layer p).paths (query_layer q).paths (launch_layer l).paths)

gathered-Overlays :
    (payload : Option CreateSessionRequest) (q : SessionQuery) (l : Option LaunchQuery)
    → Overlays payload q l (gathered q payload l)
unfolding gathered
gathered-Overlays payload q l = record {
  stealth = or_else-chain (λ y. y.stealth) payload q l;
  proxy =
      gathered-filled (λ p. p.proxy) (λ p. p.proxy) (λ p. p.proxy) (λ y. y.proxy) (λ p. refl)
        (λ p. refl) (λ p. refl) payload q l;
  paths = gathered-paths payload q l;
  profile_id =
      gathered-filled (λ p. p.persistent_profile_id) (λ p. p.persistent_profile_id)
        (λ p. p.persistent_profile_id) (λ y. y.profile_id) (λ p. refl) (λ p. refl) (λ p. refl)
        payload q l;
  args = refl;
}

-- The two ways that the parser of the launch parameter can end, and what is answered then.
abbrev pub Refines :
    Option CreateSessionRequest
    → SessionQuery
    → Result (Option LaunchQuery) String
    → Result SessionOverrides String
    → Type 0
Refines payload q (ok l) (ok v) = Overlays payload q l v
Refines payload q (err e) (err x) = x ≡ e
Refines payload q (ok l) (err x) = ⊥
Refines payload q (err e) (ok v) = ⊥

refines :
    (payload : Option CreateSessionRequest) (q : SessionQuery)
    → (r : Result (Option LaunchQuery) String)
    → Refines payload q r (r >>= λ l. ok (gathered q payload l))
refines payload q (ok l) = gathered-Overlays payload q l
refines payload q (err e) = refl

module _ (J : Serde) (from_value : J.Value → Result LaunchQuery String) where
  -- What the launch parameter of a query says, where it is there and not blank.
  abbrev pub launch_of : Option String → Result (Option LaunchQuery) String
  launch_of none = ok none
  launch_of (some raw) = if is_empty_str (trim raw) then ok none else elim (J.from_str raw) [
    | err e ↦ err (append "invalid launch query JSON: " e)
    | ok value ↦ elim (from_value value) [
      | err e ↦ err (append "invalid launch query shape: " e)
      | ok launch ↦ ok (some launch)
    ]
  ]

  parse_launch_query-launch_of :
      (raw : Option String) → parse_launch_query J from_value raw ≡ launch_of raw
  unfolding parse_launch_query
  parse_launch_query-launch_of none = refl
  parse_launch_query-launch_of (some raw) = elim (Bool-cases (is_empty_str (trim raw))) [
    | inl h ↦ rw (h, parse_launch_query) refl
    | inr h ↦ elim (Result-cases (J.from_str raw)) [
      | inr (e, g) ↦ rw (h, parse_launch_query, g) refl
      | inl (value, g) ↦ elim (Result-cases (from_value value)) [
        | inr (e, k) ↦ rw (h, parse_launch_query, g, k) refl
        | inl (launch, k) ↦ rw (h, parse_launch_query, g, k) refl
      ]
    ]
  ]

  -- Where the launch parameter parses, the overrides of a request are those of its layers: each setting
  -- is that of the first of the body, the query and the launch parameter that has it, where a blank
  -- proxy or profile id and a list without paths count as absent, and the arguments are those of the
  -- launch parameter followed by those of the body. Where it is there, not blank, and no JSON or not of
  -- the right shape, an error that says which is the answer.
  pub session_overrides-Refines :
      (payload : Option CreateSessionRequest) (q : SessionQuery)
      → Refines payload q (launch_of q.launch) (session_overrides J from_value q payload)
  unfolding session_overrides
  session_overrides-Refines payload q =
      rw (parse_launch_query-launch_of q.launch) (refines payload q (launch_of q.launch))

  absent_body :
      (q : SessionQuery) (l : Option LaunchQuery)
      → gathered q none l ≡ gathered q (some (rest_payload none none none)) l
  unfolding gathered trimmed_optional
  absent_body q l = refl

  -- A REST request asks for the same as a request to create a session whose body has the proxy, the
  -- extension paths and the profile id of the REST request and nothing else, also where it has none of
  -- them and the code passes on no body.
  pub rest_session_overrides-session_overrides :
      (q : SessionQuery) (proxy : Option String) (paths : Option (List String))
      → (profile_id : Option String)
      → rest_session_overrides J from_value q proxy paths profile_id
        ≡ session_overrides J from_value q (
            some (record {
              stealth_enabled = none;
              extra_chrome_args = none;
              proxy = proxy;
              extension_paths = paths;
              persistent_profile_id = profile_id;
            }))
  unfolding rest_session_overrides session_overrides
  rest_session_overrides-session_overrides q none none none =
      ap (λ f. parse_launch_query J from_value q.launch >>= f) (λ i l. ok (absent_body q l i))
  rest_session_overrides-session_overrides q none none (some id) = refl
  rest_session_overrides-session_overrides q none (some ps) id = refl
  rest_session_overrides-session_overrides q (some p) ps id = refl
