-- ===== src/Browser/Executable.antt =====
-- crates/eiger-browser/src/lib.rs, `resolve_chrome_executable`. The environment, the file system and
-- the directories of `PATH` are functions.
use eiger.Common.{
  ap, sym, refl, ◌++◌, map, or_else, ok_or, unwrap_or, ◌∙◌, ◌≡◌, inl, inr, String, Bool, false, not,
  List, [], ◌∷◌, Option, none, some, Result, ok, err, any, option_filter, if◌then◌else◌,
  Option-cases, Bool-cases,
}
use eiger.Text.{is_empty_str, trim}
use eiger.Browser.{BrowserError, missing_executable}

abbrev pub env_names : List String
env_names = "CHROME" ∷ "CHROME_BIN" ∷ "GOOGLE_CHROME_BIN" ∷ []

abbrev pub known_paths : List String
known_paths =
    "/usr/bin/chromium" ∷ "/usr/bin/chromium-browser" ∷ "/usr/bin/google-chrome"
    ∷ "/usr/bin/google-chrome-stable"
    ∷ "/Applications/Google Chrome.app/Contents/MacOS/Google Chrome"
    ∷ "/Applications/Chromium.app/Contents/MacOS/Chromium" ∷ []

abbrev pub binaries : List String
binaries =
    "chromium" ∷ "chromium-browser" ∷ "google-chrome" ∷ "google-chrome-stable" ∷ "chrome" ∷ []

-- A loop that returns at the first hit.
abbrev pub find_map : (String → Option String) → List String → Option String
find_map f [] = none
find_map f (x ∷ xs) = elim (f x) [ none ↦ find_map f xs | some v ↦ some v ]

abbrev pub when : (String → Bool) → String → Option String
when test x = if test x then some x else none

-- What the search reads: `env::var`, `Path::exists`, and whether `dir.join(binary).is_file()`, for the
-- directories of `PATH`.
pub record Machine : Type 0 where
  pub var : String → Option String
  pub exists : String → Bool
  pub path_dirs : Option (List String)
  pub is_file_in : String → String → Bool

unfoldable pub binary_is_on_path : Machine → String → Bool
binary_is_on_path m binary = elim m.path_dirs [
  | none ↦ false
  | some dirs ↦ any (λ dir. m.is_file_in dir binary) dirs
]

-- The first choice that is there.
abbrev first_of :
    Option String → Option String → Option String → Option String → Result String BrowserError
first_of (some path) b c d = ok path
first_of none (some value) c d = ok value
first_of none none (some candidate) d = ok candidate
first_of none none none (some binary) = ok binary
first_of none none none none = err missing_executable

abbrev env_value : Machine → String → Option String
env_value m name = option_filter (λ value. not (is_empty_str (trim value))) (m.var name)

unfoldable pub resolve_chrome_executable : Machine → Option String → Result String BrowserError
unfolding binary_is_on_path trim
resolve_chrome_executable m configured =
    first_of configured (find_map (env_value m) env_names) (find_map (when m.exists) known_paths)
      (find_map (when (binary_is_on_path m)) binaries)

-- A place where the browser may be.
pub data Source : Type 0 where
  variable file command : String → Source

-- All places, the first one to be asked first.
abbrev pub sources : List Source
sources =
    variable "CHROME"
    ∷ variable "CHROME_BIN"
    ∷ variable "GOOGLE_CHROME_BIN"
    ∷ file "/usr/bin/chromium"
    ∷ file "/usr/bin/chromium-browser"
    ∷ file "/usr/bin/google-chrome"
    ∷ file "/usr/bin/google-chrome-stable"
    ∷ file "/Applications/Google Chrome.app/Contents/MacOS/Google Chrome"
    ∷ file "/Applications/Chromium.app/Contents/MacOS/Chromium"
    ∷ command "chromium"
    ∷ command "chromium-browser"
    ∷ command "google-chrome"
    ∷ command "google-chrome-stable"
    ∷ command "chrome"
    ∷ []

abbrev pub not_blank : Option String → Option String
not_blank none = none
not_blank (some value) = if is_empty_str (trim value) then none else some value

-- What a place has: a variable its value, unless it is blank; a file that exists its path; and a command
-- its name, where a directory of `PATH` has a file of that name.
abbrev pub offers : Machine → Source → Option String
offers m (variable name) = not_blank (m.var name)
offers m (file path) = if m.exists path then some path else none
offers m (command name) =
    if any (λ dir. m.is_file_in dir name) (unwrap_or m.path_dirs []) then some name else none

abbrev pub first_offer : Machine → List Source → Option String
first_offer m [] = none
first_offer m (source ∷ more) = or_else (offers m source) (first_offer m more)

-- The configured path, and otherwise what the first place that has anything offers.
abbrev pub expected : Machine → Option String → Result String BrowserError
expected m (some path) = ok path
expected m none = ok_or (first_offer m sources) missing_executable

offers-variable : (m : Machine) (name : String) → offers m (variable name) ≡ env_value m name
offers-variable m name = of_value (m.var name)
  where
    of_value :
        (o : Option String)
        → not_blank o ≡ option_filter (λ value. not (is_empty_str (trim value))) o
    of_value none = refl
    of_value (some value) = elim (Bool-cases (is_empty_str (trim value))) [
      | inl h ↦ rw h refl
      | inr h ↦ rw h refl
    ]

offers-command :
    (m : Machine) (name : String) → offers m (command name) ≡ when (binary_is_on_path m) name
unfolding binary_is_on_path
offers-command m name = elim (Option-cases m.path_dirs) [
  | inl h ↦ rw (h, binary_is_on_path) refl
  | inr (dirs, h) ↦ rw (h, binary_is_on_path) refl
]

first_offer-map :
    (m : Machine) (place : String → Source) (f : String → Option String)
    → ((x : String) → offers m (place x) ≡ f x)
    → (xs : List String) (more : List Source)
    → first_offer m (map place xs ++ more) ≡ or_else (find_map f xs) (first_offer m more)
first_offer-map m place f same [] more = refl
first_offer-map m place f same (x ∷ xs) more = elim (Option-cases (f x)) [
  | inl h ↦ rw (same x, h, find_map) (first_offer-map m place f same xs more)
  | inr (v, h) ↦ rw (same x, h, find_map) refl
]

chain :
    (a b c : Option String)
    → first_of none a b c ≡ ok_or (or_else a (or_else b (or_else c none))) missing_executable
chain (some v) b c = refl
chain none (some v) c = refl
chain none none (some v) = refl
chain none none none = refl

-- The executable is the configured one. Where none is configured it is that of the first of these
-- places that has one: the three environment variables, where blank values count as not set, the six
-- files, and the five commands on the path, each in this order; and where none of them has one, the
-- error is that there is no executable.
pub resolve_chrome_executable-expected :
    (m : Machine) (configured : Option String)
    → resolve_chrome_executable m configured ≡ expected m configured
unfolding resolve_chrome_executable
resolve_chrome_executable-expected m (some path) = refl
resolve_chrome_executable-expected m none =
    chain (find_map (env_value m) env_names) (find_map (when m.exists) known_paths)
      (find_map (when (binary_is_on_path m)) binaries)
    ∙ ap (λ o. ok_or o missing_executable)
        (sym (
          first_offer-map m variable (env_value m) (offers-variable m) env_names
            (map file known_paths ++ (map command binaries ++ []))
          ∙ ap (or_else (find_map (env_value m) env_names)) (
              first_offer-map m file (when m.exists) (λ x. refl) known_paths
                (map command binaries ++ [])
              ∙ ap (or_else (find_map (when m.exists) known_paths)) (
                  first_offer-map m command (when (binary_is_on_path m)) (offers-command m) binaries
                    []))))
