-- ===== src/Pool/Profile/Safety.antt =====
-- A persistent profile stays below the directory of the profiles.
use Prim.Native.Char.{code}
use text.Mathlib.TextEquality.{eq_iff}
use eiger.Common.{ℕ, ◌≡◌, ◌≢◌, ◌∙◌, ◌||◌, String, true, false, arith, ok, if◌then◌else◌}
use eiger.Text.{append, is_empty_str, trim, all_chars}
use eiger.Pool.Profile.{
  is_profile_character, ends_with_slash, join, checked_profile_path, profile_path,
}

abbrev pub NoSlash : String → Type 0
NoSlash String.[] = Unit
NoSlash (String.◌∷◌ c s) = (code c ≢ b'/') × NoSlash s

-- One name below a directory: no separator, and neither the directory itself nor its parent.
pub record IsDirectoryName (name : String) : Type 0 where
  pub not_empty : is_empty_str name ≡ false
  pub not_self : name ≢ "."
  pub not_parent : name ≢ ".."
  pub no_slash : NoSlash name

not_slash : (c : ℕ) → is_profile_character c ≡ true → c ≢ b'/'
not_slash c h = ground arith

all_chars-NoSlash : (s : String) → all_chars is_profile_character s ≡ true → NoSlash s
unfolding all_chars
all_chars-NoSlash String.[] h = tt
all_chars-NoSlash (String.◌∷◌ c s) h =
    (not_slash (code c) (ground arith), all_chars-NoSlash s (ground arith))

join_of_name :
    (base name : String)
    → is_empty_str name ≡ false
    → NoSlash name
    → join base name ≡ (
        if is_empty_str base || ends_with_slash base
        then append base name
        else append base (append "/" name))
join_of_name base String.[] h n = cc
join_of_name base (String.◌∷◌ c s) h n = ground arith

-- Every path that a profile id gets is one directory name below the directory of the profiles: the
-- id without its outer white space, which is not empty, `.` or `..` and holds no separator.
pub profile_path_safe :
    (base id : String) {path : String}
    → profile_path base id ≡ ok path
    → IsDirectoryName (trim id)
      × (path ≡ (
          if is_empty_str base || ends_with_slash base
          then append base (trim id)
          else append base (append "/" (trim id))))
unfolding profile_path checked_profile_path
profile_path_safe base id {path} e = (
  record {
    not_empty = not_empty;
    not_self = ground (arith, eq_iff (trim id) ".");
    not_parent = ground (arith, eq_iff (trim id) "..");
    no_slash = no_slash;
  },
  joined ∙ join_of_name base (trim id) not_empty no_slash,
)
  where
    not_empty : is_empty_str (trim id) ≡ false
    not_empty = ground arith

    no_slash : NoSlash (trim id)
    no_slash = all_chars-NoSlash (trim id) (ground arith)

    joined : path ≡ join base (trim id)
    joined = ground arith
