-- ===== src/Pool/Profile.antt =====
-- crates/eiger-pool/src/lib.rs, `profile_path`: the directory of a persistent profile.
pub mod Safety
use text.Mathlib.Text.{◌==◌ as str_eq}
use eiger.Common.{ℕ, String, Bool, not, ◌||◌, ◌==◌, Result, ok, err, if◌then◌else◌}
use eiger.Text.{append, is_empty_str, trim, all_chars, is_ascii_alphanumeric}
use eiger.Pool.{PoolError, invalid_persistent_profile_id}

abbrev pub is_profile_character : ℕ → Bool
is_profile_character c = is_ascii_alphanumeric c || c == b'-' || c == b'_' || c == b'.'

-- Whether a path ends with the separator.
abbrev pub ends_with_slash : String → Bool
ends_with_slash String.[] = Bool.false
ends_with_slash (String.◌∷◌ c String.[]) = Prim.Native.Char.code c == b'/'
ends_with_slash (String.◌∷◌ c (String.◌∷◌ d s)) = ends_with_slash (String.◌∷◌ d s)

abbrev starts_with_slash : String → Bool
starts_with_slash String.[] = Bool.false
starts_with_slash (String.◌∷◌ c s) = Prim.Native.Char.code c == b'/'

-- `Path::join` on Unix: an absolute part replaces the base.
abbrev pub join : String → String → String
join base part =
    if starts_with_slash part
    then part
    else if is_empty_str base || ends_with_slash base
    then append base part
    else append base (append "/" part)

-- The body of `profile_path` after the trim.
unfoldable pub checked_profile_path : String → String → Result String PoolError
unfolding all_chars
checked_profile_path base_dir profile_id =
    if is_empty_str profile_id
      || str_eq profile_id "."
      || str_eq profile_id ".."
      || not (all_chars is_profile_character profile_id)
    then err (invalid_persistent_profile_id profile_id)
    else ok (join base_dir profile_id)

unfoldable pub profile_path : String → String → Result String PoolError
unfolding checked_profile_path trim
profile_path base_dir profile_id = checked_profile_path base_dir (trim profile_id)
