-- ===== src/Text.antt =====
-- What the program uses of Rust's `str`, by clauses over the characters of a text.
pub mod Decimal
use Prim.Native.Char.{Char, code}
use text.Mathlib.Text.{◌==◌ as str_eq}
use eiger.Common.{
  ℕ, zero, suc, ◌-◌, String, Bool, true, false, ◌&&◌, ◌||◌, List, [], ◌∷◌, Option, none, some, leb,
  ◌==◌, if◌then◌else◌, filter, not, option_map, or_else,
}

-- `char::is_whitespace`: the Unicode property White_Space.
abbrev pub is_whitespace : ℕ → Bool
is_whitespace c =
    (leb 0x9 c && leb c 0xd)
    || c == 0x20
    || c == 0x85
    || c == 0xa0
    || c == 0x1680
    || (leb 0x2000 c && leb c 0x200a)
    || c == 0x2028
    || c == 0x2029
    || c == 0x202f
    || c == 0x205f
    || c == 0x3000

abbrev pub is_empty_str : String → Bool
is_empty_str String.[] = true
is_empty_str (String.◌∷◌ c s) = false

-- `format!` with a text put in: concatenation that computes on a literal first part.
abbrev pub append : String → String → String
append String.[] t = t
append (String.◌∷◌ c s) t = String.◌∷◌ c (append s t)

abbrev pub char_count : String → ℕ
char_count String.[] = 0
char_count (String.◌∷◌ c s) = suc (char_count s)

unfoldable pub trim_start : String → String
trim_start String.[] = ""
trim_start (String.◌∷◌ c s) =
    let rest = trim_start s in if is_whitespace (code c) then rest else String.◌∷◌ c s

unfoldable pub trim_end : String → String
trim_end String.[] = ""
trim_end (String.◌∷◌ c s) =
    let rest = trim_end s in
    if is_empty_str rest && is_whitespace (code c) then "" else String.◌∷◌ c rest

unfoldable pub trim : String → String
unfolding trim_start trim_end
trim s = trim_end (trim_start s)

abbrev pub strip_prefix : String → String → Option String
strip_prefix String.[] s = some s
strip_prefix (String.◌∷◌ p ps) String.[] = none
strip_prefix (String.◌∷◌ p ps) (String.◌∷◌ c s) =
    let rest = strip_prefix ps s in if code p == code c then rest else none

-- Whether a text has no character of a code.
abbrev pub lacks : ℕ → String → Bool
lacks c String.[] = true
lacks c (String.◌∷◌ d s) = not (code d == c) && lacks c s

-- `s.starts_with(p)`.
abbrev pub starts_with : String → String → Bool
starts_with String.[] s = true
starts_with (String.◌∷◌ p ps) String.[] = false
starts_with (String.◌∷◌ p ps) (String.◌∷◌ c s) = code p == code c && starts_with ps s

-- Puts a character before the first piece. `split` never answers the empty list.
abbrev pub onto_first : Char → List String → List String
onto_first c [] = String.◌∷◌ c "" ∷ []
onto_first c (piece ∷ pieces) = String.◌∷◌ c piece ∷ pieces

-- `s.split(d)` at each character that passes the test.
unfoldable pub split_where : (ℕ → Bool) → String → List String
split_where d String.[] = "" ∷ []
split_where d (String.◌∷◌ c s) =
    let rest = split_where d s in if d (code c) then "" ∷ rest else onto_first c rest

unfoldable pub split : ℕ → String → List String
unfolding split_where
split d s = split_where (λ c. c == d) s

unfoldable pub split_whitespace : String → List String
unfolding split_where
split_whitespace s = filter (λ part. not (is_empty_str part)) (split_where is_whitespace s)

-- `s.split_once(c)` at a character.
unfoldable pub split_once : ℕ → String → Option (String × String)
split_once d String.[] = none
split_once d (String.◌∷◌ c s) =
    let rest = option_map (λ (p : String × String). (String.◌∷◌ c p.0, p.1)) (split_once d s) in
    if code c == d then some ("", s) else rest

-- `s.replace(from, to)` for a `from` that is not empty. `skip` counts the characters of a match
-- that are still to be passed over.
replace_from : ℕ → String → String → String → String
replace_from skip from to String.[] = ""
replace_from (suc skip) from to (String.◌∷◌ c s) = replace_from skip from to s
replace_from zero from to (String.◌∷◌ c s) =
    let hit = append to (replace_from (char_count from - 1) from to s) in
    let miss = String.◌∷◌ c (replace_from zero from to s) in
    if starts_with from (String.◌∷◌ c s) then hit else miss

unfoldable pub replace : String → String → String → String
unfolding replace_from
replace from to s = replace_from zero from to s

-- `parts.join(separator)`.
unfoldable pub join_with : String → List String → String
join_with separator [] = ""
join_with separator (part ∷ []) = part
join_with separator (part ∷ next ∷ parts) =
    append part (append separator (join_with separator (next ∷ parts)))

-- `char::is_ascii_alphanumeric`.
abbrev pub is_ascii_alphanumeric : ℕ → Bool
is_ascii_alphanumeric c =
    (leb b'0' c && leb c b'9') || (leb b'A' c && leb c b'Z') || (leb b'a' c && leb c b'z')

-- `s.chars().all(p)`.
unfoldable pub all_chars : (ℕ → Bool) → String → Bool
all_chars p String.[] = true
all_chars p (String.◌∷◌ c s) = p (code c) && all_chars p s

-- `s.strip_suffix('\r').unwrap_or(s)`.
abbrev without_cr : String → String
without_cr String.[] = ""
without_cr (String.◌∷◌ c String.[]) = if code c == 13 then "" else String.◌∷◌ c ""
without_cr (String.◌∷◌ c (String.◌∷◌ d s)) = String.◌∷◌ c (without_cr (String.◌∷◌ d s))

-- `s.lines().next()`.
unfoldable pub first_line : String → Option String
unfolding split_once
first_line s =
    if is_empty_str s
    then none
    else elim (split_once 10 s) [ none ↦ some s | some p ↦ some (without_cr p.0) ]

-- `s.split_once(separator)` at a text.
unfoldable pub split_once_str : String → String → Option (String × String)
split_once_str separator String.[] =
    option_map (λ (rest : String). ("", rest)) (strip_prefix separator "")
split_once_str separator (String.◌∷◌ c s) =
    or_else (option_map (λ (rest : String). ("", rest)) (strip_prefix separator (String.◌∷◌ c s)))
      (option_map (λ (p : String × String). (String.◌∷◌ c p.0, p.1)) (split_once_str separator s))

-- `s.replace(c, to)` for a character.
unfoldable pub replace_char : ℕ → String → String → String
replace_char from to String.[] = ""
replace_char from to (String.◌∷◌ c s) =
    let rest = replace_char from to s in
    if code c == from then append to rest else String.◌∷◌ c rest

-- The character of the second text at the place where the first has `c`; `c` where it has it nowhere.
abbrev exchanged : String → String → Char → Char
exchanged String.[] to c = c
exchanged (String.◌∷◌ a from) String.[] c = c
exchanged (String.◌∷◌ a from) (String.◌∷◌ b to) c =
    let rest = exchanged from to c in if code a == code c then b else rest

-- `s.to_ascii_lowercase()`.
unfoldable pub to_ascii_lowercase : String → String
to_ascii_lowercase String.[] = ""
to_ascii_lowercase (String.◌∷◌ c s) =
    String.◌∷◌ (exchanged "ABCDEFGHIJKLMNOPQRSTUVWXYZ" "abcdefghijklmnopqrstuvwxyz" c)
      (to_ascii_lowercase s)

-- Whether the text is one of a list: the patterns of a `match` on `&str`.
abbrev pub is_one_of : List String → String → Bool
is_one_of [] s = false
is_one_of (t ∷ ts) s = str_eq s t || is_one_of ts s
