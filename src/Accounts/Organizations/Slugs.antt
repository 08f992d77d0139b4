-- ===== src/Accounts/Organizations/Slugs.antt =====
-- `Slugify` of pkg/helper/helper.go. `to_lower` is strings.ToLower.
pub mod Plain
use Prim.Native.Char.{Char, code}
use Prim.Native.String.{String, []}
use chis.Base.{ℕ, Bool, true, false, not, ◌&&◌, ◌||◌, leb, nat_eq, if◌then◌else◌}

-- '-', ' ' and '_'
abbrev pub hyphen : ℕ
hyphen = 45

abbrev pub hyphen_char : Char
hyphen_char = "-"

-- strings.ReplaceAll of one character by a hyphen
abbrev pub replace_all : ℕ → String → String
replace_all c [] = []
replace_all c (String.◌∷◌ x s) =
    String.◌∷◌ (if nat_eq (code x) c then hyphen_char else x) (replace_all c s)

-- [a-z0-9-]
unfoldable pub is_slug_char : ℕ → Bool
is_slug_char c = (leb 97 c && leb c 122) || ((leb 48 c && leb c 57) || nat_eq c 45)

-- `[^a-z0-9-]` replaced by nothing
abbrev pub keep_slug_chars : String → String
keep_slug_chars [] = []
keep_slug_chars (String.◌∷◌ x s) =
    let rest = keep_slug_chars s in if is_slug_char (code x) then String.◌∷◌ x rest else rest

abbrev pub is_hyphen : Char → Bool
is_hyphen x = nat_eq (code x) 45

abbrev pub starts_hyphen : String → Bool
starts_hyphen [] = false
starts_hyphen (String.◌∷◌ x s) = is_hyphen x

-- `-+` replaced by one hyphen: a hyphen before another is dropped
abbrev pub collapse : String → String
collapse [] = []
collapse (String.◌∷◌ x s) =
    let rest = collapse s in if is_hyphen x && starts_hyphen s then rest else String.◌∷◌ x rest

abbrev pub trim_left : String → String
trim_left [] = []
trim_left (String.◌∷◌ x s) = if is_hyphen x then trim_left s else String.◌∷◌ x s

abbrev pub is_empty : String → Bool
is_empty [] = true
is_empty (String.◌∷◌ x s) = false

abbrev pub trim_right : String → String
trim_right [] = []
trim_right (String.◌∷◌ x s) =
    let rest = trim_right s in if is_hyphen x && is_empty rest then [] else String.◌∷◌ x rest

-- strings.Trim(s, "-")
unfoldable pub trim_hyphens : String → String
trim_hyphens s = trim_right (trim_left s)

unfoldable pub slugify : (String → String) → String → String
slugify to_lower s =
    trim_hyphens (collapse (keep_slug_chars (replace_all 95 (replace_all 32 (to_lower s)))))
