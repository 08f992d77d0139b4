-- ===== src/Accounts/Organizations/Slugs/Plain.antt =====
-- What a slug is made of.
use Prim.Native.Char.{Char, code}
use Prim.Native.String.{String, []}
use chis.Base.{ℕ, Bool, true, false, not, ◌&&◌, nat_eq, ◌≡◌, refl, Bool-cases, inl, inr, arith, ap}
use chis.Accounts.Organizations.Slugs.{
  replace_all, is_slug_char, keep_slug_chars, is_hyphen, starts_hyphen, collapse, trim_left,
  is_empty, trim_right, trim_hyphens, slugify,
}

-- Every character is of a-z, 0-9 and the hyphen.
abbrev pub all_slug : String → Bool
all_slug [] = true
all_slug (String.◌∷◌ x s) = is_slug_char (code x) && all_slug s

-- No hyphen stands before another.
abbrev pub no_double : String → Bool
no_double [] = true
no_double (String.◌∷◌ x s) = not (is_hyphen x && starts_hyphen s) && no_double s

-- No hyphen stands at the end.
abbrev pub ends_plain : String → Bool
ends_plain [] = true
ends_plain (String.◌∷◌ x s) = not (is_hyphen x && is_empty s) && ends_plain s

pub record IsPlain (s : String) : Type 0 where
  pub letters : all_slug s ≡ true
  pub single : no_double s ≡ true
  pub start : starts_hyphen s ≡ false
  pub ending : ends_plain s ≡ true

kept-letters : (s : String) → all_slug (keep_slug_chars s) ≡ true
kept-letters [] = refl
kept-letters (String.◌∷◌ x s) = ground (arith, kept-letters s)

collapse-letters : (s : String) → all_slug s ≡ true → all_slug (collapse s) ≡ true
collapse-letters [] h = refl
collapse-letters (String.◌∷◌ x s) h = ground (arith, collapse-letters s)

collapse-start : (s : String) → starts_hyphen (collapse s) ≡ starts_hyphen s
collapse-start [] = refl
collapse-start (String.◌∷◌ x s) = ground (arith, collapse-start s)

collapse-single : (s : String) → no_double (collapse s) ≡ true
collapse-single [] = refl
collapse-single (String.◌∷◌ x s) = ground (arith, collapse-single s, collapse-start s)

trim_left-letters : (s : String) → all_slug s ≡ true → all_slug (trim_left s) ≡ true
trim_left-letters [] h = refl
trim_left-letters (String.◌∷◌ x s) h = ground (arith, trim_left-letters s)

trim_left-single : (s : String) → no_double s ≡ true → no_double (trim_left s) ≡ true
trim_left-single [] h = refl
trim_left-single (String.◌∷◌ x s) h = ground (arith, trim_left-single s)

trim_left-start : (s : String) → starts_hyphen (trim_left s) ≡ false
trim_left-start [] = refl
trim_left-start (String.◌∷◌ x s) = ground (arith, trim_left-start s)

trim_right-letters : (s : String) → all_slug s ≡ true → all_slug (trim_right s) ≡ true
trim_right-letters [] h = refl
trim_right-letters (String.◌∷◌ x s) h = ground (arith, trim_right-letters s)

trim_right-start : (s : String) → starts_hyphen s ≡ false → starts_hyphen (trim_right s) ≡ false
trim_right-start [] h = refl
trim_right-start (String.◌∷◌ x s) h = ground arith

trim_right-double : (s : String) → starts_hyphen s ≡ false → starts_hyphen (trim_right s) ≡ false
trim_right-double s h = trim_right-start s h

trim_right-single : (s : String) → no_double s ≡ true → no_double (trim_right s) ≡ true
trim_right-single [] h = refl
trim_right-single (String.◌∷◌ x s) h = ground (arith, trim_right-single s, trim_right-start s)

trim_right-ending : (s : String) → ends_plain (trim_right s) ≡ true
trim_right-ending [] = refl
trim_right-ending (String.◌∷◌ x s) = ground (arith, trim_right-ending s)

pub slugify-IsPlain : (to_lower : String → String) (s : String) → IsPlain (slugify to_lower s)
unfolding slugify trim_hyphens
slugify-IsPlain to_lower s =
    let kept = keep_slug_chars (replace_all 95 (replace_all 32 (to_lower s))) in
    let c = collapse kept in
    record {
      letters = trim_right-letters (trim_left c) (
          trim_left-letters c
            (collapse-letters kept (kept-letters (replace_all 95 (replace_all 32 (to_lower s))))));
      single = trim_right-single (trim_left c) (trim_left-single c (collapse-single kept));
      start = trim_right-start (trim_left c) (trim_left-start c);
      ending = trim_right-ending (trim_left c);
    }

same_code : (x : Char) (c : ℕ) → nat_eq (code x) c ≡ true → code x ≡ c
same_code x c e = ground arith

replace_all-slug :
    (c : ℕ) (s : String) → is_slug_char c ≡ false → all_slug s ≡ true → replace_all c s ≡ s
replace_all-slug c [] n h = refl
replace_all-slug c (String.◌∷◌ x s) n h = elim (Bool-cases (nat_eq (code x) c)) [
  | inl e ↦ absurd (ground (arith, ap is_slug_char (same_code x c e)))
  | inr d ↦ rw d (ap (String.◌∷◌ x) (replace_all-slug c s n (ground (arith, h))))
]

keep-slug : (s : String) → all_slug s ≡ true → keep_slug_chars s ≡ s
keep-slug [] h = refl
keep-slug (String.◌∷◌ x s) h = ground (arith, keep-slug s)

collapse-plain : (s : String) → no_double s ≡ true → collapse s ≡ s
collapse-plain [] h = refl
collapse-plain (String.◌∷◌ x s) h = ground (arith, collapse-plain s)

trim_left-plain : (s : String) → starts_hyphen s ≡ false → trim_left s ≡ s
trim_left-plain [] h = refl
trim_left-plain (String.◌∷◌ x s) h = ground arith

trim_right-plain : (s : String) → ends_plain s ≡ true → trim_right s ≡ s
trim_right-plain [] h = refl
trim_right-plain (String.◌∷◌ x s) h = ground (arith, trim_right-plain s)

plain_slug :
    (to_lower : String → String) (s : String) → to_lower s ≡ s → IsPlain s → slugify to_lower s ≡ s
unfolding slugify trim_hyphens is_slug_char
plain_slug to_lower s l p =
    let spaces = replace_all-slug 32 s refl p.letters in
    rw
      (
        l,
        spaces,
        replace_all-slug 95 s refl p.letters,
        keep-slug s p.letters,
        collapse-plain s p.single,
        trim_left-plain s p.start,
        trim_right-plain s p.ending,
      )
      refl

-- A slug has only a-z, 0-9 and hyphens, no hyphen before another, and none at its start and its end;
-- and it is its own slug, if strings.ToLower leaves a text of such characters as it is.
pub slugify-slugify :
    (to_lower : String → String) (s : String)
    → ((x : String) → all_slug x ≡ true → to_lower x ≡ x)
    → IsPlain (slugify to_lower s) × (slugify to_lower (slugify to_lower s) ≡ slugify to_lower s)
slugify-slugify to_lower s l =
    let p = slugify-IsPlain to_lower s in
    (p, plain_slug to_lower (slugify to_lower s) (l (slugify to_lower s) p.letters) p)
