-- ===== src/Delivery/Signature/Content.antt =====
-- What a signature is of.
use Prim.Native.Char.{Char, code}
use Prim.Native.String.{String, []}
use chis.Base.{
  ℕ, Bool, false, ◌≡◌, sym, ap, ◌∙◌, Option, some, none, ◌||◌, arith, nat_eq, if◌then◌else◌,
}
use chis.Base.Text.{concat}
use text.Mathlib.TextLemmas.{nil-append, cons-append}
use chis.Delivery.Signature.{signed_content}

abbrev dot : Char
dot = "."

abbrev pub has_dot : String → Bool
has_dot [] = false
has_dot (String.◌∷◌ c s) = nat_eq (code c) 46 || has_dot s

-- What stands before a text's first dot and after it.
abbrev cut_dot : String → Option (String × String)
cut_dot [] = none
cut_dot (String.◌∷◌ c s) =
    let rest = cut_dot s in
    if nat_eq (code c) 46
    then some ([], s)
    else elim rest [ none ↦ none | some (p, t) ↦ some (String.◌∷◌ c p, t) ]

cut_dot-append :
    (p t : String) → has_dot p ≡ false → cut_dot (concat p (concat "." t)) ≡ some (p, t)
cut_dot-append [] t h =
    ap cut_dot
      (nil-append (concat "." t) ∙ cons-append dot [] t ∙ ap (String.◌∷◌ dot) (nil-append t))
cut_dot-append (String.◌∷◌ c p) t h =
    let ih = cut_dot-append p t (ground (arith, h)) in
    ap cut_dot (cons-append c p (concat "." t)) ∙ ground (arith, ih, h)

parts :
    (p q s t : String)
    → has_dot p ≡ false
    → has_dot q ≡ false
    → concat p (concat "." s) ≡ concat q (concat "." t)
    → (p ≡ q) × (s ≡ t)
parts p q s t h k e =
    let both = sym (cut_dot-append p s h) ∙ ap cut_dot e ∙ cut_dot-append q t k in
    (ground (arith, both), ground (arith, both))

-- The text that is signed tells the message's id, the time and the body, for ids without a dot: no other
-- webhook has the same.
pub signed_content-injective :
    (print : ℕ → String)
    → ((n : ℕ) → has_dot (print n) ≡ false)
    → ((m n : ℕ) → print m ≡ print n → m ≡ n)
    → (id1 id2 : String) (time1 time2 : ℕ) (body1 body2 : String) → has_dot id1 ≡ false
    → has_dot id2 ≡ false
    → signed_content print id1 time1 body1 ≡ signed_content print id2 time2 body2
    → (id1 ≡ id2) × (time1 ≡ time2) × (body1 ≡ body2)
signed_content-injective print plain inj id1 id2 time1 time2 body1 body2 h k e =
    let (i, rest) = parts id1 id2 _ _ h k e in
    let (p, b) = parts (print time1) (print time2) body1 body2 (plain time1) (plain time2) rest in
    (i, inj time1 time2 p, b)
