-- ===== src/Tests/PathData.antt =====
-- A router that matches paths as they are declared, and queries that carry texts as they are.
use Prim.Native.Char.{code}
use Prim.Native.String.{String, [], ◌∷◌}
use text.Mathlib.TextLemmas.{nil-append, cons-append}
use mathlib.Core.List
use mathlib.Core.List.{Memᴰ}
use chis.Base.{
  ◌≡◌, refl, ap, sym, ◌∙◌, Option, some, none, nat_eq, arith, map, if◌then◌else◌, Bool-cases, inl,
  inr, ◌==◌,
}
use chis.Base.Text.{concat}
use chis.Routes.{Element, navigate}
use chis.Routes.Paths.{PathLib, IsPathLib, Location, Branch, all_branches, branch_at}

-- A text at the front, piece by piece.
unfoldable add : String → String → String
add [] t = t
add (c ∷ s) t = c ∷ add s t

add-concat : (s t : String) → add s t ≡ concat s t
unfolding add
add-concat [] t = sym (nil-append t)
add-concat (c ∷ s) t = ap (λ r. c ∷ r) (add-concat s t) ∙ sym (cons-append c s t)

-- A URL is cut at its first question mark.
unfoldable cut : String → Location
cut [] = record { pathname = ""; search = "" }
cut (c ∷ s) =
    let rest = cut s in
    if nat_eq (code c) 63
    then record { pathname = ""; search = c ∷ s }
    else record { pathname = c ∷ rest.pathname; search = rest.search }

-- What follows a text.
unfoldable after : String → String → Option String
after [] s = some s
after (c ∷ p) [] = none
after (c ∷ p) (d ∷ s) = let rest = after p s in if nat_eq (code c) (code d) then rest else none

elements : Option (List.List Element) → List.List Element
elements none = List.◌∷◌ (navigate "/dashboard") List.[]
elements (some es) = es

unfoldable pub path_lib : PathLib
unfolding cut after elements
path_lib = record {
  encode = λ s. s;
  parse = cut;
  param = λ search name. after (concat "?" (concat name "=")) search;
  match = λ p. elements (branch_at p all_branches);
}

branch_at-Mem :
    (p : String) (bs : List.List Branch) (es : List.List Element)
    → branch_at p bs ≡ some es
    → Memᴰ es (map (λ (b : Branch). b.1) bs)
unfolding branch_at
branch_at-Mem p List.[] es h = cc
branch_at-Mem p (List.◌∷◌ (q, fs) bs) es h = elim (Bool-cases (q == p)) [
  | inl e ↦ Memᴰ.head (ground arith)
  | inr e ↦ Memᴰ.tail (branch_at-Mem p bs es (ground arith))
]

otherwise : Memᴰ (List.◌∷◌ (navigate "/dashboard") List.[]) (map (λ (b : Branch). b.1) all_branches)
unfolding all_branches
otherwise = Memᴰ.tail (
    Memᴰ.tail (
      Memᴰ.tail
        (Memᴰ.tail (Memᴰ.tail (Memᴰ.tail (Memᴰ.tail (Memᴰ.tail (Memᴰ.tail (Memᴰ.head refl)))))))))

elements-Mem :
    (p : String) (o : Option (List.List Element))
    → branch_at p all_branches ≡ o
    → Memᴰ (elements o) (map (λ (b : Branch). b.1) all_branches)
unfolding elements
elements-Mem p none h = otherwise
elements-Mem p (some es) h = branch_at-Mem p all_branches es h

pub path_lib-IsPathLib : IsPathLib path_lib
unfolding path_lib cut after add elements
path_lib-IsPathLib = record {
  login_parsed = λ s.
      ap cut (sym (add-concat "/login?redirect=" s))
      ∙ ap (λ q. record { pathname = "/login"; search = q }) (add-concat "?redirect=" s);
  register_parsed = λ s.
      ap cut (sym (add-concat "/register?redirect=" s))
      ∙ ap (λ q. record { pathname = "/register"; search = q }) (add-concat "?redirect=" s);
  dashboard_parsed = refl;
  redirect_param = λ s. ap (after "?redirect=") (sym (add-concat "?redirect=" s));
  matched = λ p. elements-Mem p _ refl;
  declared = λ p es h. ap elements h;
}
