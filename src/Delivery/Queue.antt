-- ===== src/Delivery/Queue.antt =====
-- internal/queue/queue.go: `LPUSH` and `BRPOP` on one list.
use chis.Base.{
  String, Option, none, some, Option-cases, inl, inr, List, [], ◌∷◌, ◌++◌, ◌≡◌, refl, subst, All,
  All-middle, All-left, arith,
}

unfoldable pub push : String → List String → List String
push id ids = id ∷ ids

-- The last of the list, and the others; nothing after the timeout.
unfoldable pub pop : List String → Option (String × List String)
pop [] = none
pop (id ∷ ids) = elim (pop ids) [
  | none ↦ some (id, [])
  | some (last, rest) ↦ some (last, id ∷ rest)
]

pop-none : (ids : List String) → pop ids ≡ none → ids ≡ []
unfolding pop
pop-none [] e = refl
pop-none (i ∷ ids) e = elim (Option-cases (pop ids)) [
  | inl n ↦ ground arith
  | inr ((last, others), s) ↦ ground arith
]

-- What is popped was at the end.
pop_split :
    (ids rest : List String) (id : String) → pop ids ≡ some (id, rest) → ids ≡ rest ++ id ∷ []
unfolding pop
pop_split [] rest id e = cc
pop_split (i ∷ ids) rest id e = elim (Option-cases (pop ids)) [
  | inl n ↦ ground (arith, pop-none ids n)
  | inr ((last, others), s) ↦ let ih = pop_split ids others last s in ground arith
]

pub All-pop :
    (P : String → Type 0) (ids rest : List String) (id : String)
    → All P ids
    → pop ids ≡ some (id, rest)
    → P id × All P rest
All-pop P ids rest id h e =
    let (p, others) = All-middle P rest [] id (subst (All P) (pop_split ids rest id e) h) in
    (p, All-left P rest [] others)
