-- ===== src/Delivery/RateLimit/Passed.antt =====
-- How many requests of a key are passed on.
use chis.Base.{
  ℕ, suc, ◌-◌, String, Bool, ◌≡◌, Bool-cases, inl, inr, List, [], ◌∷◌, ◌==◌, ◌&&◌, leb, arith,
  eq_iff, eq_refl, if◌then◌else◌,
}
use chis.Delivery.RateLimit.{Counters, incr, rate_limit}

pub record Asked : Type 0 where
  pub key : String
  pub answered : Bool

abbrev of_key : String → Asked → Bool
of_key key a = a.answered && a.key == key

-- The requests of a key that Redis answers, and those of them that are passed on.
abbrev pub asks : String → List Asked → ℕ
asks key [] = 0
asks key (a ∷ rest) = let n = asks key rest in if of_key key a then suc n else n

abbrev pub passes : String → Counters → List Asked → ℕ
passes key c [] = 0
passes key c (a ∷ rest) =
    let n = passes key (rate_limit a.answered a.key c).0 rest in
    if of_key key a && (rate_limit a.answered a.key c).1 then suc n else n

abbrev pub at_most : ℕ → ℕ → ℕ
at_most limit n = if leb n limit then n else limit

passes_left :
    (key : String) (c : Counters) (rs : List Asked)
    → passes key c rs ≡ at_most (100 - c key) (asks key rs)
unfolding rate_limit incr
passes_left key c [] = ground arith
passes_left key c (a ∷ rest) =
    let ih = passes_left key (rate_limit a.answered a.key c).0 rest in
    elim (Bool-cases a.answered) [
      | inr n ↦ ground (arith, ih)
      | inl y ↦ elim (Bool-cases (a.key == key)) [
        | inl e ↦ ground (arith, ih, eq_iff a.key key, eq_refl key)
        | inr e ↦ ground (arith, ih, eq_iff key a.key, eq_iff a.key key)
      ]
    ]

-- From counters at zero, of the requests of one key, which is an address in a minute, that Redis
-- answers, all are passed on up to 100, and 100 when there are more, whatever requests of other
-- keys come between.
pub passes_hundred :
    (key : String) (rs : List Asked) → passes key (λ _. 0) rs ≡ at_most 100 (asks key rs)
passes_hundred key rs = passes_left key (λ _. 0) rs
