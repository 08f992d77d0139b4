-- ===== src/Base/Every.antt =====
-- What holds of every element of a list holds of those that the array methods keep.
use Prim.Native.Nat.{ℕ, zero, suc}
use mathlib.Core.Path.{◌≡◌, subst}
use mathlib.Core.Bool.{Bool, true}
use mathlib.Core.Option.{some}
use mathlib.Core.List.{List, [], ◌∷◌, map}
use native.Mathlib.Omega.{arith}
use mathlib.Core.Logic.{inl, inr}
use chis.Base.Tests.{Bool-cases}
use chis.Base.Lists.{All}
use chis.Base.Array

module _ {ℓ κ} {A : Type ℓ} (P : A → Type κ) where
  pub All-find : (p : A → Bool) (xs : List A) (a : A) → All P xs → Array.find p xs ≡ some a → P a
  All-find p (x ∷ xs) a h e = elim (Bool-cases (p x)) [
    | inl t ↦ subst P (ground arith) h.0
    | inr f ↦ All-find p xs a h.1 (ground arith)
  ]
  All-find p [] a h e = cc

  pub All-kept : (p : A → Bool) (xs : List A) → All P xs → All P (Array.filter p xs)
  All-kept p [] h = tt
  All-kept p (x ∷ xs) h = elim (Bool-cases (p x)) [
    | inl t ↦ rw t (h.0, All-kept p xs h.1)
    | inr f ↦ rw f (All-kept p xs h.1)
  ]

  pub All-take : (n : ℕ) (xs : List A) → All P xs → All P (Array.take n xs)
  All-take zero xs h = tt
  All-take (suc n) [] h = tt
  All-take (suc n) (x ∷ xs) h = (h.0, All-take n xs h.1)

  pub All-map : (f : A → A) (xs : List A) → ((a : A) → P a → P (f a)) → All P xs → All P (map f xs)
  All-map f [] g h = tt
  All-map f (x ∷ xs) g h = (g x h.0, All-map f xs g h.1)

module _ {ℓ κ μ} {A : Type ℓ} (P : A → Type κ) (Q : A → Type μ) where
  pub All-chosen :
      (p : A → Bool) (xs : List A)
      → ((a : A) → p a ≡ true → P a → Q a)
      → All P xs
      → All Q (Array.filter p xs)
  All-chosen p [] g h = tt
  All-chosen p (x ∷ xs) g h = elim (Bool-cases (p x)) [
    | inl t ↦ rw t (g x t h.0, All-chosen p xs g h.1)
    | inr f ↦ rw f (All-chosen p xs g h.1)
  ]
