-- ===== src/Accounts/Queries/Alike.antt =====
-- Tables in which no two rows are alike.
use chis.Base.{
  Bool, false, some, Bool-cases, List, [], ◌∷◌, ◌++◌, map, ◌≡◌, refl, sym, ◌∙◌, subst, inl, inr,
  arith,
}
use chis.Base.Array
use chis.Accounts.Queries.{insert_unless}
use chis.Accounts.Queries.Rows.{inserted-rows}

module _ {A : Type 0} (like : A → A → Bool) where
  -- No row is like an earlier one.
  abbrev pub AllDistinct : List A → Type 0
  AllDistinct [] = Unit
  AllDistinct (a ∷ rows) = (Array.any (like a) rows ≡ false) × AllDistinct rows

  any-end_false :
      (p : A → Bool) (rows : List A) (b : A)
      → Array.any p rows ≡ false
      → p b ≡ false
      → Array.any p (rows ++ b ∷ []) ≡ false
  any-end_false p [] b h e = ground arith
  any-end_false p (x ∷ rows) b h e = ground (arith, any-end_false p rows b, e)

  append-AllDistinct :
      (rows : List A) (b : A)
      → ((x : A) → like b x ≡ false → like x b ≡ false)
      → Array.any (like b) rows ≡ false
      → AllDistinct rows
      → AllDistinct (rows ++ b ∷ [])
  append-AllDistinct [] b s n h = (refl, tt)
  append-AllDistinct (a ∷ rows) b s n h = (
    any-end_false (like a) rows b h.0 (s a (ground arith)),
    append-AllDistinct rows b s (ground arith) h.1,
  )

  filter-any :
      (p q : A → Bool) (rows : List A)
      → Array.any q rows ≡ false
      → Array.any q (Array.filter p rows) ≡ false
  filter-any p q [] h = refl
  filter-any p q (x ∷ rows) h = ground (arith, filter-any p q rows)

  pub filter-AllDistinct :
      (p : A → Bool) (rows : List A) → AllDistinct rows → AllDistinct (Array.filter p rows)
  filter-AllDistinct p [] h = tt
  filter-AllDistinct p (x ∷ rows) h = elim (Bool-cases (p x)) [
    | inl y ↦ rw y (filter-any p (like x) rows h.0, filter-AllDistinct p rows h.1)
    | inr n ↦ rw n (filter-AllDistinct p rows h.1)
  ]

  module _ (f : A → A) (same : (x y : A) → like (f x) (f y) ≡ like x y) where
    map-any :
        (x : A) (rows : List A) → Array.any (like (f x)) (map f rows) ≡ Array.any (like x) rows
    map-any x [] = refl
    map-any x (y ∷ rows) = rw (same x y, map-any x rows) refl

    pub map-AllDistinct : (rows : List A) → AllDistinct rows → AllDistinct (map f rows)
    map-AllDistinct [] h = tt
    map-AllDistinct (x ∷ rows) h = (map-any x rows ∙ h.0, map-AllDistinct rows h.1)

  any-weaker :
      (p q : A → Bool) (rows : List A)
      → ((x : A) → p x ≡ false → q x ≡ false)
      → Array.any p rows ≡ false
      → Array.any q rows ≡ false
  any-weaker p q [] w h = refl
  any-weaker p q (x ∷ rows) w h = ground (arith, w x, any-weaker p q rows w)

  -- An insertion that is refused for a row that is like the new one.
  pub insert_unless-AllDistinct :
      (p : A → Bool) (b : A) (rows after : List A)
      → ((x : A) → p x ≡ false → like b x ≡ false)
      → ((x : A) → like b x ≡ false → like x b ≡ false)
      → insert_unless p b rows ≡ some after
      → AllDistinct rows
      → AllDistinct after
  insert_unless-AllDistinct p b rows after weaker s e h = elim (Bool-cases (Array.any p rows)) [
    | inl y ↦ absurd (ground arith)
    | inr n ↦
        subst AllDistinct (sym (inserted-rows p b rows after e))
          (append-AllDistinct rows b s (any-weaker p (like b) rows weaker n) h)
  ]
