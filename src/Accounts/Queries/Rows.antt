-- ===== src/Accounts/Queries/Rows.antt =====
-- The rows that the queries leave and find.
use chis.Base.{
  String, Bool, true, false, Option, none, some, Option-cases, Bool-cases, List, [], ◌∷◌, ◌++◌, map,
  ◌≡◌, refl, sym, ◌∙◌, subst, inl, inr, arith, eq_iff, ◌==◌,
}
use chis.Base.Array
use mathlib.Core.Option
use chis.Accounts.{Invitation, Status, asked}
use chis.Accounts.Queries.{
  insert_unless, update_where, with_status, update_status, status_of, set_status,
}

pub asked-some {ℓ} :
    {A : Type ℓ} (b : Bool) (o : Option A) (a : A) → asked b o ≡ some a → o ≡ some a
asked-some b o a h = ground arith

pub any-end :
    {A : Type 0} (p : A → Bool) (xs : List A) (a : A)
    → p a ≡ true
    → Array.any p (xs ++ a ∷ []) ≡ true
any-end p [] a h = ground arith
any-end p (x ∷ xs) a h = ground (arith, any-end p xs a h)

pub insert-any :
    {A : Type 0} (like : A → Bool) (a : A) (rows after : List A)
    → like a ≡ true
    → insert_unless like a rows ≡ some after
    → Array.any like after ≡ true
insert-any like a rows after h e = elim (Bool-cases (Array.any like rows)) [
  | inl y ↦ absurd (ground arith)
  | inr n ↦ subst (λ xs. Array.any like xs ≡ true) (ground arith) (any-end like rows a h)
]

pub find-append :
    {A : Type 0} (p : A → Bool) (xs ys : List A) (a : A)
    → Array.find p xs ≡ some a
    → Array.find p (xs ++ ys) ≡ some a
find-append p [] ys a h = absurd (ground arith)
find-append p (x ∷ xs) ys a h = ground (arith, find-append p xs ys a)

pub inserted-rows :
    {A : Type 0} (like : A → Bool) (a : A) (rows after : List A)
    → insert_unless like a rows ≡ some after
    → after ≡ rows ++ a ∷ []
inserted-rows like a rows after e = elim (Bool-cases (Array.any like rows)) [
  | inl y ↦ absurd (ground arith)
  | inr n ↦ ground arith
]

pub update_status-rows :
    (text id : String) (rows after : List Invitation)
    → update_status text id rows ≡ some after
    → (s : Status) × (after ≡ update_where (with_status s) id rows)
unfolding update_status set_status
update_status-rows text id rows after e = elim (Option-cases (status_of text)) [
  | inl n ↦ absurd (ground arith)
  | inr (s, h) ↦ (s, ground arith)
]

-- No invitation gets a status that is not in the enumeration.
pub update_status-declined :
    (id : String) (rows : List Invitation) → update_status "declined" id rows ≡ none
unfolding update_status status_of
update_status-declined id rows = refl

-- A new row is found by what no row had before it.
pub find-new :
    {A : Type 0} (p : A → Bool) (rows : List A) (a : A)
    → Array.any p rows ≡ false
    → p a ≡ true
    → Array.find p (rows ++ a ∷ []) ≡ some a
find-new p [] a n h = ground arith
find-new p (x ∷ rows) a n h = ground (arith, find-new p rows a, h)

pub insert-new :
    {A : Type 0} (like : A → Bool) (a : A) (rows : List A)
    → Array.any like rows ≡ false
    → insert_unless like a rows ≡ some (rows ++ a ∷ [])
insert-new like a rows n = rw n refl

pub insert-taken :
    {A : Type 0} (like : A → Bool) (a : A) (rows : List A)
    → Array.any like rows ≡ true
    → insert_unless like a rows ≡ none
insert-taken like a rows n = rw n refl

pub find-map :
    {A : Type 0} (p : A → Bool) (f : A → A) (rows : List A)
    → ((a : A) → p (f a) ≡ p a)
    → Array.find p (map f rows) ≡ Option.map f (Array.find p rows)
find-map p f [] h = refl
find-map p f (x ∷ rows) h = elim (Bool-cases (p x)) [
  | inl y ↦ rw (h x, y) refl
  | inr n ↦ rw (h x, n) (find-map p f rows h)
]

pub eq_comm : (a b : String) → (a == b) ≡ (b == a)
eq_comm a b = elim (Bool-cases (a == b)) [
  | inl y ↦ rw ((eq_iff a b).0 y) refl
  | inr n ↦ elim (Bool-cases (b == a)) [ inl y ↦ rw ((eq_iff b a).0 y) refl | inr m ↦ n ∙ sym m ]
]
