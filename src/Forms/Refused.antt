-- ===== src/Forms/Refused.antt =====
-- What a form shows after the API has refused it.
use chis.Base.{
  String, ◌≡◌, refl, ap, arith, Option, none, some, Option-cases, inl, inr, List, [], ◌∷◌, ◌++◌,
  truthy, if◌then◌else◌, ◌==◌, ◌∙◌, Bool-cases,
}
use mathlib.Core.List.{append_assoc, append-nil}
use chis.Net.{ApiRequestError, FieldError, api_error, rejected}
use chis.Forms.Fields.{field, error_view, get_field_error}
use chis.Forms.Register
use chis.Forms.Register.{RegisterState}
use chis.Forms.RegisterForm.{register_form, name_fields, account_fields, submit}
use chis.View.{View, banner, input, clicks, clicks-append}

-- The values that stand in the inputs of a view.
abbrev pub values : {E : Type 0} → View E → List String
values [] = []
values (input _ v _ ∷ ws) = v ∷ values ws
values (_ ∷ ws) = values ws

-- The errors that it shows.
abbrev pub notices : {E : Type 0} → View E → List String
notices [] = []
notices (banner m ∷ ws) = m ∷ notices ws
notices (_ ∷ ws) = notices ws

module _ {E : Type 0} where
  values-append : (v w : View E) → values (v ++ w) ≡ values v ++ values w
  values-append [] w = refl
  values-append (input _ x _ ∷ v) w = ap (λ xs. x ∷ xs) (values-append v w)
  values-append (_ ∷ v) w = values-append v w

  notices-append : (v w : View E) → notices (v ++ w) ≡ notices v ++ notices w
  notices-append [] w = refl
  notices-append (banner x ∷ v) w = ap (λ xs. x ∷ xs) (notices-append v w)
  notices-append (_ ∷ v) w = notices-append v w

-- A message that is shown, if it is not empty.
abbrev pub shown : Option String → List String
shown none = []
shown (some m) = if truthy m then m ∷ [] else []

-- The errors that come with the refusal.
abbrev pub given : Option (List FieldError) → List FieldError
given none = []
given (some errors) = errors

module _ (E : Type 0) where
  notices-error_view : (o : Option String) → notices (error_view {E = E} o) ≡ shown o
  notices-error_view none = refl
  notices-error_view (some m) = ground arith

  values-error_view : (o : Option String) → values (error_view {E = E} o) ≡ []
  values-error_view none = refl
  values-error_view (some m) = ground arith

  clicks-error_view : (o : Option String) → clicks (error_view {E = E} o) ≡ []
  clicks-error_view none = refl
  clicks-error_view (some m) = ground arith

  module _ (label placeholder value : String) (change : String → E) (name : String)
      (errors : List FieldError) where
    notices-field :
        notices (field label placeholder value change name errors)
        ≡ shown (get_field_error errors name)
    unfolding field
    notices-field = notices-error_view (get_field_error errors name)

    values-field : values (field label placeholder value change name errors) ≡ value ∷ []
    unfolding field
    values-field = ap (λ vs. value ∷ vs) (values-error_view (get_field_error errors name))

    clicks-field : clicks (field label placeholder value change name errors) ≡ []
    unfolding field
    clicks-field = clicks-error_view (get_field_error errors name)

module _ (encode : String → String) (redirect : Option String) (s : RegisterState) where
  values-register_form :
      values (register_form encode redirect s)
      ≡ s.first_name ∷ s.last_name ∷ s.email ∷ s.password ∷ []
  unfolding register_form name_fields account_fields
  values-register_form = simp (values-append, values-error_view, values-field) refl

  clicks-register_form :
      clicks (register_form encode redirect s) ≡ (if s.is_loading then [] else submit ∷ [])
  unfolding register_form name_fields account_fields
  clicks-register_form = simp (clicks-append, clicks-error_view, clicks-field) refl

  notices-register_form :
      notices (register_form encode redirect s)
      ≡ shown s.error
        ++ (shown (get_field_error s.field_errors "firstName")
            ++ (shown (get_field_error s.field_errors "lastName")
                ++ (shown (get_field_error s.field_errors "email")
                    ++ shown (get_field_error s.field_errors "password"))))
  unfolding register_form name_fields account_fields
  notices-register_form =
      simp (notices-append, notices-error_view, notices-field, append_assoc, append-nil) refl

-- The first of the errors that are about a field.
abbrev pub first_about : String → List FieldError → List String
first_about name [] = []
first_about name (e ∷ es) =
    let rest = first_about name es in if e.field == name then shown (some e.message) else rest

get_field_error-first :
    (name : String) (es : List FieldError) → shown (get_field_error es name) ≡ first_about name es
unfolding get_field_error
get_field_error-first name [] = refl
get_field_error-first name (e ∷ es) = elim (Bool-cases (e.field == name)) [
  | inl y ↦ rw y refl
  | inr n ↦ rw n (get_field_error-first name es)
]

-- What is shown of a refusal.
abbrev pub told : String → List FieldError → List String
told message errors =
    shown (some message)
    ++ (first_about "firstName" errors
        ++ (first_about "lastName" errors
            ++ (first_about "email" errors ++ first_about "password" errors)))

pub told-get_field_error :
    (message : String) (errors : List FieldError)
    → told message errors
      ≡ shown (some message)
        ++ (shown (get_field_error errors "firstName")
            ++ (shown (get_field_error errors "lastName")
                ++ (shown (get_field_error errors "email")
                    ++ shown (get_field_error errors "password"))))
told-get_field_error message errors = simp get_field_error-first refl

told_lem :
    (encode : String → String) (redirect : Option String) (s : RegisterState) (message : String)
    → s.error ≡ some message
    → notices (register_form encode redirect s) ≡ told message s.field_errors
told_lem encode redirect s message e =
    notices-register_form encode redirect s ∙ simp (e, get_field_error-first) refl

-- While a registration is under way, no button of the form can be clicked. When the API refuses it, the
-- form holds what was typed, its one button offers to submit it, and it shows the message and then, for
-- each field in turn, the first of the given errors that is about it, as far as these texts are not
-- empty.
pub register_form-Refused :
    (encode : String → String) (redirect : Option String) (s : RegisterState) (e : ApiRequestError)
    → let t = Register.submit_begin s in
      let u = (Register.submit_settled encode redirect (rejected (api_error e)) t).0 in
      (clicks (register_form encode redirect t) ≡ [])
      × (values (register_form encode redirect u)
          ≡ s.first_name ∷ s.last_name ∷ s.email ∷ s.password ∷ [])
      × (clicks (register_form encode redirect u) ≡ submit ∷ [])
      × (notices (register_form encode redirect u) ≡ told e.message (given e.details))
unfolding Register.submit_begin Register.submit_settled
register_form-Refused encode redirect s e =
    let t = Register.submit_begin s in
    let u = (Register.submit_settled encode redirect (rejected (api_error e)) t).0 in
    (
      clicks-register_form encode redirect t,
      values-register_form encode redirect u,
      clicks-register_form encode redirect u,
      elim (Option-cases e.details) [
        | inl n ↦ rw n (told_lem encode redirect (record u { field_errors = [] }) e.message refl)
        | inr (ds, d) ↦
            rw d (told_lem encode redirect (record u { field_errors = ds }) e.message refl)
      ],
    )
