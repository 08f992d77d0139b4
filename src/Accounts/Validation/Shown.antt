-- ===== src/Accounts/Validation/Shown.antt =====
-- What the registration's form shows of what the validator reports.
use chis.Base.{
  String, Option, none, List, [], ◌∷◌, ◌++◌, ◌≡◌, ◌≢◌, refl, ◌==◌, Bool-cases, inl, inr, eq_iff,
  ◌∙◌,
}
use chis.Net.{api_error, rejected, api_request_error}
use chis.Forms.Fields.{get_field_error, message}
use chis.Forms.Register
use chis.Forms.Register.{RegisterState}
use chis.Forms.RegisterForm.{register_form}
use chis.Forms.Refused.{notices, shown, told-get_field_error, register_form-Refused}
use chis.Accounts.Validation.{Problem, format_errors, validation_failed}

-- No error has a name that strings.ToLower does not give.
unnamed :
    (to_lower : String → String) (name : String) (ps : List Problem)
    → ((x : String) → to_lower x ≢ name)
    → get_field_error (format_errors to_lower ps) name ≡ none
unfolding get_field_error format_errors message
unnamed to_lower name [] n = refl
unnamed to_lower name (p ∷ ps) n = elim (Bool-cases (to_lower p.field == name)) [
  | inl e ↦ absurd (n p.field ((eq_iff (to_lower p.field) name).0 e))
  | inr d ↦ rw d (unnamed to_lower name ps n)
]

-- If strings.ToLower gives neither firstName nor lastName, then the form of the registration shows
-- nothing of what the validator reports of the names, whatever else it reports: the message, and the
-- first errors of the e-mail and of the password are all that is shown.
pub register_form-validation_failed :
    (to_lower : String → String) (encode : String → String) (redirect : Option String)
    (s : RegisterState) (path timestamp : String) (ps : List Problem)
    → ((x : String) → to_lower x ≢ "firstName")
    → ((x : String) → to_lower x ≢ "lastName")
    → let e = api_request_error 422 (validation_failed to_lower path timestamp ps) in
      let u =
        (Register.submit_settled encode redirect
          (rejected (api_error e))
          (Register.submit_begin s)).0 in
      notices (register_form encode redirect u)
      ≡ "Validation failed"
        ∷ (shown (get_field_error (format_errors to_lower ps) "email")
            ++ shown (get_field_error (format_errors to_lower ps) "password"))
unfolding api_request_error validation_failed
register_form-validation_failed to_lower encode redirect s path timestamp ps f l =
    let e = api_request_error 422 (validation_failed to_lower path timestamp ps) in
    (register_form-Refused encode redirect s e).3
    ∙ told-get_field_error "Validation failed" (format_errors to_lower ps)
    ∙ rw (unnamed to_lower "firstName" ps f, unnamed to_lower "lastName" ps l) refl
