-- ===== src/Forms/RegisterForm.antt =====
-- web/src/features/auth/components/register-form.tsx, with the setters of use-register.ts.
use chis.Base.{String, Option, [], ◌∷◌, ◌++◌, if◌then◌else◌}
use chis.Forms.Fields.{field, error_view}
use chis.Forms.Register.{RegisterState, login_link}
use chis.View.{View, text, button, link}

pub data RegisterAction : Type 0 where
  set_first_name set_last_name set_email set_password : String → RegisterAction
  submit : RegisterAction

-- What an input sets.
unfoldable pub typed : RegisterAction → RegisterState → RegisterState
typed (set_first_name v) s = record s { first_name = v }
typed (set_last_name v) s = record s { last_name = v }
typed (set_email v) s = record s { email = v }
typed (set_password v) s = record s { password = v }
typed submit s = s

-- The names of the person.
unfoldable pub name_fields : RegisterState → View RegisterAction
name_fields s =
    field "First name" "John" s.first_name set_first_name "firstName" s.field_errors
    ++ field "Last name" "Doe" s.last_name set_last_name "lastName" s.field_errors

-- The account.
unfoldable pub account_fields : RegisterState → View RegisterAction
account_fields s =
    field "Email" "you@example.com" s.email set_email "email" s.field_errors
    ++ field "Password" "Create a password" s.password set_password "password" s.field_errors

unfoldable pub register_form :
    (String → String) → Option String → RegisterState → View RegisterAction
unfolding login_link name_fields account_fields
register_form encode redirect s =
    error_view s.error
    ++ (name_fields s
        ++ (account_fields s
            ++ (button (if s.is_loading then "Creating account..." else "Create account")
                  s.is_loading submit
                ∷ text "Already have an account?"
                ∷ link "Sign in" (login_link encode redirect)
                ∷ [])))
