-- ===== src/Forms/LoginForm.antt =====
-- web/src/features/auth/components/login-form.tsx, with the setters of use-login.ts.
use chis.Base.{String, Option, [], ◌∷◌, ◌++◌, if◌then◌else◌}
use chis.Forms.Fields.{field, error_view}
use chis.Forms.Login.{LoginState, register_link}
use chis.View.{View, text, button, link}

pub data LoginAction : Type 0 where
  set_email set_password : String → LoginAction
  submit : LoginAction

-- What an input sets.
unfoldable pub typed : LoginAction → LoginState → LoginState
typed (set_email v) s = record s { email = v }
typed (set_password v) s = record s { password = v }
typed submit s = s

unfoldable pub login_form : (String → String) → Option String → LoginState → View LoginAction
unfolding register_link
login_form encode redirect s =
    error_view s.error
    ++ (field "Email" "you@example.com" s.email set_email "email" s.field_errors
        ++ (field "Password" "Enter your password" s.password set_password "password" s.field_errors
            ++ (button (if s.is_loading then "Signing in..." else "Sign in") s.is_loading submit
                ∷ text "Don't have an account?"
                ∷ link "Register" (register_link encode redirect)
                ∷ [])))
