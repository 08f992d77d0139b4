-- ===== src/Accounts/Steps/Served.antt =====
-- What the requests change.
use chis.Base.{◌≡◌, refl}
use chis.Access.{Guarded, passed, answered}
use chis.Accounts.{Tables, Outcome}
use chis.Accounts.Auth.Founding.{register-steps}
use chis.Accounts.Organizations.Changing.{
  create_org-steps, delete_org-steps, rotate_signing_secret-steps,
}
use chis.Accounts.Answers.Joining.{accept_invitation-steps}
use chis.Accounts.Answers.Responding.{respond_to_invitation-steps}
use chis.Accounts.Invitations.Inviting.{create_invitation-steps, cancel_invitation-steps}
use chis.Accounts.Requests.{
  Library, Call, Request, registering, creating_org, deleting_org, rotating, inviting, cancelling,
  accepting, responding, when, signed_in, as_admin, handle, serve,
}
use chis.Accounts.Steps.{Steps, none_left}

module _ (lib : Library) (c : Call) where
  when-steps :
      {A B : Type 0} (g : Guarded A) (f : A → Outcome B) (t : Tables)
      → ((a : A) → g ≡ passed a → Steps lib c t (f a).0)
      → Steps lib c t (when g f t)
  when-steps (passed a) f t h = h a refl
  when-steps (answered status m) f t h = none_left

  handle-steps : (r : Request) (t : Tables) → c.request ≡ r → Steps lib c t (handle lib r c t)
  handle-steps (registering fresh body) t e = register-steps lib c fresh body e t
  handle-steps (creating_org id secret name) t e =
      when-steps (signed_in lib c t) _ t
        (λ user s. create_org-steps lib c user id secret name t e s)
  handle-steps (deleting_org name) t e =
      when-steps (as_admin lib c t) _ t (λ p a. delete_org-steps lib c p.0 p.1 name t e a)
  handle-steps (rotating secret) t e =
      when-steps (as_admin lib c t) _ t
        (λ p a. rotate_signing_secret-steps lib c p.0 p.1 secret t a)
  handle-steps (inviting id token body) t e =
      when-steps (as_admin lib c t) _ t
        (λ p a. create_invitation-steps lib c p.0 p.1 t id token body a)
  handle-steps (cancelling id) t e =
      when-steps (as_admin lib c t) _ t (λ p a. cancel_invitation-steps lib c p.0 p.1 t id a)
  handle-steps (accepting token) t e =
      when-steps (signed_in lib c t) _ t (λ user s. accept_invitation-steps lib c user t token s)
  handle-steps (responding id action) t e =
      when-steps (signed_in lib c t) _ t
        (λ user s. respond_to_invitation-steps lib c user t id action s)

  pub serve-Steps : (t : Tables) → Steps lib c t (serve lib c t)
  unfolding serve
  serve-Steps t = handle-steps c.request t refl
