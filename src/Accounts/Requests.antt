-- ===== src/Accounts/Requests.antt =====
-- The requests that change the accounts, as internal/router/routes.go puts their handlers behind the
-- guards, and their sequences.
use chis.Base.{ℕ, String, Bool, Option, List, [], ◌∷◌}
use chis.Access.{Guarded, passed, answered, validate_token, admin_route}
use chis.Accounts.{Tables, Calls, Outcome}
use chis.Accounts.Auth.{Fresh, RegisterRequest, register}
use chis.Accounts.Organizations.{create_org, delete_org, rotate_signing_secret}
use chis.Accounts.Invitations.{CreateInvitationRequest, create_invitation, cancel_invitation}
use chis.Accounts.Answers.{Action, accept_invitation, respond_to_invitation}

-- A request that changes rows, with what is generated for it.
pub data Request : Type 0 where
  registering : Fresh → Option RegisterRequest → Request
  creating_org : String → Option String → Option String → Request
  deleting_org : Option String → Request
  rotating : Option String → Request
  inviting : String → Option String → Option CreateInvitationRequest → Request
  cancelling : String → Request
  accepting : Option String → Request
  responding : String → Option Action → Request

-- A request with its headers, its time, and what Postgres answers it.
pub record Call : Type 0 where
  pub headers : List (String × String)
  pub up : Calls
  pub now : ℕ
  pub request : Request

abbrev pub when {ℓ} : {A : Type 0} {B : Type ℓ} → Guarded A → (A → Outcome B) → Tables → Tables
when (passed a) f t = (f a).0
when (answered status m) f t = t

-- jwt's validation, uuid.Parse, bcrypt and strings.ToLower.
pub record Library : Type 0 where
  pub user_of : String → Option String
  pub is_id : String → Bool
  pub hash_of : String → Option String
  pub to_lower : String → String

module _ (lib : Library) where
  -- The guards of the routes, over the memberships of the tables.
  abbrev pub signed_in : Call → Tables → Guarded String
  signed_in c t = validate_token lib.user_of lib.is_id t.memberships c.headers

  abbrev pub as_admin : Call → Tables → Guarded (String × String)
  as_admin c t = admin_route lib.user_of lib.is_id t.memberships c.headers

  abbrev pub handle : Request → Call → Tables → Tables
  handle (registering fresh body) c t = (register c.up lib.hash_of lib.to_lower fresh body t).0
  handle (creating_org id secret name) c t =
      when (signed_in c t) (λ user. create_org c.up lib.to_lower user id secret name t) t
  handle (deleting_org name) c t = when (as_admin c t) (λ p. delete_org c.up p.1 name t) t
  handle (rotating secret) c t =
      when (as_admin c t) (λ p. rotate_signing_secret c.up p.1 secret t) t
  handle (inviting id token body) c t =
      when (as_admin c t) (λ p. create_invitation c.up c.now p.0 p.1 id token body t) t
  handle (cancelling id) c t =
      when (as_admin c t) (λ p. cancel_invitation c.up lib.is_id p.1 id t) t
  handle (accepting token) c t =
      when (signed_in c t) (λ user. accept_invitation c.up c.now user token t) t
  handle (responding id action) c t =
      when (signed_in c t) (λ user. respond_to_invitation c.up c.now user lib.is_id id action t) t

  -- The tables after a request, and after a sequence of them.
  unfoldable pub serve : Call → Tables → Tables
  serve c t = handle c.request c t

  unfoldable pub serve_all : List Call → Tables → Tables
  serve_all [] t = t
  serve_all (c ∷ cs) t = serve_all cs (serve c t)
