-- ===== src/Tests/Accounts.antt =====
-- Users, organizations and invitations of the API.
use chis.Base.{String, true, none, some, List, [], ◌∷◌, ◌≡◌, refl, truthy}
use chis.Access.{
  Membership, find_by_user_and_org_id, admin_route, token_of, cut_space, validate_token,
  validate_org_access, require_admin, org_route,
}
use chis.Accounts.{User, Organization, Invitation, pending, Tables, no_rows, Calls}
use chis.Accounts.Queries.{
  insert_user, insert_account, insert_organization, insert_membership, insert_invitation, find_user,
  find_by_email, find_by_token, find_by_org_and_email, accept_row,
}
use chis.Accounts.Auth.{Fresh, RegisterRequest, register, register_body, sign_up, open_workspace}
use chis.Accounts.Organizations.Slugs.{slugify, trim_hyphens, is_slug_char}
use chis.Accounts.Invitations.{create_invitation, is_member}
use chis.Accounts.Answers.{accept_invitation, join}
use chis.Accounts.Requests.{Library, Call, registering, inviting, accepting, serve, serve_all}
use chis.Accounts.Steps.{Steps}
use chis.Accounts.Steps.Vouched.{IsVouched, serve_all-IsVouched}

-- Tokens are their users' ids, and passwords their own hashes.
abbrev lib : Library
lib = record {
  user_of = λ token. some token;
  is_id = truthy;
  hash_of = λ p. some p;
  to_lower = λ s. s;
}

abbrev up : Calls
up n = true

abbrev as_user : String → String → List (String × String)
as_user user org = ("Authorization", user) ∷ ("X-Org-ID", org) ∷ []

abbrev pub ada_fresh : Fresh
ada_fresh = record { user = "u1"; org = "o1"; secret = some "s1" }

abbrev pub bob_fresh : Fresh
bob_fresh = record { user = "u2"; org = "o2"; secret = some "s2" }

abbrev ada_request : RegisterRequest
ada_request = record { email = "ada@x"; password = "longpass"; first_name = "ada"; last_name = "" }

abbrev pub bob_request : RegisterRequest
bob_request = record { email = "bob@x"; password = "longpass"; first_name = "bob"; last_name = "" }

abbrev history : List Call
history =
    record { headers = []; up = up; now = 1; request = registering ada_fresh (some ada_request) }
    ∷ record { headers = []; up = up; now = 2; request = registering bob_fresh (some bob_request) }
    ∷ record {
      headers = as_user "Bearer u1" "o1";
      up = up;
      now = 3;
      request = inviting "i1" (some "t1") (some (record { email = "bob@x"; role = "" }));
    }
    ∷ record {
      headers = as_user "Bearer u2" "o2";
      up = up;
      now = 4;
      request = accepting (some "t1");
    }
    ∷ []

-- Bob has joined Ada's organization.
bob_joins :
    find_by_user_and_org_id "u2" "o1" (serve_all lib history no_rows).memberships
    ≡ some (record { user_id = "u2"; org_id = "o1"; role = "member" })
unfolding serve_all serve register create_invitation accept_invitation find_by_user_and_org_id
    validate_token token_of cut_space find_by_token admin_route org_route validate_org_access
    register_body sign_up insert_user insert_account open_workspace insert_organization
    insert_membership slugify trim_hyphens is_slug_char require_admin is_member join accept_row
    find_by_email find_by_org_and_email find_user insert_invitation
bob_joins = refl

-- Ada and Bob have registered, and Ada has invited Bob.
abbrev ada : User
ada = record { id = "u1"; email = "ada@x"; first_name = "ada"; last_name = "" }

abbrev pub bob : User
bob = record { id = "u2"; email = "bob@x"; first_name = "bob"; last_name = "" }

abbrev pub to_bob : Invitation
to_bob = record {
  id = "i1";
  org_id = "o1";
  email = "bob@x";
  role = "member";
  token = "t1";
  status = pending;
  invited_by = "u1";
  expires_at = 604803;
  accepted_at = none;
}

abbrev ada_org : Organization
ada_org = record {
  id = "o1";
  name = "ada's Workspace";
  slug = "adas-workspace";
  signing_secret = "s1";
}

abbrev ada_admin : Membership
ada_admin = record { user_id = "u1"; org_id = "o1"; role = "admin" }

abbrev pub before : Tables
before = record {
  users = ada ∷ bob ∷ [];
  accounts = [];
  organizations = ada_org ∷ [];
  memberships = ada_admin ∷ [];
  invitations = [];
}

abbrev pub invited : Tables
invited = record before { invitations = to_bob ∷ [] }

abbrev accepts : Call
accepts = record {
  headers = as_user "Bearer u2" "";
  up = up;
  now = 4;
  request = accepting (some "t1");
}

serve_all-IsVouched_example : IsVouched (serve_all lib history no_rows)
serve_all-IsVouched_example = serve_all-IsVouched lib history no_rows tt
