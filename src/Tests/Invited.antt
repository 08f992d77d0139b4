-- ===== src/Tests/Invited.antt =====
-- The answers to invitations, registrations and slugs.
use Prim.Native.Char.{Char, code}
use chis.Access.{Claims, user_of_token, find_by_user_and_org_id, passed, admin_route}
use chis.Accounts.Auth.{TokenClaims, generate_token, RegisterRequest, register, login}
use chis.Base.{
  ℕ, ltb, none, Option, nat_eq, if◌then◌else◌, String, true, false, some, [], ◌∷◌, ◌≡◌, refl,
  truthy, ◌==◌, All, map, arith,
}
use chis.Net.LocalStorage.{Storage, get_item}
use chis.Net.{headers_of, get_stored_token, json}
use chis.Accounts.{no_rows, ok, refused}
use chis.Accounts.Queries.{
  find_user, find_by_token, find_invitation, find_pending_by_email, find_all_by_user_id,
}
use chis.Accounts.Organizations.Slugs.{slugify, trim_hyphens, is_slug_char}
use chis.Accounts.Invitations.{CreateInvitationRequest}
use chis.Accounts.Answers.{
  accept_invitation, decline, respond_to_invitation, get_pending_invitations,
}
use chis.Api.Invitations
use chis.Api.Types.{AcceptInvitationResponse}
use chis.Parts.PendingInvitations.{PendingState, respond_begin, respond_settled}
use chis.Tests.Data.{at_acme}
use chis.Accounts.Auth.Twice.{left_behind, register-same_name}
use chis.Accounts.Auth.Entering.{entered, register-login}
use chis.Accounts.Organizations.{org_response, list_orgs}
use chis.Accounts.Organizations.Listed.{role_in, list_orgs-find_by_user_and_org_id}
use chis.Accounts.Organizations.Slugs.Plain.{IsPlain, slugify-slugify}
use chis.Accounts.Answers.Declining.{settled_error, respond_to_invitation-decline}
use chis.Accounts.Answers.Retried.{
  all_but_update, half_joined, closed_later, accept_invitation-retry,
}
use chis.Accounts.Answers.Listed.{IsJoinable, get_pending_invitations-IsJoinable}
use chis.Tests.Accounts.{ada_fresh, bob_fresh, bob_request, bob, to_bob, before, invited}

abbrev no_answer : AcceptInvitationResponse
no_answer = record { message = ""; org_id = ""; org_name = ""; org_slug = ""; role = "" }

abbrev dialog : PendingState
dialog = record {
  orgs = at_acme;
  invitations =
      record {
        id = "i1";
        org_name = "ada's Workspace";
        org_slug = "adas-workspace";
        role = "member";
        expires_at = "x";
      }
      ∷ [];
  is_open = true;
  loading = λ _. false;
}

respond_to_invitation-decline_example :
    let r =
      settled_error truthy 4 "u2" "i1" invited bob to_bob dialog no_answer
        (json no_answer)
        (λ s. s)
        "/respond"
        "now"
        "failed to decline invitation" in
    (respond_to_invitation (λ n. true) 4 "u2" truthy "i1" (some decline) invited
      ≡ (invited, refused 500 "failed to decline invitation"))
    × ((respond_settled "i1" Invitations.decline r (respond_begin "i1" dialog)).invitations
        ≡ dialog.invitations)
    × ((respond_settled "i1" Invitations.decline r (respond_begin "i1" dialog)).is_open ≡ true)
unfolding find_user find_invitation
respond_to_invitation-decline_example =
    respond_to_invitation-decline truthy 4 "u2" "i1" invited bob to_bob dialog no_answer
      (json no_answer) (λ s. s) "/respond" "now" refl refl refl refl refl refl

abbrev small_w : Char
small_w = "w"

-- Lower case for the texts here
abbrev lower : String → String
lower String.[] = String.[]
lower (String.◌∷◌ c s) = String.◌∷◌ (if nat_eq (code c) 87 then small_w else c) (lower s)

-- Another Ada
abbrev eve_request : RegisterRequest
eve_request = record { email = "ada@y"; password = "longpass"; first_name = "ada"; last_name = "" }

register-same_name_example :
    (register (λ n. true) (λ p. some p) lower bob_fresh (some eve_request) before ≡ (
      left_behind (λ p. some p) lower bob_fresh eve_request "longpass" before,
      refused 409 "Resource already exists.",
    ))
    × (register
          (λ n. true)
          (λ p. some p)
          lower
          ada_fresh
          (some eve_request)
          (left_behind (λ p. some p) lower bob_fresh eve_request "longpass" before)
        ≡ (
          left_behind (λ p. some p) lower bob_fresh eve_request "longpass" before,
          refused 409 "Resource already exists.",
        ))
unfolding slugify trim_hyphens is_slug_char
register-same_name_example =
    register-same_name (λ p. some p) lower bob_fresh eve_request "longpass" before "s2" ada_fresh
      eve_request "longpass" refl refl refl refl refl refl refl

abbrev browser : Storage
browser = ("auth_token", "u2") ∷ ("selected_org", "o2") ∷ []

-- A token is its user's id, and there are only those that expire two days after the login here.
abbrev sign : TokenClaims → Option String
sign claims = if nat_eq claims.exp 172807 then some claims.sub else none

abbrev parse : ℕ → String → Option Claims
parse at text = if ltb at 172807 then some (record { sub = some text }) else none

read_back :
    (later : ℕ) (claims : TokenClaims) (text : String)
    → sign claims ≡ some text
    → parse later text
      ≡ (if ltb later claims.exp then some (record { sub = some claims.sub }) else none)
read_back later claims text e = ground (arith, e)

register-login_example :
    (register (λ n. true) (λ p. some p) (λ s. s) bob_fresh (some bob_request) no_rows ≡ (
      entered (λ p. some p) (λ s. s) bob_fresh bob_request "longpass" "s2" no_rows,
      ok (record { id = "u2"; email = "bob@x"; first_name = "bob" }),
    ))
    × (login
          (λ n. true)
          (λ a b. a == b)
          sign
          7
          (some (record { email = "bob@x"; password = "longpass" }))
          (entered (λ p. some p) (λ s. s) bob_fresh bob_request "longpass" "s2" no_rows)
        ≡ ok "u2")
    × (admin_route
          (user_of_token (parse 172806) truthy)
          truthy
          (entered (λ p. some p) (λ s. s) bob_fresh bob_request "longpass" "s2" no_rows).memberships
          (headers_of browser true)
        ≡ passed ("u2", "o2"))
unfolding get_stored_token get_item generate_token
register-login_example =
    register-login (λ p. some p) (λ s. s) bob_fresh bob_request "longpass" "s2" no_rows
      (λ a b. a == b) sign 7 "u2" parse truthy browser 172806 refl refl
      (record { email = refl; account = refl; slug = refl; user = refl; member = refl }) refl refl
      read_back refl refl refl refl refl refl

abbrev to_invite : CreateInvitationRequest
to_invite = record { email = "bob@x"; role = "" }

accept_invitation-retry_example :
    (accept_invitation all_but_update 4 "u2" (some "t1") invited
      ≡ (half_joined 4 5 "t1" to_bob bob invited, refused 500 "failed to update invitation status"))
    × (find_by_user_and_org_id "u2" "o1" (half_joined 4 5 "t1" to_bob bob invited).memberships
        ≡ some (record { user_id = "u2"; org_id = "o1"; role = "member" }))
    × (accept_invitation (λ n. true) 5 "u2" (some "t1") (half_joined 4 5 "t1" to_bob bob invited)
        ≡ (
          closed_later 4 5 "t1" to_bob bob invited,
          refused 409 "you are already a member of this organization",
        ))
unfolding find_user find_by_token
accept_invitation-retry_example =
    accept_invitation-retry 4 5 "t1" to_bob bob invited refl refl refl refl refl refl refl

get_pending_invitations-IsJoinable_example :
    (get_pending_invitations (λ n. true) 4 "u2" invited
      ≡ ok (find_pending_by_email "bob@x" 4 invited.organizations invited.invitations))
    × All
        (IsJoinable 4 bob truthy invited)
        (find_pending_by_email "bob@x" 4 invited.organizations invited.invitations)
unfolding find_user
get_pending_invitations-IsJoinable_example =
    get_pending_invitations-IsJoinable 4 bob truthy invited refl (refl, tt) (refl, tt)

list_orgs-find_by_user_and_org_id_example :
    (list_orgs (λ n. true) "u1" before
      ≡ ok (map org_response (find_all_by_user_id "u1" before.organizations before.memberships)))
    × (role_in "o1"
          (map org_response (find_all_by_user_id "u1" before.organizations before.memberships))
        ≡ some "admin")
unfolding find_by_user_and_org_id
list_orgs-find_by_user_and_org_id_example =
    list_orgs-find_by_user_and_org_id "u1" "o1" before (refl, tt)

slugify-slugify_example :
    IsPlain (slugify (λ s. s) "Ada's __ Club")
    × (slugify (λ s. s) (slugify (λ s. s) "Ada's __ Club") ≡ slugify (λ s. s) "Ada's __ Club")
slugify-slugify_example = slugify-slugify (λ s. s) "Ada's __ Club" (λ x h. refl)
