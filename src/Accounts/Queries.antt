-- ===== src/Accounts/Queries.antt =====
-- The queries of internal/repository, with the constraints of internal/database/migrations: an insertion
-- that breaks one is an error.
pub mod Rows
pub mod Alike
use chis.Base.{
  ℕ, String, Bool, true, false, not, Option, none, some, List, [], ◌∷◌, ◌++◌, map, ◌==◌, ◌&&◌, ◌||◌,
  ltb, if◌then◌else◌,
}
use chis.Base.Array
use chis.Access.{Membership, belongs}
use chis.Accounts.{
  User, Account, Organization, Invitation, Status, pending, accepted, expired, cancelled, Tables,
}

-- INSERT, unless one of the rows is like the new one.
abbrev pub insert_unless {ℓ} : {A : Type ℓ} → (A → Bool) → A → List A → Option (List A)
insert_unless like a rows = if Array.any like rows then none else some (rows ++ a ∷ [])

-- UNIQUE of the email
abbrev pub has_email : String → User → Bool
has_email email u = u.email == email

unfoldable pub insert_user : User → List User → Option (List User)
insert_user u = insert_unless (has_email u.email) u

unfoldable pub find_by_email : String → List User → Option User
find_by_email email = Array.find (has_email email)

abbrev pub has_user_id : String → User → Bool
has_user_id id u = u.id == id

unfoldable pub find_user : String → List User → Option User
find_user id = Array.find (has_user_id id)

-- UNIQUE(provider, provider_account_id)
abbrev pub same_account : Account → Account → Bool
same_account a b = (b.provider == a.provider) && (b.provider_account_id == a.provider_account_id)

unfoldable pub insert_account : Account → List Account → Option (List Account)
insert_account a = insert_unless (same_account a) a

abbrev pub account_of : String → Account → Bool
account_of user a = a.user_id == user

unfoldable pub find_account : String → List Account → Option Account
find_account user = Array.find (account_of user)

-- UNIQUE of the slug
abbrev pub has_slug : String → Organization → Bool
has_slug slug o = o.slug == slug

unfoldable pub insert_organization : Organization → List Organization → Option (List Organization)
insert_organization o = insert_unless (has_slug o.slug) o

abbrev pub has_org_id : String → Organization → Bool
has_org_id id o = o.id == id

unfoldable pub find_organization : String → List Organization → Option Organization
find_organization id = Array.find (has_org_id id)

-- UNIQUE(user_id, org_id)
unfoldable pub insert_membership : Membership → List Membership → Option (List Membership)
insert_membership m = insert_unless (belongs m.user_id m.org_id) m

-- UNIQUE(org_id, email), and UNIQUE of the token
abbrev pub invites : String → String → Invitation → Bool
invites org email i = (i.org_id == org) && (i.email == email)

abbrev pub has_token : String → Invitation → Bool
has_token token i = i.token == token

unfoldable pub insert_invitation : Invitation → List Invitation → Option (List Invitation)
insert_invitation inv =
    insert_unless (λ i. invites inv.org_id inv.email i || has_token inv.token i) inv

unfoldable pub find_by_token : String → List Invitation → Option Invitation
find_by_token token = Array.find (has_token token)

abbrev pub has_id : String → Invitation → Bool
has_id id i = i.id == id

unfoldable pub find_invitation : String → List Invitation → Option Invitation
find_invitation id = Array.find (has_id id)

unfoldable pub find_by_org_and_email : String → String → List Invitation → Option Invitation
find_by_org_and_email org email = Array.find (invites org email)

-- ORDER BY created_at DESC
abbrev pub newest_first {ℓ} : {A : Type ℓ} → List A → List A
newest_first [] = []
newest_first (a ∷ rows) = newest_first rows ++ a ∷ []

unfoldable pub find_by_org_id : String → List Invitation → List Invitation
find_by_org_id org rows = newest_first (Array.filter (λ i. i.org_id == org) rows)

-- The labels of `invitation_status`; another text is an error of the statement.
unfoldable pub status_of : String → Option Status
status_of text =
    if text == "pending"
    then some pending
    else if text == "accepted"
    then some accepted
    else if text == "expired"
    then some expired
    else if text == "cancelled"
    then some cancelled
    else none

abbrev pub update_where : (Invitation → Invitation) → String → List Invitation → List Invitation
update_where f id = map (λ i. if i.id == id then f i else i)

abbrev pub with_status : Status → Invitation → Invitation
with_status s i = record i { status = s }

unfoldable pub set_status : Option Status → String → List Invitation → Option (List Invitation)
set_status none id rows = none
set_status (some s) id rows = some (update_where (with_status s) id rows)

unfoldable pub update_status : String → String → List Invitation → Option (List Invitation)
unfolding set_status
update_status text id rows = set_status (status_of text) id rows

unfoldable pub accept_row : ℕ → String → List Invitation → List Invitation
accept_row now id = update_where (λ i. record i { status = accepted; accepted_at = some now }) id

unfoldable pub delete_invitation : String → List Invitation → List Invitation
delete_invitation id = Array.filter (λ i. not (i.id == id))

abbrev pub is_pending : Status → Bool
is_pending pending = true
is_pending _ = false

-- A pending invitation with its organization's name and slug.
pub record PendingInvitation : Type 0 where
  pub id : String
  pub org_name : String
  pub org_slug : String
  pub role : String
  pub expires_at : ℕ

unfoldable pub with_org : List Organization → List Invitation → List PendingInvitation
with_org orgs [] = []
with_org orgs (i ∷ rows) =
    let rest = with_org orgs rows in
    elim (find_organization i.org_id orgs) [
      | none ↦ rest
      | some o ↦
          record {
            id = i.id;
            org_name = o.name;
            org_slug = o.slug;
            role = i.role;
            expires_at = i.expires_at;
          }
          ∷ rest
    ]

abbrev pub open_to : String → ℕ → Invitation → Bool
open_to email now i = (i.email == email) && (is_pending i.status && ltb now i.expires_at)

unfoldable pub find_pending_by_email :
    String → ℕ → List Organization → List Invitation → List PendingInvitation
unfolding with_org
find_pending_by_email email now orgs rows =
    with_org orgs (newest_first (Array.filter (open_to email now) rows))

-- A membership with its organization's name and slug.
pub record MembershipWithOrg : Type 0 where
  pub org_id : String
  pub org_name : String
  pub org_slug : String
  pub role : String

unfoldable pub find_all_by_user_id :
    String → List Organization → List Membership → List MembershipWithOrg
find_all_by_user_id user orgs [] = []
find_all_by_user_id user orgs (m ∷ rows) =
    let rest = find_all_by_user_id user orgs rows in
    if m.user_id == user
    then elim (find_organization m.org_id orgs) [
      | none ↦ rest
      | some o ↦
          record { org_id = m.org_id; org_name = o.name; org_slug = o.slug; role = m.role } ∷ rest
    ]
    else rest
