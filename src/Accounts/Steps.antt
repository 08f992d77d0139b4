-- ===== src/Accounts/Steps.antt =====
-- The changes that a request may make, each with what justifies it. Every change is one statement's.
pub mod Served
pub mod Vouched
pub mod Distinct
use chis.Base.{ℕ, String, Bool, true, false, Option, some, List, ◌≡◌, ◌⊎◌, ltb}
use chis.Base.Array
use chis.Access.{Membership, belongs, passed}
use chis.Accounts.{User, Account, Organization, Invitation, pending, expired, cancelled, Tables}
use chis.Accounts.Queries.{
  insert_user, insert_account, insert_organization, insert_membership, insert_invitation, find_user,
  find_organization, find_by_org_and_email, find_by_org_id, has_id, update_status, accept_row,
  delete_invitation,
}
use chis.Accounts.Auth.{Fresh, RegisterRequest, new_user, new_account}
use chis.Accounts.Organizations.{admin_of, delete_organization_rows, rotate_secret}
use chis.Accounts.Requests.{
  Library, Call, Request, registering, creating_org, deleting_org, signed_in, as_admin,
}

module _ (lib : Library) (c : Call) where
  -- Who gets the role of an admin without an invitation: a new user in its workspace, and the signed-in
  -- user in the organization that it creates.
  pub data IsFounder (t : Tables) : Membership → Type 0 where
    by_registering :
        (fresh : Fresh) (body : Option RegisterRequest)
        → c.request ≡ registering fresh body
        → IsFounder t (admin_of fresh.user fresh.org)
    by_creating :
        (user id : String) (secret name : Option String)
        → c.request ≡ creating_org id secret name
        → signed_in lib c t ≡ passed user
        → IsFounder t (admin_of user id)

  -- A membership of the signed-in user, as an invitation offers it that is pending, has not expired, and
  -- is to that user's e-mail.
  pub record IsInvited (t : Tables) (m : Membership) : Type 0 where
    pub user : User
    pub invitation : Invitation
    pub key : Invitation → Bool
    pub signed : signed_in lib c t ≡ passed m.user_id
    pub known : find_user m.user_id t.users ≡ some user
    pub stored : Array.find key t.invitations ≡ some invitation
    pub awaited : invitation.status ≡ pending
    pub lasting : ltb invitation.expires_at c.now ≡ false
    pub addressed : user.email ≡ invitation.email
    pub to_org : invitation.org_id ≡ m.org_id
    pub as_role : invitation.role ≡ m.role

  -- Why an answer closes a pending invitation, and with which status: it comes too late, or from a
  -- member.
  pub data IsClosing (t : Tables) (user : String) (inv : Invitation) : String → Type 0 where
    late : ltb inv.expires_at c.now ≡ true → IsClosing t user inv "expired"
    from_member :
        Array.any (belongs user inv.org_id) t.memberships ≡ true → IsClosing t user inv "accepted"

  pub data Step (t : Tables) : Tables → Type 0 where
    user_added :
        (fresh : Fresh) (req : RegisterRequest) (rows : List User)
        → c.request ≡ registering fresh (some req)
        → insert_user (new_user fresh req) t.users ≡ some rows
        → Step t (record t { users = rows })
    account_added :
        (fresh : Fresh) (req : RegisterRequest) (hashed : String) (rows : List Account)
        → c.request ≡ registering fresh (some req)
        → lib.hash_of req.password ≡ some hashed
        → insert_account (new_account fresh req hashed) t.accounts ≡ some rows
        → Step t (record t { accounts = rows })
    org_added :
        (o : Organization) (rows : List Organization)
        → insert_organization o t.organizations ≡ some rows
        → Step t (record t { organizations = rows })
    secret_rotated :
        (user org secret : String) (rows : List Organization)
        → as_admin lib c t ≡ passed (user, org)
        → rotate_secret org secret t.organizations ≡ some rows
        → Step t (record t { organizations = rows })
    org_deleted :
        (user org : String) (o : Organization)
        → as_admin lib c t ≡ passed (user, org)
        → find_organization org t.organizations ≡ some o
        → c.request ≡ deleting_org (some o.name)
        → Step t (delete_organization_rows org t)
    founder_joined :
        (m : Membership) (rows : List Membership)
        → IsFounder t m
        → insert_membership m t.memberships ≡ some rows
        → Step t (record t { memberships = rows })
    invitee_joined :
        (m : Membership) (rows : List Membership)
        → IsInvited t m
        → insert_membership m t.memberships ≡ some rows
        → Step t (record t { memberships = rows })
    invited :
        (inv : Invitation) (rows : List Invitation)
        → as_admin lib c t ≡ passed (inv.invited_by, inv.org_id)
        → inv.status ≡ pending
        → insert_invitation inv t.invitations ≡ some rows
        → Step t (record t { invitations = rows })
    cleared :
        (user org : String) (inv : Invitation)
        → as_admin lib c t ≡ passed (user, org)
        → find_by_org_and_email org inv.email t.invitations ≡ some inv
        → (inv.status ≡ expired) ⊎ (inv.status ≡ cancelled)
        → Step t (record t { invitations = delete_invitation inv.id t.invitations })
    withdrawn :
        (user org id : String) (rows : List Invitation)
        → as_admin lib c t ≡ passed (user, org)
        → Array.any (has_id id) (find_by_org_id org t.invitations) ≡ true
        → update_status "cancelled" id t.invitations ≡ some rows
        → Step t (record t { invitations = rows })
    closed :
        (user text : String) (inv : Invitation) (key : Invitation → Bool) (rows : List Invitation)
        → signed_in lib c t ≡ passed user
        → Array.find key t.invitations ≡ some inv
        → inv.status ≡ pending
        → IsClosing t user inv text
        → update_status text inv.id t.invitations ≡ some rows
        → Step t (record t { invitations = rows })
    marked_accepted :
        (user : String) (inv : Invitation) (key : Invitation → Bool)
        → Array.find key t.invitations ≡ some inv
        → Array.any (belongs user inv.org_id) t.memberships ≡ true
        → Step t (record t { invitations = accept_row c.now inv.id t.invitations })

  -- Changes, one after the other.
  pub data Steps : Tables → Tables → Type 0 where
    none_left : {t : Tables} → Steps t t
    and_more : {t u v : Tables} → Step t u → Steps u v → Steps t v

  abbrev pub one : {t u : Tables} → Step t u → Steps t u
  one s = and_more s none_left
