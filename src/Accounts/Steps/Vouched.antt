-- ===== src/Accounts/Steps/Vouched.antt =====
-- Every invitation stands for an admin's word.
use chis.Base.{
  String, true, not, some, Bool-cases, List, [], ◌∷◌, ◌≡◌, sym, ◌∙◌, subst, inl, inr, arith, eq_iff,
  ◌==◌, All, All-append, All-map, All-kept, All-imp, All-chosen, ℕ, if◌then◌else◌,
}
use chis.Base.Array
use chis.Access.{Membership, belongs, find_by_user_and_org_id}
use chis.Access.Passing.{admin_route-IsAdmitted}
use chis.Accounts.{Invitation, Tables, Status, accepted}
use chis.Accounts.Queries.{
  insert_membership, insert_invitation, with_status, update_status, accept_row, delete_invitation,
}
use chis.Accounts.Organizations.{delete_organization_rows}
use chis.Accounts.Requests.{Library, Call, serve, serve_all}
use chis.Accounts.Steps.{
  Step, Steps, none_left, and_more, user_added, account_added, org_added, secret_rotated,
  org_deleted, founder_joined, invitee_joined, invited, cleared, withdrawn, closed, marked_accepted,
}
use chis.Accounts.Queries.Rows.{find-append, inserted-rows, update_status-rows}
use chis.Accounts.Steps.Served.{serve-Steps}

-- The one that invited is an admin of the organization.
pub record HasAdmin (members : List Membership) (inv : Invitation) : Type 0 where
  pub member : Membership
  pub belongs_to : find_by_user_and_org_id inv.invited_by inv.org_id members ≡ some member
  pub admin : member.role ≡ "admin"

abbrev pub IsVouched : Tables → Type 0
IsVouched t = All (HasAdmin t.memberships) t.invitations

insert_membership-HasAdmin :
    (m : Membership) (rows after : List Membership) (inv : Invitation)
    → insert_membership m rows ≡ some after
    → HasAdmin rows inv
    → HasAdmin after inv
unfolding insert_membership find_by_user_and_org_id
insert_membership-HasAdmin m rows after inv e h =
    subst (λ xs. HasAdmin xs inv) (sym (inserted-rows (belongs m.user_id m.org_id) m rows after e))
      (record {
        member = h.member;
        belongs_to =
            find-append (belongs inv.invited_by inv.org_id) rows (m ∷ []) h.member h.belongs_to;
        admin = h.admin;
      })

with_status-HasAdmin :
    (members : List Membership) (s : Status) (id : String) (inv : Invitation)
    → HasAdmin members inv
    → HasAdmin members (if inv.id == id then with_status s inv else inv)
with_status-HasAdmin members s id inv h = elim (Bool-cases (inv.id == id)) [
  | inl y ↦ rw y (record { member = h.member; belongs_to = h.belongs_to; admin = h.admin })
  | inr n ↦ rw n h
]

update_status-IsVouched :
    (members : List Membership) (text id : String) (rows after : List Invitation)
    → update_status text id rows ≡ some after
    → All (HasAdmin members) rows
    → All (HasAdmin members) after
update_status-IsVouched members text id rows after e h =
    let (s, r) = update_status-rows text id rows after e in
    subst (All (HasAdmin members)) (sym r)
      (All-map (HasAdmin members) _ rows (with_status-HasAdmin members s id) h)

accept_row-HasAdmin :
    (members : List Membership) (now : ℕ) (id : String) (inv : Invitation)
    → HasAdmin members inv
    → HasAdmin members
        (if inv.id == id then record inv { status = accepted; accepted_at = some now } else inv)
accept_row-HasAdmin members now id inv h = elim (Bool-cases (inv.id == id)) [
  | inl y ↦ rw y (record { member = h.member; belongs_to = h.belongs_to; admin = h.admin })
  | inr n ↦ rw n h
]

others_kept :
    (org : String) (members : List Membership) (inv : Invitation)
    → not (inv.org_id == org) ≡ true
    → HasAdmin members inv
    → HasAdmin (Array.filter (λ m. not (m.org_id == org)) members) inv
unfolding find_by_user_and_org_id
others_kept org members inv n h = record {
  member = h.member;
  belongs_to =
      Array.find-filter (λ m. not (m.org_id == org)) (belongs inv.invited_by inv.org_id) members
        (λ m b.
          let same = (eq_iff m.org_id inv.org_id).0 (ground (arith, b)) in
          subst (λ x. not (x == org) ≡ true) (sym same) n)
      ∙ h.belongs_to;
  admin = h.admin;
}

module _ (lib : Library) (c : Call) where
  step-IsVouched : {t u : Tables} → Step lib c t u → IsVouched t → IsVouched u
  unfolding delete_organization_rows insert_invitation accept_row delete_invitation
  step-IsVouched (user_added fresh req rows r e) h = h
  step-IsVouched (account_added fresh req hashed rows r k e) h = h
  step-IsVouched (org_added o rows e) h = h
  step-IsVouched (secret_rotated user org secret rows a e) h = h
  step-IsVouched {t} (org_deleted user org o a f r) h =
      All-chosen (HasAdmin t.memberships) _ (λ i. not (i.org_id == org)) t.invitations
        (others_kept org t.memberships) h
  step-IsVouched {t} (founder_joined m rows f e) h =
      All-imp t.invitations (λ inv. insert_membership-HasAdmin m t.memberships rows inv e) h
  step-IsVouched {t} (invitee_joined m rows f e) h =
      All-imp t.invitations (λ inv. insert_membership-HasAdmin m t.memberships rows inv e) h
  step-IsVouched {t} (invited inv rows a p e) h =
      let admitted =
        admin_route-IsAdmitted lib.user_of lib.is_id t.memberships c.headers inv.invited_by
          inv.org_id a in
      subst (All (HasAdmin t.memberships)) (sym (inserted-rows _ inv t.invitations rows e)) (
        All-append (HasAdmin t.memberships) t.invitations (inv ∷ []) h (
          record { member = admitted.member; belongs_to = admitted.joined; admin = admitted.admin },
          tt,
        ))
  step-IsVouched {t} (cleared user org inv a f s) h =
      All-kept (HasAdmin t.memberships) _ t.invitations h
  step-IsVouched {t} (withdrawn user org id rows a f e) h =
      update_status-IsVouched t.memberships "cancelled" id t.invitations rows e h
  step-IsVouched {t} (closed user text inv key rows s f p r e) h =
      update_status-IsVouched t.memberships text inv.id t.invitations rows e h
  step-IsVouched {t} (marked_accepted user inv key f m) h =
      All-map (HasAdmin t.memberships) _ t.invitations
        (accept_row-HasAdmin t.memberships c.now inv.id) h

  steps-IsVouched : {t u : Tables} → Steps lib c t u → IsVouched t → IsVouched u
  steps-IsVouched none_left h = h
  steps-IsVouched (and_more s rest) h = steps-IsVouched rest (step-IsVouched s h)

-- If every invitation in the tables was made by an admin of its organization, then that is so after any
-- sequence of requests.
pub serve_all-IsVouched :
    (lib : Library) (cs : List Call) (t : Tables) → IsVouched t → IsVouched (serve_all lib cs t)
unfolding serve_all
serve_all-IsVouched lib [] t h = h
serve_all-IsVouched lib (c ∷ cs) t h =
    serve_all-IsVouched lib cs (serve lib c t) (steps-IsVouched lib c (serve-Steps lib c t) h)
