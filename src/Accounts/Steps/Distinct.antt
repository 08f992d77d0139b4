-- ===== src/Accounts/Steps/Distinct.antt =====
-- No two rows of a table are alike in what is UNIQUE.
use chis.Base.{
  String, Bool, true, false, some, List, [], ◌∷◌, ◌≡◌, refl, sym, subst, arith, ◌==◌, if◌then◌else◌,
}
use chis.Access.{Membership, belongs}
use chis.Accounts.{Invitation, Tables}
use chis.Accounts.Queries.{
  insert_membership, insert_invitation, invites, update_where, with_status, update_status,
  accept_row, delete_invitation,
}
use chis.Accounts.Organizations.{delete_organization_rows}
use chis.Accounts.Requests.{Library, Call, serve, serve_all}
use chis.Accounts.Steps.{
  Step, Steps, none_left, and_more, user_added, account_added, org_added, secret_rotated,
  org_deleted, founder_joined, invitee_joined, invited, cleared, withdrawn, closed, marked_accepted,
}
use chis.Accounts.Steps.Served.{serve-Steps}
use chis.Accounts.Queries.Rows.{update_status-rows, eq_comm}
use chis.Accounts.Queries.Alike.{
  AllDistinct, insert_unless-AllDistinct, filter-AllDistinct, map-AllDistinct,
}

-- UNIQUE(user_id, org_id), and UNIQUE(org_id, email)
abbrev pub same_member : Membership → Membership → Bool
same_member m n = belongs m.user_id m.org_id n

abbrev pub same_invitee : Invitation → Invitation → Bool
same_invitee i j = invites i.org_id i.email j

pub record IsDistinct (t : Tables) : Type 0 where
  pub members : AllDistinct same_member t.memberships
  pub invitations : AllDistinct same_invitee t.invitations

joined-AllDistinct :
    (m : Membership) (rows after : List Membership)
    → insert_membership m rows ≡ some after
    → AllDistinct same_member rows
    → AllDistinct same_member after
unfolding insert_membership
joined-AllDistinct m rows after e h =
    insert_unless-AllDistinct same_member (belongs m.user_id m.org_id) m rows after (λ x n. n)
      (λ x n. ground (arith, eq_comm m.user_id x.user_id, eq_comm m.org_id x.org_id, n)) e h

invited-AllDistinct :
    (inv : Invitation) (rows after : List Invitation)
    → insert_invitation inv rows ≡ some after
    → AllDistinct same_invitee rows
    → AllDistinct same_invitee after
unfolding insert_invitation
invited-AllDistinct inv rows after e h =
    insert_unless-AllDistinct same_invitee _ inv rows after (λ x n. ground (arith, n))
      (λ x n. ground (arith, eq_comm inv.org_id x.org_id, eq_comm inv.email x.email, n)) e h

kept :
    (b : Bool) (f : Invitation → Invitation) (i : Invitation)
    → ((j : Invitation) → (f j).org_id ≡ j.org_id)
    → (if b then f i else i).org_id ≡ i.org_id
kept true f i o = o i
kept false f i o = refl

kept_email :
    (b : Bool) (f : Invitation → Invitation) (i : Invitation)
    → ((j : Invitation) → (f j).email ≡ j.email)
    → (if b then f i else i).email ≡ i.email
kept_email true f i o = o i
kept_email false f i o = refl

-- A change of the rows with an id that keeps the organization and the e-mail.
changed-AllDistinct :
    (f : Invitation → Invitation) (id : String) (rows : List Invitation)
    → ((i : Invitation) → (f i).org_id ≡ i.org_id)
    → ((i : Invitation) → (f i).email ≡ i.email)
    → AllDistinct same_invitee rows
    → AllDistinct same_invitee (update_where f id rows)
changed-AllDistinct f id rows o e h =
    map-AllDistinct same_invitee _
      (λ x y.
        rw
          (
            kept (y.id == id) f y o,
            kept (x.id == id) f x o,
            kept_email (y.id == id) f y e,
            kept_email (x.id == id) f x e,
          )
          refl)
      rows h

status-AllDistinct :
    (text id : String) (rows after : List Invitation)
    → update_status text id rows ≡ some after
    → AllDistinct same_invitee rows
    → AllDistinct same_invitee after
status-AllDistinct text id rows after e h =
    let (s, r) = update_status-rows text id rows after e in
    subst (AllDistinct same_invitee) (sym r)
      (changed-AllDistinct (with_status s) id rows (λ i. refl) (λ i. refl) h)

module _ (lib : Library) (c : Call) where
  step-IsDistinct : {t u : Tables} → Step lib c t u → IsDistinct t → IsDistinct u
  unfolding delete_organization_rows accept_row delete_invitation
  step-IsDistinct (user_added fresh req rows r e) h = record {
    members = h.members;
    invitations = h.invitations;
  }
  step-IsDistinct (account_added fresh req hashed rows r k e) h = record {
    members = h.members;
    invitations = h.invitations;
  }
  step-IsDistinct (org_added o rows e) h = record {
    members = h.members;
    invitations = h.invitations;
  }
  step-IsDistinct (secret_rotated user org secret rows a e) h = record {
    members = h.members;
    invitations = h.invitations;
  }
  step-IsDistinct {t} (org_deleted user org o a f r) h = record {
    members = filter-AllDistinct same_member _ t.memberships h.members;
    invitations = filter-AllDistinct same_invitee _ t.invitations h.invitations;
  }
  step-IsDistinct {t} (founder_joined m rows f e) h = record {
    members = joined-AllDistinct m t.memberships rows e h.members;
    invitations = h.invitations;
  }
  step-IsDistinct {t} (invitee_joined m rows f e) h = record {
    members = joined-AllDistinct m t.memberships rows e h.members;
    invitations = h.invitations;
  }
  step-IsDistinct {t} (invited inv rows a p e) h = record {
    members = h.members;
    invitations = invited-AllDistinct inv t.invitations rows e h.invitations;
  }
  step-IsDistinct {t} (cleared user org inv a f s) h = record {
    members = h.members;
    invitations = filter-AllDistinct same_invitee _ t.invitations h.invitations;
  }
  step-IsDistinct {t} (withdrawn user org id rows a f e) h = record {
    members = h.members;
    invitations = status-AllDistinct "cancelled" id t.invitations rows e h.invitations;
  }
  step-IsDistinct {t} (closed user text inv key rows s f p r e) h = record {
    members = h.members;
    invitations = status-AllDistinct text inv.id t.invitations rows e h.invitations;
  }
  step-IsDistinct {t} (marked_accepted user inv key f m) h = record {
    members = h.members;
    invitations = changed-AllDistinct _ inv.id t.invitations (λ i. refl) (λ i. refl) h.invitations;
  }

  steps-IsDistinct : {t u : Tables} → Steps lib c t u → IsDistinct t → IsDistinct u
  steps-IsDistinct none_left h = h
  steps-IsDistinct (and_more s rest) h = steps-IsDistinct rest (step-IsDistinct s h)

-- If no user has two memberships of an organization, and no e-mail two invitations to one, then that is
-- so after any sequence of requests.
pub serve_all-IsDistinct :
    (lib : Library) (cs : List Call) (t : Tables) → IsDistinct t → IsDistinct (serve_all lib cs t)
unfolding serve_all
serve_all-IsDistinct lib [] t h = h
serve_all-IsDistinct lib (c ∷ cs) t h =
    serve_all-IsDistinct lib cs (serve lib c t) (steps-IsDistinct lib c (serve-Steps lib c t) h)
