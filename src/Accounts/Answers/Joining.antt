-- ===== src/Accounts/Answers/Joining.antt =====
-- The changes of the handler that accepts an invitation.
use chis.Base.{
  String, Bool, true, false, Option, none, some, Option-cases, Bool-cases, List, ◌≡◌, refl, eq_refl,
  inl, inr, ltb, arith, eq_iff, ◌==◌,
}
use chis.Base.Array
use chis.Access.{Membership, belongs, passed, find_by_user_and_org_id}
use chis.Accounts.{User, Invitation, Status, pending, accepted, expired, cancelled, Tables, asked}
use chis.Accounts.Queries.{
  insert_membership, find_user, update_status, is_pending, find_by_token, has_token,
}
use chis.Accounts.Invitations.{found}
use chis.Accounts.Answers.{
  set_status_of, membership_for, join, settled, with_membership, accept_for, accept_invitation,
}
use chis.Accounts.Queries.Rows.{asked-some, insert-any}
use chis.Accounts.Requests.{Library, Call, signed_in}
use chis.Accounts.Steps.{
  IsInvited, Steps, none_left, and_more, one, invitee_joined, closed, IsClosing, late, from_member,
  marked_accepted,
}

pub is_pending-pending : (s : Status) → is_pending s ≡ true → s ≡ pending
is_pending-pending pending h = refl
is_pending-pending accepted h = absurd (ground arith)
is_pending-pending expired h = absurd (ground arith)
is_pending-pending cancelled h = absurd (ground arith)

found-some :
    {A : Type 0} (b : Bool) (o : Option A) → found (asked b o) ≡ true → (a : A) × (o ≡ some a)
found-some b none h = absurd (ground arith)
found-some b (some a) h = (a, refl)

module _ (lib : Library) (c : Call) (user : String) where
  member_closes :
      (t : Tables) (inv : Invitation)
      → found (asked (c.up 3) (find_by_user_and_org_id user inv.org_id t.memberships)) ≡ true
      → IsClosing lib c t user inv "accepted"
  unfolding find_by_user_and_org_id
  member_closes t inv e =
      let (m, f) = found-some (c.up 3) (Array.find (belongs user inv.org_id) t.memberships) e in
      from_member (Array.any-find (belongs user inv.org_id) t.memberships m f)

  -- Closing a pending invitation, or not.
  pub closes :
      (t : Tables) (b : Bool) (text : String) (inv : Invitation) (key : Invitation → Bool)
      → signed_in lib c t ≡ passed user
      → Array.find key t.invitations ≡ some inv
      → inv.status ≡ pending
      → IsClosing lib c t user inv text
      → Steps lib c t (set_status_of b text inv.id t)
  closes t b text inv key s f p r =
      elim (Option-cases (asked b (update_status text inv.id t.invitations))) [
        | inl n ↦ rw (set_status_of, n) none_left
        | inr (rows, e) ↦
            rw (set_status_of, e)
              (one lib c (
                closed user text inv key rows s f p r
                  (asked-some b (update_status text inv.id t.invitations) rows e)))
      ]

  invitation_for :
      (t : Tables) (u : User) (inv : Invitation) (key : Invitation → Bool)
      → signed_in lib c t ≡ passed user
      → find_user user t.users ≡ some u
      → u.email ≡ inv.email
      → Array.find key t.invitations ≡ some inv
      → inv.status ≡ pending
      → ltb inv.expires_at c.now ≡ false
      → IsInvited lib c t (membership_for user inv)
  invitation_for t u inv key s k a f p l = record {
    user = u;
    invitation = inv;
    key = key;
    signed = s;
    known = k;
    stored = f;
    awaited = p;
    lasting = l;
    addressed = a;
    to_org = refl;
    as_role = refl;
  }

  settles :
      (t : Tables) (inv : Invitation) (key : Invitation → Bool)
      → Array.find key t.invitations ≡ some inv
      → Array.any (belongs user inv.org_id) t.memberships ≡ true
      → Steps lib c t (settled c.up c.now user inv t).0
  unfolding settled
  settles t inv key f m = elim (Bool-cases (c.up 6)) [
    | inl e ↦ rw e (one lib c (marked_accepted user inv key f m))
    | inr e ↦ rw e none_left
  ]

  has_joined :
      (t : Tables) (inv : Invitation) (rows : List Membership)
      → insert_membership (membership_for user inv) t.memberships ≡ some rows
      → Array.any (belongs user inv.org_id) rows ≡ true
  unfolding insert_membership
  has_joined t inv rows e =
      insert-any (belongs user inv.org_id) (membership_for user inv) t.memberships rows
        (ground (arith, eq_refl user, eq_refl inv.org_id)) e

  joins_new :
      (t : Tables) (inv : Invitation) (key : Invitation → Bool)
      → Array.find key t.invitations ≡ some inv
      → IsInvited lib c t (membership_for user inv)
      → Steps lib c t (with_membership c.up c.now user inv t).0
  unfolding with_membership
  joins_new t inv key f i =
      elim (Option-cases
        (asked (c.up 5) (insert_membership (membership_for user inv) t.memberships))) [
          | inl n ↦ rw (with_membership, n) none_left
          | inr (rows, g) ↦
              let e =
                asked-some (c.up 5) (insert_membership (membership_for user inv) t.memberships) rows
                  g in
              rw (with_membership, g)
                (and_more (invitee_joined (membership_for user inv) rows i e)
                  (settles (record t { memberships = rows }) inv key f (has_joined t inv rows e)))
        ]

  pub joins :
      (t : Tables) (u : User) (inv : Invitation) (key : Invitation → Bool)
      → signed_in lib c t ≡ passed user
      → find_user user t.users ≡ some u
      → u.email ≡ inv.email
      → Array.find key t.invitations ≡ some inv
      → inv.status ≡ pending
      → ltb inv.expires_at c.now ≡ false
      → Steps lib c t (join c.up c.now user inv t).0
  unfolding join
  joins t u inv key s k a f p l =
      elim (Bool-cases
        (found (asked (c.up 3) (find_by_user_and_org_id user inv.org_id t.memberships)))) [
          | inl e ↦ rw e (closes t (c.up 4) "accepted" inv key s f p (member_closes t inv e))
          | inr e ↦ rw e (joins_new t inv key f (invitation_for t u inv key s k a f p l))
        ]

  accepts_for :
      (t : Tables) (inv : Invitation) (key : Invitation → Bool)
      → signed_in lib c t ≡ passed user
      → Array.find key t.invitations ≡ some inv
      → Steps lib c t (accept_for c.up c.now user inv t).0
  unfolding accept_for
  accepts_for t inv key s f = elim (Bool-cases (is_pending inv.status)) [
    | inr n ↦ rw n none_left
    | inl y ↦ elim (Bool-cases (ltb inv.expires_at c.now)) [
      | inl e ↦
          rw (y, e)
            (closes t (c.up 1) "expired" inv key s f (is_pending-pending inv.status y) (late e))
      | inr l ↦ elim (Option-cases (asked (c.up 2) (find_user user t.users))) [
        | inl n ↦ rw (y, l, n) none_left
        | inr (u, g) ↦ elim (Bool-cases (u.email == inv.email)) [
          | inr d ↦ rw (y, l, g, d) none_left
          | inl d ↦
              rw (y, l, g, d)
                (joins t u inv key s (asked-some (c.up 2) (find_user user t.users) u g)
                  ((eq_iff u.email inv.email).0 d) f (is_pending-pending inv.status y) l)
        ]
      ]
    ]
  ]

  pub accept_invitation-steps :
      (t : Tables) (token : Option String)
      → signed_in lib c t ≡ passed user
      → Steps lib c t (accept_invitation c.up c.now user token t).0
  unfolding accept_invitation find_by_token
  accept_invitation-steps t none s = none_left
  accept_invitation-steps t (some token) s =
      elim (Option-cases (asked (c.up 0) (find_by_token token t.invitations))) [
        | inl n ↦ rw (accept_invitation, n) none_left
        | inr (inv, g) ↦
            rw (accept_invitation, g)
              (accepts_for t inv (has_token token) s
                (asked-some (c.up 0) (find_by_token token t.invitations) inv g))
      ]
