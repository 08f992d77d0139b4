-- ===== src/Accounts/Answers/Listed.antt =====
-- The invitations that a user is shown, and the answer to each.
use chis.Base.{
  ℕ, String, Bool, true, false, some, Option-cases, List, [], ◌∷◌, ◌≡◌, refl, sym, inl, inr, ltb,
  if◌then◌else◌, arith, eq_refl, eq_iff, All, All-append, All-both, All-chosen,
}
use chis.Base.Array
use chis.Accounts.{User, Invitation, Tables, Organization, ok}
use chis.Accounts.Queries.{
  find_user, find_invitation, has_id, is_pending, open_to, newest_first, with_org,
  find_organization, PendingInvitation, find_pending_by_email,
}
use chis.Accounts.Queries.Alike.{AllDistinct}
use chis.Accounts.Queries.Rows.{eq_comm}
use chis.Accounts.Answers.{
  accept, respond_to_invitation, respond_to, responded, respond_for, get_pending_invitations,
}
use chis.Accounts.Answers.Entered.{is_inside, conflict, welcome, join-answer}

abbrev pub same_id : Invitation → Invitation → Bool
same_id i j = has_id i.id j

-- In a table whose ids are distinct, every row is found by its id.
abbrev pub IsFound : List Invitation → Invitation → Type 0
IsFound rows i = find_invitation i.id rows ≡ some i

later-IsFound :
    (x : Invitation) (rows ys : List Invitation)
    → Array.any (same_id x) ys ≡ false
    → All (IsFound rows) ys
    → All (IsFound (x ∷ rows)) ys
unfolding find_invitation
later-IsFound x rows [] n h = tt
later-IsFound x rows (i ∷ ys) n h =
    (ground (arith, n, h.0, eq_comm x.id i.id), later-IsFound x rows ys (ground (arith, n)) h.1)

all-IsFound : (rows : List Invitation) → AllDistinct same_id rows → All (IsFound rows) rows
unfolding find_invitation
all-IsFound [] h = tt
all-IsFound (x ∷ rows) h =
    (rw (eq_refl x.id) refl, later-IsFound x rows rows h.0 (all-IsFound rows h.1))

newest_first-All :
    (P : Invitation → Type 0) (rows : List Invitation) → All P rows → All P (newest_first rows)
newest_first-All P [] h = tt
newest_first-All P (x ∷ rows) h =
    All-append P (newest_first rows) (x ∷ []) (newest_first-All P rows h.1) (h.0, tt)

module _ (now : ℕ) (u : User) (is_id : String → Bool) (t : Tables) where
  -- It shows a row of the table and its organization, and to accept it is to become a member of that,
  -- or, for a member, to be refused as one.
  pub record IsJoinable (p : PendingInvitation) : Type 0 where
    pub invitation : Invitation
    pub org : Organization
    pub stored : find_invitation p.id t.invitations ≡ some invitation
    pub its : find_organization invitation.org_id t.organizations ≡ some org
    pub shown : p ≡ record {
      id = invitation.id;
      org_name = org.name;
      org_slug = org.slug;
      role = invitation.role;
      expires_at = invitation.expires_at;
    }
    pub answer : respond_to_invitation (λ n. true) now u.id is_id p.id (some accept) t ≡ (
        if is_inside now u.id invitation org t
        then conflict now u.id invitation org t
        else welcome now u.id invitation org t)

  abbrev IsOpen : Invitation → Type 0
  IsOpen i = (IsFound t.invitations i × (is_id i.id ≡ true)) × (open_to u.email now i ≡ true)

  joinable :
      (i : Invitation) (o : Organization)
      → find_user u.id t.users ≡ some u
      → find_organization i.org_id t.organizations ≡ some o
      → IsOpen i
      → IsJoinable (record {
        id = i.id;
        org_name = o.name;
        org_slug = o.slug;
        role = i.role;
        expires_at = i.expires_at;
      })
  unfolding respond_to_invitation respond_to responded respond_for
  joinable i o k f h =
      let e = (eq_iff i.email u.email).0 (ground (arith, h.1)) in
      let p : is_pending i.status ≡ true = ground (arith, h.1) in
      let l : ltb i.expires_at now ≡ false = ground (arith, h.1) in
      record {
        invitation = i;
        org = o;
        stored = h.0.0;
        its = f;
        shown = refl;
        answer =
            rw (h.0.1, respond_to, k, responded, h.0.0, respond_for, sym e, eq_refl i.email, p, l)
              (join-answer now u.id i o t f);
      }

  listed :
      (rows : List Invitation)
      → find_user u.id t.users ≡ some u
      → All IsOpen rows
      → All IsJoinable (with_org t.organizations rows)
  unfolding with_org
  listed [] k h = tt
  listed (i ∷ rows) k h = elim (Option-cases (find_organization i.org_id t.organizations)) [
    | inl n ↦ rw (with_org, n) (listed rows k h.1)
    | inr (o, f) ↦ rw (with_org, f) (joinable i o k f h.0, listed rows k h.1)
  ]

  -- With every statement answered, and where the ids of the invitations are distinct and uuid.Parse
  -- accepts them, a user of the table is shown pending invitations, each with its id, role and expiry
  -- and the name and slug of its organization. To accept one of them at once makes a user who is no
  -- member of the organization a member with the role that is shown, marks the invitation as accepted
  -- now, and is answered with that organization and role; for a user who is a member it only marks the
  -- invitation as accepted, and is refused as a conflict. No other refusal is given.
  pub get_pending_invitations-IsJoinable :
      find_user u.id t.users ≡ some u
      → AllDistinct same_id t.invitations
      → All (λ i. is_id i.id ≡ true) t.invitations
      → (get_pending_invitations (λ n. true) now u.id t
          ≡ ok (find_pending_by_email u.email now t.organizations t.invitations))
        × All IsJoinable (find_pending_by_email u.email now t.organizations t.invitations)
  unfolding get_pending_invitations find_pending_by_email
  get_pending_invitations-IsJoinable k d v = (
    rw (get_pending_invitations, k) refl,
    listed _ k (
        newest_first-All IsOpen (Array.filter (open_to u.email now) t.invitations) (
          All-chosen (λ i. IsFound t.invitations i × (is_id i.id ≡ true)) IsOpen
            (open_to u.email now) t.invitations (λ i y h. (h, y))
            (All-both (IsFound t.invitations) (λ i. is_id i.id ≡ true) t.invitations
              (all-IsFound t.invitations d) v))),
  )
