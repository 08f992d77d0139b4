-- ===== src/Accounts/Organizations/Changing.antt =====
-- The changes of the handlers of organizations.
use chis.Base.{
  ap, ◌∙◌, eq_iff, String, Option, none, some, Option-cases, Bool-cases, ◌≡◌, refl, inl, inr, ◌==◌,
}
use chis.Access.{passed}
use chis.Accounts.{Tables, Organization, asked}
use chis.Accounts.Queries.{insert_organization, insert_membership, find_organization}
use chis.Accounts.Organizations.{
  admin_of, new_organization, joined_by, created_org, named, create_org, delete_named, delete_org,
  rotate_secret, rotated, rotate_signing_secret,
}
use chis.Accounts.Queries.Rows.{asked-some}
use chis.Accounts.Requests.{Library, Call, creating_org, deleting_org, signed_in, as_admin}
use chis.Accounts.Steps.{
  by_creating, Steps, none_left, and_more, one, org_added, founder_joined, org_deleted,
  secret_rotated,
}

module _ (lib : Library) (c : Call) (user : String) where
  module _ (id : String) (secret name : Option String)
      (asked_for : c.request ≡ creating_org id secret name) where
    joins :
        (o : Organization) (t : Tables)
        → o.id ≡ id
        → signed_in lib c t ≡ passed user
        → Steps lib c t (joined_by c.up lib.to_lower user o t).0
    unfolding joined_by
    joins o t i s =
        elim (Option-cases
          (asked (c.up 1) (insert_membership (admin_of user o.id) t.memberships))) [
            | inl n ↦ rw (joined_by, n) none_left
            | inr (rows, e) ↦
                rw (joined_by, e)
                  (one lib c (
                    founder_joined (admin_of user o.id) rows
                      (rw i (by_creating user id secret name asked_for s))
                      (asked-some (c.up 1) (insert_membership (admin_of user o.id) t.memberships)
                        rows e)))
          ]

    creates :
        (o : Organization) (t : Tables)
        → o.id ≡ id
        → signed_in lib c t ≡ passed user
        → Steps lib c t (created_org c.up lib.to_lower user o t).0
    unfolding created_org
    creates o t i s = elim (Option-cases (asked (c.up 0) (insert_organization o t.organizations))) [
      | inl n ↦ rw (created_org, n) none_left
      | inr (rows, e) ↦
          rw (created_org, e)
            (and_more
              (org_added o rows
                (asked-some (c.up 0) (insert_organization o t.organizations) rows e))
              (joins o (record t { organizations = rows }) i s))
    ]

    names :
        (given : Option String) (text : String) (t : Tables)
        → signed_in lib c t ≡ passed user
        → Steps lib c t (named c.up lib.to_lower user id given text t).0
    unfolding named
    names none text t s = none_left
    names (some x) text t s = creates (new_organization lib.to_lower id text x) t refl s

  pub create_org-steps :
      (id : String) (secret name : Option String) (t : Tables)
      → c.request ≡ creating_org id secret name
      → signed_in lib c t ≡ passed user
      → Steps lib c t (create_org c.up lib.to_lower user id secret name t).0
  unfolding create_org
  create_org-steps id secret none t a s = none_left
  create_org-steps id secret (some text) t a s = names id secret (some text) a secret text t s

  module _ (org : String) where
    deletes :
        (name : String) (t : Tables)
        → c.request ≡ deleting_org (some name)
        → as_admin lib c t ≡ passed (user, org)
        → Steps lib c t (delete_named c.up org name t).0
    unfolding delete_named
    deletes name t r a =
        elim (Option-cases (asked (c.up 0) (find_organization org t.organizations))) [
          | inl n ↦ rw (delete_named, n) none_left
          | inr (o, e) ↦ elim (Bool-cases (name == o.name)) [
            | inr d ↦ rw (delete_named, e, d) none_left
            | inl d ↦ elim (Bool-cases (c.up 1)) [
              | inr n ↦ rw (delete_named, e, d, n) none_left
              | inl y ↦
                  rw (delete_named, e, d, y)
                    (one lib c (
                      org_deleted user org o a
                        (asked-some (c.up 0) (find_organization org t.organizations) o e)
                        (r ∙ ap (λ x. deleting_org (some x)) ((eq_iff name o.name).0 d))))
            ]
          ]
        ]

    pub delete_org-steps :
        (name : Option String) (t : Tables)
        → c.request ≡ deleting_org name
        → as_admin lib c t ≡ passed (user, org)
        → Steps lib c t (delete_org c.up org name t).0
    unfolding delete_org
    delete_org-steps none t r a = none_left
    delete_org-steps (some name) t r a = deletes name t r a

    rotates :
        (secret : String) (t : Tables)
        → as_admin lib c t ≡ passed (user, org)
        → Steps lib c t (rotated c.up org secret t).0
    unfolding rotated
    rotates secret t a =
        elim (Option-cases (asked (c.up 0) (rotate_secret org secret t.organizations))) [
          | inl n ↦ rw (rotated, n) none_left
          | inr (rows, e) ↦
              rw (rotated, e)
                (one lib c (
                  secret_rotated user org secret rows a
                    (asked-some (c.up 0) (rotate_secret org secret t.organizations) rows e)))
        ]

    pub rotate_signing_secret-steps :
        (secret : Option String) (t : Tables)
        → as_admin lib c t ≡ passed (user, org)
        → Steps lib c t (rotate_signing_secret c.up org secret t).0
    unfolding rotate_signing_secret
    rotate_signing_secret-steps none t a = none_left
    rotate_signing_secret-steps (some secret) t a = rotates secret t a
