-- ===== src/Accounts/Auth/Founding.antt =====
-- The changes of the registration of a user.
use chis.Base.{
  String, Bool, true, false, Option, none, some, Option-cases, List, ◌≡◌, refl, inl, inr,
}
use chis.Accounts.{Tables, Outcome}
use chis.Accounts.Queries.{insert_user, insert_account, insert_organization, insert_membership}
use chis.Accounts.Organizations.{admin_of}
use chis.Accounts.Auth.{
  Fresh, RegisterRequest, new_user, new_account, inserted, workspace, join_workspace,
  open_workspace, sign_up, register_body, register,
}
use chis.Accounts.Requests.{Library, Call, registering}
use chis.Accounts.Steps.{
  by_registering, Steps, none_left, and_more, one, user_added, account_added, org_added,
  founder_joined,
}

module _ (lib : Library) (c : Call) where
  inserted-steps :
      {A B : Type 0} (b : Bool) (o : Option (List A)) (t : Tables) (next : List A → Outcome B)
      → ((rows : List A) → o ≡ some rows → Steps lib c t (next rows).0)
      → Steps lib c t (inserted b o t next).0
  inserted-steps b none t next h = none_left
  inserted-steps true (some rows) t next h = h rows refl
  inserted-steps false (some rows) t next h = none_left

  module _ (fresh : Fresh) (req : RegisterRequest)
      (asked_for : c.request ≡ registering fresh (some req)) where
    joins :
        (t : Tables) → Steps lib c t (join_workspace c.up lib.hash_of lib.to_lower fresh req t).0
    unfolding join_workspace
    joins t =
        inserted-steps (c.up 3) (insert_membership (admin_of fresh.user fresh.org) t.memberships) t
          _
          (λ rows e. one lib c (
            founder_joined (admin_of fresh.user fresh.org) rows
              (by_registering fresh (some req) asked_for) e))

    opens :
        (t : Tables) → Steps lib c t (open_workspace c.up lib.hash_of lib.to_lower fresh req t).0
    unfolding open_workspace
    opens t = elim (Option-cases fresh.secret) [
      | inl n ↦ rw (open_workspace, n) none_left
      | inr (secret, e) ↦
          rw (open_workspace, e)
            (inserted-steps (c.up 2)
              (insert_organization (workspace c.up lib.hash_of lib.to_lower fresh req secret)
                t.organizations)
              t _
              (λ rows i.
                and_more
                  (org_added (workspace c.up lib.hash_of lib.to_lower fresh req secret) rows i)
                  (joins (record t { organizations = rows }))))
    ]

    signs_up :
        (hashed : String) (t : Tables)
        → lib.hash_of req.password ≡ some hashed
        → Steps lib c t (sign_up c.up lib.hash_of lib.to_lower fresh req hashed t).0
    unfolding sign_up
    signs_up hashed t h =
        inserted-steps (c.up 0) (insert_user (new_user fresh req) t.users) t _ (λ users i.
          let t1 = record t { users = users } in
          and_more (user_added fresh req users asked_for i) (
            inserted-steps (c.up 1) (insert_account (new_account fresh req hashed) t1.accounts) t1 _
              (λ accounts j.
                and_more (account_added fresh req hashed accounts asked_for h j)
                  (opens (record t1 { accounts = accounts })))))

    registers :
        (t : Tables) → Steps lib c t (register_body c.up lib.hash_of lib.to_lower fresh req t).0
    unfolding register_body
    registers t = elim (Option-cases (lib.hash_of req.password)) [
      | inl n ↦ rw (register_body, n) none_left
      | inr (hashed, e) ↦ rw (register_body, e) (signs_up hashed t e)
    ]

  pub register-steps :
      (fresh : Fresh) (body : Option RegisterRequest)
      → c.request ≡ registering fresh body
      → (t : Tables) → Steps lib c t (register c.up lib.hash_of lib.to_lower fresh body t).0
  unfolding register
  register-steps fresh none a t = none_left
  register-steps fresh (some req) a t = registers fresh req a t
