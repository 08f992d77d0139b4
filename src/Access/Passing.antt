-- ===== src/Access/Passing.antt =====
-- Who passes the guards.
use mathlib.Core.List.{List}
use chis.Base.{
  String, Bool, ◌≡◌, refl, subst, ap, ◌∙◌, Bool-cases, inl, inr, Option, some, Option-cases, ◌==◌,
  arith, eq_iff, truthy,
}
use chis.Access.{
  header, token_of, Membership, find_by_user_and_org_id, Guarded, passed, answered, and_then,
  validate_token, validate_org_access, require_admin, org_route, admin_route, checked,
}

module _ (user_of : String → Option String) (is_id : String → Bool)
    (members : List Membership) where
  -- A user and an organization, with the request's proofs of both, and the membership.
  pub record IsAdmitted (hs : List (String × String)) (user org : String) : Type 0 where
    pub token : String
    pub member : Membership
    pub sent : token_of (header "Authorization" hs) ≡ some token
    pub valid : user_of token ≡ some user
    pub named : header "X-Org-ID" hs ≡ org
    pub joined : find_by_user_and_org_id user org members ≡ some member
    pub admin : member.role ≡ "admin"

  passed_both :
      {A B : Type 0} (g : Guarded A) (f : A → Guarded B) (b : B)
      → and_then g f ≡ passed b
      → (a : A) × (g ≡ passed a) × (f a ≡ passed b)
  passed_both (passed a) f b h = (a, refl, h)
  passed_both (answered status m) f b h = absurd (ground arith)

  validate_token-passed :
      (hs : List (String × String)) (user : String)
      → validate_token user_of is_id members hs ≡ passed user
      → (token : String) × (token_of (header "Authorization" hs) ≡ some token)
        × (user_of token ≡ some user)
  unfolding validate_token checked
  validate_token-passed hs user h = elim (Option-cases (token_of (header "Authorization" hs))) [
    | inl n ↦ absurd (ground arith)
    | inr (token, s) ↦ elim (Option-cases (user_of token)) [
      | inl n ↦ absurd (ground arith)
      | inr (u, x) ↦ (token, s, ground arith)
    ]
  ]

  validate_org_access-passed :
      (hs : List (String × String)) (user : String) (p : String × String)
      → validate_org_access user_of is_id members hs user ≡ passed p
      → (user, header "X-Org-ID" hs) ≡ p
  unfolding validate_org_access
  validate_org_access-passed hs user p h = elim (Bool-cases (truthy (header "X-Org-ID" hs))) [
    | inr e ↦ absurd (ground arith)
    | inl e ↦ elim (Bool-cases (is_id (header "X-Org-ID" hs))) [
      | inr i ↦ absurd (ground arith)
      | inl i ↦ elim (Option-cases (find_by_user_and_org_id user (header "X-Org-ID" hs) members)) [
        | inl n ↦ absurd (ground arith)
        | inr (m, f) ↦ ground arith
      ]
    ]
  ]

  require_admin-passed :
      (user org : String) (p : String × String)
      → require_admin user_of is_id members (user, org) ≡ passed p
      → (m : Membership) × (find_by_user_and_org_id user org members ≡ some m)
        × (m.role ≡ "admin")
        × ((user, org) ≡ p)
  unfolding require_admin
  require_admin-passed user org p h =
      elim (Option-cases (find_by_user_and_org_id user org members)) [
        | inl n ↦ absurd (ground arith)
        | inr (m, f) ↦ elim (Bool-cases (m.role == "admin")) [
          | inl e ↦ (m, f, (eq_iff m.role "admin").0 e, ground arith)
          | inr e ↦ absurd (ground arith)
        ]
      ]

  -- A request reaches a route of the admins only with a valid token of a user that is an admin of the
  -- organization that the request names, and it is taken as that user's in that organization.
  pub admin_route-IsAdmitted :
      (hs : List (String × String)) (user org : String)
      → admin_route user_of is_id members hs ≡ passed (user, org)
      → IsAdmitted hs user org
  unfolding admin_route org_route
  admin_route-IsAdmitted hs user org h =
      let (p, o, a) =
        passed_both (org_route user_of is_id members hs) (require_admin user_of is_id members)
          (user, org) h in
      let (u, t, g) =
        passed_both (validate_token user_of is_id members hs)
          (validate_org_access user_of is_id members hs) p o in
      let (token, s, x) = validate_token-passed hs u t in
      let same = validate_org_access-passed hs u p g in
      let (m, f, r, q) = require_admin-passed p.0 p.1 (user, org) a in
      let to_user = ap (λ z. z.0) (same ∙ q) in
      record {
        token = token;
        member = m;
        sent = s;
        valid = x ∙ ap some to_user;
        named = ap (λ z. z.1) (same ∙ q);
        joined = subst (λ z. find_by_user_and_org_id z.0 z.1 members ≡ some m) q f;
        admin = r;
      }
