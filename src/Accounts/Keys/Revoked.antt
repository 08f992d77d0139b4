-- ===== src/Accounts/Keys/Revoked.antt =====
-- A key from its creation to its deletion.
use chis.Base.{
  String, Bool, true, false, not, Option, some, Bool-cases, List, [], ◌∷◌, ◌++◌, map, ◌≡◌, refl,
  inl, inr, arith, eq_refl, eq_iff, truthy, ◌∙◌, ap, sym, if◌then◌else◌,
}
use chis.Base.Array
use mathlib.Core.Option
use text.Mathlib.TextLemmas.{cons-append, cons≢nil}
use Prim.Native.Char.{Char}
use chis.Access.{passed, Membership, org_route}
use chis.Delivery.{World}
use chis.Delivery.Intake.{
  Incoming, unauthorized, find_by_hashed_key, expired, send, with_key, receive,
}
use chis.Accounts.{ok}
use chis.Accounts.Queries.Rows.{find-new, any-end}
use chis.Accounts.Keys.{
  KeyRow, api_key_of, CreateApiKeyRequest, full_key, same_hash, has_key_id, insert_key, new_key,
  created_key, store_key, key_for, create_key, delete_row, delete_key, delete_route,
}

abbrev letter_c : Char
letter_c = "c"

find-api_key_of :
    (h : String) (ks : List KeyRow)
    → find_by_hashed_key h (map api_key_of ks) ≡ Option.map api_key_of (Array.find (same_hash h) ks)
unfolding find_by_hashed_key
find-api_key_of h [] = refl
find-api_key_of h (x ∷ ks) = elim (Bool-cases (same_hash h x)) [
  | inl y ↦ rw y refl
  | inr n ↦ rw n (find-api_key_of h ks)
]

key-truthy : (random : String) → truthy (full_key random) ≡ true
key-truthy random = elim (Bool-cases (truthy (full_key random))) [
  | inl e ↦ e
  | inr e ↦ absurd (
      cons≢nil (
        sym (cons-append letter_c "his_sk_" random)
        ∙ (eq_iff (full_key random) "").0 (ground arith)))
]

filter-new :
    (id : String) (rows : List KeyRow) (k : KeyRow)
    → k.id ≡ id
    → Array.any (has_key_id id) rows ≡ false
    → Array.filter (λ x. not (has_key_id id x)) (rows ++ k ∷ []) ≡ rows
filter-new id [] k e n = ground (arith, e, eq_refl id)
filter-new id (x ∷ rows) k e n = ground (arith, filter-new id rows k e)

-- A key's row goes with its id, and no other row goes.
delete_row-new :
    (id : String) (rows : List KeyRow) (k : KeyRow)
    → k.id ≡ id
    → Array.any (has_key_id id) rows ≡ false
    → delete_row id (rows ++ k ∷ []) ≡ some rows
unfolding delete_row
delete_row-new id rows k e n =
    rw (any-end (has_key_id id) rows k (ground (arith, e, eq_refl id)))
      (ap some (filter-new id rows k e n))

module _ (hash : String → String) (org id random : String) (req : CreateApiKeyRequest)
    (rows : List KeyRow) where
  abbrev pub new : KeyRow
  new = new_key (λ n. true) hash org id random req

  abbrev pub with_new : List KeyRow
  with_new = rows ++ new ∷ []

  creates :
      Array.any (same_hash (hash (full_key random))) rows ≡ false
      → create_key (λ n. true) hash org id (some random) (some req) rows
        ≡ (with_new, ok (created_key (λ n. true) hash new (full_key random)))
  unfolding create_key key_for store_key insert_key
  creates n = rw (create_key, key_for, store_key, insert_key, n) refl

  module _ (known is_id : String → Bool) (i : Incoming) (w : World) where
    accepts :
        truthy (full_key random) ≡ true
        → Array.any (same_hash (hash (full_key random))) rows ≡ false
        → i.api_key ≡ full_key random
        → i.answered ≡ true
        → receive hash known is_id (map api_key_of with_new) i w ≡ (
            if expired i.now (api_key_of new)
            then (w, unauthorized "expired ApiKey")
            else send hash known is_id i.calls org i.body w)
    unfolding receive with_key
    accepts t n k a =
        let there =
          find-api_key_of (hash (full_key random)) with_new
          ∙ ap (Option.map api_key_of) (
              find-new (same_hash (hash (full_key random))) rows new n
                (eq_refl (hash (full_key random)))) in
        rw (receive, k, t, a, there, with_key) refl

    refuses :
        truthy (full_key random) ≡ true
        → Array.any (same_hash (hash (full_key random))) rows ≡ false
        → i.api_key ≡ full_key random
        → receive hash known is_id (map api_key_of rows) i w ≡ (w, unauthorized "invalid ApiKey")
    unfolding receive with_key
    refuses t n k =
        let gone =
          find-api_key_of (hash (full_key random)) rows
          ∙ ap (Option.map api_key_of)
              (Array.find-none (same_hash (hash (full_key random))) rows n) in
        elim (Bool-cases i.answered) [
          | inl a ↦ rw (receive, k, t, a, gone, with_key) refl
          | inr a ↦ rw (receive, k, t, a) refl
        ]

    -- With every statement answered, a key whose id and hash are new is created, and lets its holder
    -- send for its organization until it expires. A member of any organization, whether the key's or
    -- not, that knows the key's id deletes it, and then it lets nobody send.
    pub create_key-delete_route :
        (hs : List (String × String)) (members : List Membership) (user_of : String → Option String)
        (deleter other : String)
        → Array.any (same_hash (hash (full_key random))) rows ≡ false
        → Array.any (has_key_id id) rows ≡ false
        → is_id id ≡ true
        → i.api_key ≡ full_key random
        → i.answered ≡ true
        → org_route user_of is_id members hs ≡ passed (deleter, other)
        → (create_key (λ n. true) hash org id (some random) (some req) rows
            ≡ (with_new, ok (created_key (λ n. true) hash new (full_key random))))
          × (receive hash known is_id (map api_key_of with_new) i w ≡ (
              if expired i.now (api_key_of new)
              then (w, unauthorized "expired ApiKey")
              else send hash known is_id i.calls org i.body w))
          × (receive hash known is_id
                (map api_key_of
                  (delete_route (λ n. true) (org_route user_of is_id members hs) is_id id with_new))
                i
                w
              ≡ (w, unauthorized "invalid ApiKey"))
    unfolding delete_route delete_key
    create_key-delete_route hs members user_of deleter other n d e k a g = (
      creates n,
      accepts (key-truthy random) n k a,
      rw (g, delete_route, delete_key, e, delete_row-new id rows new refl d)
          (refuses (key-truthy random) n k),
    )
