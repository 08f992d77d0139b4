-- ===== src/Hooks/ApiKeys/Laws.antt =====
-- What creating and revoking a key do to the list.
use chis.Base.{
  String, ◌≡◌, ◌≢◌, true, not, Option, none, List, [], ◌∷◌, ◌==◌, arith, eq_iff, eq_refl, All,
}
use chis.Base.Array
use chis.Net.{Settled, fulfilled}
use chis.Api.Types.{ApiKey, CreateApiKeyResponse}
use chis.Hooks.ApiKeys.{
  ApiKeysState, listed, create_key_begin, create_key_settled, remove_key_begin, remove_key_settled,
}

abbrev pub create_key : Settled CreateApiKeyResponse → ApiKeysState → ApiKeysState
create_key r s = create_key_settled r (create_key_begin s)

abbrev pub remove_key : {A : Type 0} → String → Settled A → ApiKeysState → ApiKeysState
remove_key id r s = remove_key_settled id r (remove_key_begin s)

-- The key with an id, as the page shows it.
abbrev pub key_with : String → ApiKeysState → Option ApiKey
key_with id s = Array.find (λ k. k.id == id) s.api_keys

not_same : (id j : String) → j ≢ id → (k : ApiKey) → (k.id == j) ≡ true → not (k.id == id) ≡ true
not_same id j h k e = ground (arith, eq_iff k.id j, eq_iff k.id id)

others :
    (id : String) (ks : List ApiKey)
    → All (λ k. k.id ≢ id) ks
    → All (λ k. not (k.id == id) ≡ true) ks
others id [] h = tt
others id (k ∷ ks) h = (ground (arith, eq_iff k.id id), others id ks h.1)

-- A key that is created and revoked again, by its own id, leaves the list as it was, if no other key
-- has that id.
pub remove_key-create_key :
    {A : Type 0} (a : A) (r : CreateApiKeyResponse) (s : ApiKeysState)
    → All (λ k. k.id ≢ r.id) s.api_keys
    → (remove_key r.id (fulfilled a) (create_key (fulfilled r) s)).api_keys ≡ s.api_keys
unfolding remove_key_settled remove_key_begin create_key_settled create_key_begin listed
remove_key-create_key a r s h =
    rw (eq_refl r.id)
      (Array.filter-All (λ k. not (k.id == r.id)) s.api_keys (others r.id s.api_keys h))

-- After a revocation that succeeds the id is gone from the list, and any other id shows the key
-- that it showed before.
pub key_with-remove_key :
    {A : Type 0} (a : A) (id j : String) (s : ApiKeysState)
    → j ≢ id
    → (key_with id (remove_key id (fulfilled a) s) ≡ none)
      × (key_with j (remove_key id (fulfilled a) s) ≡ key_with j s)
unfolding remove_key_settled remove_key_begin
key_with-remove_key a id j s h = (
  Array.find-filter-not (λ k. k.id == id) s.api_keys,
  Array.find-filter (λ k. not (k.id == id)) (λ k. k.id == j) s.api_keys (not_same id j h),
)
