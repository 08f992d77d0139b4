-- ===== src/Delivery/Messages/Parked.antt =====
-- A message that waits in the table, while the queries are about others.
use chis.Base.{
  ℕ, String, false, ◌≡◌, ◌≢◌, refl, ◌∙◌, Bool-cases, inl, inr, some, List, [], ◌∷◌, ◌++◌, arith,
  All, All-append, All-map, All-chosen, ◌==◌, ◌&&◌, eq_iff, if◌then◌else◌,
}
use chis.Delivery.{Message, pending}
use chis.Delivery.Messages.{
  create, find_by_id, update_where, is_retry, retry_ready, find_retry_ready,
}
use chis.Delivery.Messages.Every.{All-find_retry_ready}

-- No row of the id is in the state `retry`.
abbrev pub IsQuiet : String → Message → Type 0
IsQuiet id r = ((r.id == id) && is_retry r.status) ≡ false

-- Its row is as it is, and is pending.
pub record IsParked (m : Message) (ms : List Message) : Type 0 where
  pub found : find_by_id m.id ms ≡ some m
  pub waits : m.status ≡ pending
  pub quiet : All (IsQuiet m.id) ms

module _ (m : Message) where
  find-update_where :
      (f : Message → Message) (id : String) (ms : List Message)
      → id ≢ m.id
      → ((k : Message) → (f k).id ≡ k.id)
      → find_by_id m.id (update_where f id ms) ≡ find_by_id m.id ms
  unfolding find_by_id
  find-update_where f id [] n g = refl
  find-update_where f id (k ∷ ms) n g = ground (
    arith,
    find-update_where f id ms n g,
    g k,
    eq_iff k.id id,
    eq_iff k.id m.id,
    eq_iff (f k).id m.id,
  )

  pub update_where-IsParked :
      (f : Message → Message) (id : String) (ms : List Message)
      → id ≢ m.id
      → ((k : Message) → (f k).id ≡ k.id)
      → IsParked m ms
      → IsParked m (update_where f id ms)
  update_where-IsParked f id ms n g h = record {
    found = find-update_where f id ms n g ∙ h.found;
    waits = h.waits;
    quiet =
        All-map (IsQuiet m.id) (λ k. if k.id == id then f k else k) ms
          (λ k q. ground (arith, g k, eq_iff k.id id, eq_iff (f k).id m.id)) h.quiet;
  }

  find-append :
      (ms ks : List Message) → find_by_id m.id ms ≡ some m → find_by_id m.id (ms ++ ks) ≡ some m
  unfolding find_by_id
  find-append (k ∷ ms) ks h = ground (arith, find-append ms ks)
  find-append [] ks h = cc

  pub create-IsParked :
      (id org_id method url payload : String) (ms : List Message)
      → IsParked m ms
      → IsParked m (create id org_id method url payload ms)
  unfolding create
  create-IsParked id org_id method url payload ms h = record {
    found = find-append ms _ h.found;
    waits = h.waits;
    quiet = All-append (IsQuiet m.id) ms _ h.quiet (ground arith, tt);
  }

  -- The scheduler does not fetch it.
  pub find_retry_ready-IsParked :
      (now limit : ℕ) (ms : List Message)
      → IsParked m ms
      → All (λ k. k.id ≢ m.id) (find_retry_ready now limit ms)
  find_retry_ready-IsParked now limit ms h =
      All-find_retry_ready (λ k. k.id ≢ m.id) now limit ms
        (All-chosen (IsQuiet m.id) (λ k. k.id ≢ m.id) (retry_ready now) ms
          (λ k r q e. ground (arith, eq_iff k.id m.id)) h.quiet)

-- What an update does to the row of its id.
pub find-own :
    (f : Message → Message) (id : String) (m : Message) (ms : List Message)
    → ((k : Message) → (f k).id ≡ k.id)
    → find_by_id id ms ≡ some m
    → find_by_id id (update_where f id ms) ≡ some (f m)
unfolding find_by_id
find-own f id m [] g h = cc
find-own f id m (k ∷ ms) g h = elim (Bool-cases (k.id == id)) [
  | inl e ↦ ground (arith, g k, eq_iff k.id id, eq_iff (f k).id id)
  | inr e ↦ ground (arith, find-own f id m ms g)
]

IsQuiet-row :
    (f : Message → Message) (id : String) (k : Message)
    → is_retry (f k).status ≡ false
    → IsQuiet id (if k.id == id then f k else k)
IsQuiet-row f id k g = elim (Bool-cases (k.id == id)) [
  | inl e ↦ ground arith
  | inr e ↦ ground arith
]

pub update_where-All-IsQuiet :
    (f : Message → Message) (id : String) (ms : List Message)
    → ((k : Message) → is_retry (f k).status ≡ false)
    → All (IsQuiet id) (update_where f id ms)
update_where-All-IsQuiet f id [] g = tt
update_where-All-IsQuiet f id (k ∷ ms) g =
    (IsQuiet-row f id k (g k), update_where-All-IsQuiet f id ms g)
