-- ===== src/Delivery/Logs/Pages.antt =====
-- The pages of the logs together.
use chis.Base.{
  ℕ, zero, suc, ◌+◌, ◌-◌, ◌≤◌, String, Bool, ◌≡◌, List, [], ◌++◌, length, arith, ltb, Bool-cases,
  inl, inr, ◌<◌, Option, none, some, true,
}
use Prim.Native.Nat.{◌*◌, ◌/◌, ◌^◌}
use native.Mathlib.Nat.{mod-lt, div-add-mod, mod-eq_of_lt}
use chis.Base.Array
use chis.Delivery.{World}
use chis.Delivery.Logs.{
  WebhookLogEntry, WebhookLogsResult, find_webhook_logs, matching, limit_or, page_or, pages_of,
  offset_of, window,
}

module _ {ℓ} {A : Type ℓ} where
  -- `n` pages of a list, from the page after the first `i`.
  pages : ℕ → ℕ → ℕ → List A → List A
  pages limit i zero xs = []
  pages limit i (suc n) xs =
      Array.take limit (Array.drop (i * limit) xs) ++ pages limit (suc i) n xs

ceil-covers : (total limit : ℕ) → 1 ≤ limit → total ≤ (total + (limit - 1)) / limit * limit
ceil-covers total limit h =
    grind (arith, mod-lt (total + (limit - 1)) h, div-add-mod (total + (limit - 1)) limit)

pub limit-pos : (limit : ℕ) → 1 ≤ limit_or limit
limit-pos limit = ground arith

pub pages-enough : (total limit : ℕ) → 1 ≤ limit → total ≤ pages_of total limit * limit
pages-enough total limit h = elim (Bool-cases (ltb 0 total)) [
  | inl e ↦ rw e (grind (arith, ceil-covers total limit h))
  | inr e ↦ rw e (ground arith)
]

pub lt→ltb : (a b : ℕ) → a < b → ltb a b ≡ true
lt→ltb a b h = ground arith

-- An offset that is an `int64` does not wrap.
pub offset_of-fits :
    (page limit : ℕ) → (page - 1) * limit < 2 ^ 63 → offset_of page limit ≡ (page - 1) * limit
unfolding offset_of
offset_of-fits page limit h = mod-eq_of_lt (omega arith)

-- The entries of a page before those of other pages.
abbrev pub before :
    Option WebhookLogsResult → Option (List WebhookLogEntry) → Option (List WebhookLogEntry)
before (some r) (some es) = some (r.data_ ++ es)
before none _ = none
before (some r) none = none

module _ (ilike : String → String → Bool) (org_id status search : String) (limit : ℕ)
    (w : World) where
  abbrev pub page_at : ℕ → Option WebhookLogsResult
  page_at page = find_webhook_logs ilike org_id status search page limit w

  abbrev rows : List WebhookLogEntry
  rows = matching ilike org_id status search w

  -- What a client gets that asks for so many pages, from the page after the first `i`; nothing if one
  -- of them is an error.
  abbrev pub read_pages : ℕ → ℕ → Option (List WebhookLogEntry)
  read_pages i zero = some []
  read_pages i (suc n) = before (page_at (suc i)) (read_pages (suc i) n)

  abbrev page_of : ℕ → WebhookLogsResult
  page_of i = record {
    data_ = window (limit_or limit) (i * limit_or limit) rows;
    total = length rows;
    page = page_or (suc i);
    limit = limit_or limit;
    total_pages = pages_of (length rows) (limit_or limit);
  }
