-- ===== src/Delivery/Logs/Sizes.antt =====
-- How much of the logs a request gets.
use chis.Base.{
  ℕ, ◌≤◌, String, Bool, ◌≡◌, subst, Option, some, Option-cases, Bool-cases, inl, inr, arith, length,
  List, [], ◌∷◌, suc, zero,
}
use Prim.Native.Nat.{◌*◌}
use chis.Delivery.Logs.Pages.{pages-enough, limit-pos}
use chis.Base.Array
use chis.Delivery.{World}
use chis.Delivery.Logs.{
  WebhookLogsResult, find_webhook_logs, webhook_logs, page_param, limit_param, limit_or, ok,
  matching, shown_logs, offset_of, is_query, page_or,
}

some_injective : {A : Type 0} {a b : A} → some a ≡ some b → a ≡ b
some_injective e = cc

length-take-le : {A : Type 0} (n : ℕ) (xs : List A) → length (Array.take n xs) ≤ n
length-take-le zero xs = omega arith
length-take-le (suc n) [] = omega arith
length-take-le (suc n) (x ∷ xs) = omega (arith, length-take-le n xs)

pub record IsPage (r : WebhookLogsResult) : Type 0 where
  pub page : 1 ≤ r.page
  pub limit : 1 ≤ r.limit
  pub limited : r.limit ≤ 100
  pub size : length r.data_ ≤ r.limit
  pub all : r.total ≤ r.total_pages * r.limit

limit_param-le : (atoi : String → Option ℕ) (v : String) → limit_or (limit_param atoi v) ≤ 100
unfolding limit_param
limit_param-le atoi v = elim (Option-cases (atoi v)) [
  | inl e ↦ rw e (ground arith)
  | inr (l, e) ↦ rw e (ground arith)
]

module _ (ilike : String → String → Bool) (org_id status search : String) (page limit : ℕ)
    (w : World) where
  found_page :
      (r : WebhookLogsResult)
      → limit_or limit ≤ 100
      → find_webhook_logs ilike org_id status search page limit w ≡ some r
      → IsPage r
  unfolding find_webhook_logs
  found_page r h e =
      elim (Bool-cases (is_query status (offset_of (page_or page) (limit_or limit)))) [
        | inr n ↦ absurd (cc (rw n at e))
        | inl y ↦ subst IsPage (some_injective (rw y at e)) (record {
          page = ground arith;
          limit = ground arith;
          limited = h;
          size = length-take-le (limit_or limit) _;
          all =
              pages-enough (length (matching ilike org_id status search w)) (limit_or limit)
                (limit-pos limit);
        })
      ]

-- Whatever texts a request has for the page and the limit, an answer that is no error is a page numbered from 1, of at
-- most as many entries as its limit says, which is between 1 and 100, and the pages have room for all
-- the entries.
pub webhook_logs-IsPage :
    (atoi : String → Option ℕ) (ilike : String → String → Bool) (answered : Bool)
    (org_id status search page limit : String) (w : World) (r : WebhookLogsResult)
    → webhook_logs atoi ilike answered (some org_id) status search page limit w ≡ ok r
    → IsPage r
unfolding webhook_logs shown_logs
webhook_logs-IsPage atoi ilike answered org_id status search page limit w r e =
    let p = page_param atoi page in
    let l = limit_param atoi limit in
    elim (Option-cases (find_webhook_logs ilike org_id status search p l w)) [
      | inl n ↦ absurd (ground (arith, n))
      | inr (f, g) ↦
          subst IsPage (ground (arith, g))
            (found_page ilike org_id status search p l w f (limit_param-le atoi limit) g)
    ]
