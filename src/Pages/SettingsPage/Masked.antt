-- ===== src/Pages/SettingsPage/Masked.antt =====
-- A secret that is hidden does not show.
use chis.Base.{
  ℕ, ◌<◌, String, ◌≡◌, ap, true, false, Bool-cases, inl, inr, some, List, ◌++◌, arith, length,
  eq_iff, leb, truthy, truthy?, ◌==◌,
}
use chis.Base.Text.{units}
use chis.Pages.SettingsPage.{
  SettingsState, take, masked_secret, secret_row, secret_section, danger_zone, top, view,
}

masked_long : (secret : List ℕ) → 6 < length secret → leb (length secret) 6 ≡ false
masked_long secret h = ground arith

-- Of a secret with more than six code units the mask shows the first six alone.
pub masked_secret_prefix :
    (a b : List ℕ)
    → 6 < length a
    → 6 < length b
    → take 6 a ≡ take 6 b
    → masked_secret a ≡ masked_secret b
unfolding masked_secret
masked_secret_prefix a b ha hb e = rw (masked_long a ha, masked_long b hb, e)

truthy-long : (a : String) → 6 < length (units a) → truthy a ≡ true
unfolding units
truthy-long a h = elim (Bool-cases (a == "")) [
  | inl e ↦ absurd (omega (arith, ap (λ (t : String). length (units t)) ((eq_iff a "").0 e)))
  | inr e ↦ rw e
]

secret_row-hidden :
    (a b : String) (s : SettingsState)
    → s.secret_visible ≡ false
    → 6 < length (units a)
    → 6 < length (units b)
    → take 6 (units a) ≡ take 6 (units b)
    → secret_row s (some a) ≡ secret_row s (some b)
unfolding secret_row
secret_row-hidden a b s h ha hb e =
    rw (truthy-long a ha, truthy-long b hb, h, masked_secret_prefix (units a) (units b) ha hb e)

abbrev pub with_secret : String → SettingsState → SettingsState
with_secret secret s = record s { secret = record s.secret { signing_secret = some secret } }

secret_section-hidden :
    (a b : String) (s : SettingsState)
    → s.secret_visible ≡ false
    → 6 < length (units a)
    → 6 < length (units b)
    → take 6 (units a) ≡ take 6 (units b)
    → secret_section (with_secret a s) ≡ secret_section (with_secret b s)
unfolding secret_section
secret_section-hidden a b s h ha hb e = elim (Bool-cases s.secret.is_loading) [
  | inl l ↦ rw l
  | inr l ↦ elim (Bool-cases (truthy? s.secret.error)) [
    | inl f ↦ rw (l, f)
    | inr f ↦ rw (l, f) (secret_row-hidden a b s h ha hb e)
  ]
]

-- While the secret is hidden, the page is the same for any two secrets of more than six code units
-- that begin with the same six: nothing else of a secret shows.
pub view-hidden :
    (a b : String) (s : SettingsState)
    → s.secret_visible ≡ false
    → 6 < length (units a)
    → 6 < length (units b)
    → take 6 (units a) ≡ take 6 (units b)
    → view (with_secret a s) ≡ view (with_secret b s)
unfolding view
view-hidden a b s h ha hb e =
    ap (λ v. top ++ (v ++ danger_zone s)) (secret_section-hidden a b s h ha hb e)
