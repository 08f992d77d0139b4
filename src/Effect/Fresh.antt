-- ===== src/Effect/Fresh.antt =====
-- Only the newest run of the effect writes to the state.
use chis.Base.{
  ℕ, suc, ◌<◌, ◌≡◌, refl, ap, ◌∙◌, Bool, true, false, nat_eq, if◌then◌else◌, List, [], ◌∷◌, ◌++◌,
  arith, Bool-cases, All, inl, inr,
}
use chis.Net.{Settled}
use chis.Effect.{Loader, Mounted, mount, Event, rerun, settled, act, unmount, cleanup, step, run}

-- No run is live but the newest.
pub record IsFresh {S : Type 0} (m : Mounted S) : Type 0 where
  pub live : (k : ℕ) → m.cancelled k ≡ false → suc k ≡ m.started

pub mount-IsFresh : {S : Type 0} (s : S) → IsFresh (mount s)
mount-IsFresh s = record { live = λ k h. cc }

module _ {S D : Type 0} (L : Loader S D) where
  open L use {absent, begin, finish, stale}

  step-IsFresh : (e : Event S D) (m : Mounted S) → IsFresh m → IsFresh (step L e m)
  unfolding step cleanup
  step-IsFresh (rerun true) m h = record { live = λ k q. ground (arith, h.live k) }
  step-IsFresh (rerun false) m h = record { live = λ k q. ground (arith, h.live k) }
  step-IsFresh (settled k r) m h = record { live = h.live }
  step-IsFresh (act f) m h = record { live = h.live }
  step-IsFresh unmount m h = record { live = λ k q. ground (arith, h.live k) }

  -- Whether an event can write at all: a promise of a run before the newest one cannot.
  abbrev pub counts : Mounted S → Event S D → Bool
  counts m (settled k r) = nat_eq (suc k) m.started
  counts m _ = true

  -- The events without the promises that settle too late.
  abbrev pub without_stale : Mounted S → List (Event S D) → List (Event S D)
  without_stale m [] = []
  without_stale m (e ∷ es) =
      let rest = without_stale (step L e m) es in if counts m e then e ∷ rest else rest

  step_stale : (e : Event S D) (m : Mounted S) → IsFresh m → counts m e ≡ false → step L e m ≡ m
  unfolding step
  step_stale (settled k r) m h c = elim (Bool-cases (m.cancelled k)) [
    | inl gone ↦ rw (gone, stale)
    | inr live ↦ ground (arith, h.live k live)
  ]
  step_stale (rerun b) m h c = cc
  step_stale (act f) m h c = cc
  step_stale unmount m h c = cc

  -- Whatever happens to a component of which no run is live but the newest, and in whatever order its
  -- promises settle, those of all runs but the newest could as well be left out.
  pub run-without_stale :
      (es : List (Event S D)) (m : Mounted S)
      → IsFresh m
      → run L es m ≡ run L (without_stale m es) m
  unfolding run
  run-without_stale [] m h = refl
  run-without_stale (e ∷ es) m h = elim (Bool-cases (counts m e)) [
    | inl c ↦ rw c (run-without_stale es (step L e m) (step-IsFresh e m h))
    | inr c ↦ rw c (rw (step_stale e m h c) (run-without_stale es m h))
  ]

  run-append :
      (es fs : List (Event S D)) (m : Mounted S) → run L (es ++ fs) m ≡ run L fs (run L es m)
  unfolding run
  run-append [] fs m = refl
  run-append (e ∷ es) fs m = run-append es fs (step L e m)

  abbrev pub settlements : List (ℕ × Settled D) → List (Event S D)
  settlements [] = []
  settlements ((k, r) ∷ rs) = settled k r ∷ settlements rs

  run-older :
      (n : ℕ) (rs : List (ℕ × Settled D)) (m : Mounted S)
      → IsFresh m
      → m.started ≡ suc n
      → All (λ a. a.0 < n) rs
      → run L (settlements rs) m ≡ m
  unfolding run
  run-older n [] m h e k = refl
  run-older n ((j, r) ∷ rs) m h e (k, ks) =
      ap (run L (settlements rs)) (step_stale (settled j r) m h (ground arith))
      ∙ run-older n rs m h e ks

  -- When a load starts, the promises of earlier runs that settle before or after that of this run,
  -- with any outcome, leave no trace: the state is what this run alone makes of the state before, if
  -- no run of the component was live but the newest.
  pub state-latest :
      (m : Mounted S) (r : Settled D) (before after : List (ℕ × Settled D))
      → IsFresh m
      → All (λ a. a.0 < m.started) before
      → All (λ a. a.0 < m.started) after
      → (run L (rerun true ∷ settlements before ++ settled m.started r ∷ settlements after) m).state
        ≡ finish false r (begin m.state)
  unfolding run step
  state-latest m r before after h b a =
      let n = step L (rerun true) m in
      let n' = step L (settled m.started r) n in
      let hn = step-IsFresh (rerun true) m h in
      let hn' = step-IsFresh (settled m.started r) n hn in
      ap (λ (x : Mounted S). x.state)
        (run-append (settlements before) (settled m.started r ∷ settlements after) n)
      ∙ ap (λ x. (run L (settlements after) (step L (settled m.started r) x)).state)
          (run-older m.started before n hn refl b)
      ∙ ap (λ (x : Mounted S). x.state) (run-older m.started after n' hn' refl a)
      ∙ ap (λ c. finish c r (begin m.state)) (ground arith)
