-- ===== src/Effect.antt =====
-- The loading effect that the hooks share (web/src/features/dashboard/hooks, `useEffect` with a
-- variable `cancelled`): each run of the effect has a `cancelled` of its own, the cleanup of a run
-- sets it, and a promise settles later, in any order, with the flag of the run that made it.
pub mod Fresh
use chis.Base.{ℕ, suc, ◌-◌, ◌≡◌, Bool, true, false, nat_eq, if◌then◌else◌, List, [], ◌∷◌}
use chis.Net.{Settled}

-- What a hook puts into the effect, over its state `S` and the data `D` that it asks for.
pub record Loader (S D : Type 0) : Type 0 where
  -- the effect with nothing to load: `if (!currentOrg) return`
  pub absent : S → S
  -- `load` up to its `await`
  pub begin : S → S
  -- `load` from the settled promise on, with the value of `cancelled`
  pub finish : Bool → Settled D → S → S
  -- a cancelled run writes nothing
  pub stale : (r : Settled D) (s : S) → finish true r s ≡ s

-- A component in the page: runs are numbered from 0.
pub record Mounted (S : Type 0) : Type 0 where
  pub state : S
  pub started : ℕ
  pub cancelled : ℕ → Bool

abbrev pub update : (ℕ → Bool) → ℕ → Bool → ℕ → Bool
update f i b j = if nat_eq i j then b else f j

-- The component's first render; its effects have not run.
abbrev pub mount : {S : Type 0} → S → Mounted S
mount s = record { state = s; started = 0; cancelled = λ _. true }

pub data Event (S D : Type 0) : Type 0 where
  -- a dependency changed; the flag says whether there is something to load
  rerun : Bool → Event S D
  settled : ℕ → Settled D → Event S D
  act : (S → S) → Event S D
  unmount : Event S D

module _ {S D : Type 0} (L : Loader S D) where
  open L use {absent, begin, finish}

  -- The cleanup of the last run, `() => { cancelled = true }`.
  unfoldable pub cleanup : Mounted S → Mounted S
  cleanup m = record m { cancelled = update m.cancelled (m.started - 1) true }

  unfoldable pub step : Event S D → Mounted S → Mounted S
  unfolding cleanup
  step (rerun true) m = record {
    state = begin m.state;
    started = suc m.started;
    cancelled = update (cleanup m).cancelled m.started false;
  }
  step (rerun false) m = record (cleanup m) { state = absent m.state }
  step (settled k r) m = record m { state = finish (m.cancelled k) r m.state }
  step (act f) m = record m { state = f m.state }
  step unmount m = cleanup m

  unfoldable pub run : List (Event S D) → Mounted S → Mounted S
  run [] m = m
  run (e ∷ es) m = run es (step e m)
