-- ===== src/Hooks/SigningSecret.antt =====
-- web/src/features/dashboard/hooks/use-signing-secret.ts. A response is its one field.
use chis.Base.{String, ◌≡◌, refl, Bool, true, false, not, Option, none, some, if◌then◌else◌}
use chis.Net.{Settled, fulfilled, rejected}
use chis.Effect.{Loader}
use chis.Hooks.Message.{message_of}

pub record SecretState : Type 0 where
  pub signing_secret : Option String
  pub is_loading : Bool
  pub is_rotating : Bool
  pub error : Option String

abbrev pub initial : SecretState
initial = record { signing_secret = none; is_loading = true; is_rotating = false; error = none }

unfoldable pub load_begin : SecretState → SecretState
load_begin s = record s { is_loading = true; error = none }

load_outcome : Bool → Settled String → SecretState → SecretState
load_outcome cancelled (fulfilled answer) s =
    if not cancelled then record s { signing_secret = some answer } else s
load_outcome cancelled (rejected e) s =
    if not cancelled then record s { error = some (message_of e) } else s

-- `finally`
load_finally : Bool → SecretState → SecretState
load_finally cancelled s = if not cancelled then record s { is_loading = false } else s

unfoldable pub load_settled : Bool → Settled String → SecretState → SecretState
unfolding load_outcome load_finally
load_settled cancelled r s = load_finally cancelled (load_outcome cancelled r s)

pub load_stale : (r : Settled String) (s : SecretState) → load_settled true r s ≡ s
unfolding load_settled
load_stale (fulfilled _) s = refl
load_stale (rejected _) s = refl

-- The effect of the hook; with no organization it does nothing.
abbrev pub loader : Loader SecretState String
loader = record { absent = λ s. s; begin = load_begin; finish = load_settled; stale = load_stale }

unfoldable pub rotate_begin : SecretState → SecretState
rotate_begin s = record s { is_rotating = true; error = none }

rotate_outcome : Settled String → SecretState → SecretState
rotate_outcome (fulfilled secret) s = record s { signing_secret = some secret }
rotate_outcome (rejected e) s = record s { error = some (message_of e) }

unfoldable pub rotate_settled : Settled String → SecretState → SecretState
unfolding rotate_outcome
rotate_settled r s = record (rotate_outcome r s) { is_rotating = false }
