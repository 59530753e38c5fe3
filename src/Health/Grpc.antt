-- ===== src/Health/Grpc.antt =====
-- internal/health/grpc.go: the probe; what the dial and the call return is an argument.
use gobalancer.Common.{Bool, true, false, Option, none, some, if◌then◌else◌}

pub data ServingStatus : Type 0 where
  unknown serving not_serving service_unknown : ServingStatus

abbrev is_serving : ServingStatus → Bool
is_serving serving = true
is_serving _ = false

-- `none` is the error of `Check`.
unfoldable pub checked : Option ServingStatus → Bool
checked none = false
checked (some status) = is_serving status

unfoldable pub probe_grpc : (dialled : Bool) → Option ServingStatus → Bool
unfolding checked
probe_grpc dialled answer = if dialled then checked answer else false
