-- ===== src/Suspension/Lift.antt =====
-- What `GetActive` of internal/suspension/service.go sees after `Suspend` and after `Unsuspend`.
use go_grpc_starter.Prelude.{ℕ, Bool, ◌&&◌, ◌==◌}
use go_grpc_starter.Suspension.{AccountSuspension, is_active}

abbrev holds : ℕ → ℕ → AccountSuspension → Bool
holds now user_id s = s.user_id == user_id && is_active now s
