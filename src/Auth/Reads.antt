-- ===== src/Auth/Reads.antt =====
-- The reading calls of internal/auth/refresh_token_repository.go.
use go_grpc_starter.Prelude.{String, ◌≡◌, some, arith}
use go_grpc_starter.Errs.{ok}
use go_grpc_starter.Store.{Conn, query, with_tx, run}
use go_grpc_starter.Auth.Entity.{Found}
use go_grpc_starter.Auth.Tables.{AuthDb, token_by_hash, get_user_by_id, get_device_session_by_id}
use go_grpc_starter.Auth.Repository.{find_by_token_hash}

module _ {W : Type 0} (c : Conn W AuthDb) where
  pub find_by_token_hash-reads :
      (hash : String)
      → ((find_by_token_hash hash c).1.db ≡ c.db)
        × ((find_by_token_hash hash c).1.outside ≡ c.outside)
        × ((find_by_token_hash hash c).1.in_tx ≡ c.in_tx)
        × ((find_by_token_hash hash c).1.faults ≡ c.faults)
  unfolding find_by_token_hash run with_tx query
  find_by_token_hash-reads hash = ground arith

  pub find_by_token_hash_found :
      (hash : String) {found : Found}
      → (find_by_token_hash hash c).0 ≡ ok found
      → (token_by_hash hash c.db ≡ some found.token)
        × (get_device_session_by_id found.token.session_id c.db ≡ some found.session)
        × (get_user_by_id found.session.user_id c.db ≡ some found.owner)
  unfolding find_by_token_hash run with_tx query
  find_by_token_hash_found hash h = ground arith
