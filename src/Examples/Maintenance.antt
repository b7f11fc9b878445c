-- ===== src/Examples/Maintenance.antt =====
-- A sweep of internal/maintenance/sweeper.go on small tables.
use go_grpc_starter.Prelude.{◌-◌, false, none, some, [], ◌∷◌}
use go_grpc_starter.Store.{Conn}
use go_grpc_starter.Event.Outbox.Table.{OutboxEvent}
use go_grpc_starter.Maintenance.{Tables, Retention, Report, sweep}
use go_grpc_starter.Maintenance.Sweep.{Unseen, sweep-Unseen}
use go_grpc_starter.Examples.Auth.{start}

abbrev retention : Retention
retention = record { refresh_tokens = 100; processed_outbox = 10; login_attempts = 50 }

abbrev row : OutboxEvent
row = record {
  id = 1;
  event_type = "user.created";
  payload = "{}";
  dedupe_key = none;
  created_at = 20;
  processed_at = some 30;
  retry_count = 0;
  last_error = none;
  last_attempted_at = none;
}

abbrev conn : Conn Report Tables
conn = record {
  db = record {
    auth = start.db;
    outbox = record {
      rows = row ∷ record row { id = 2; processed_at = none } ∷ [];
      dead_letters = [];
      next_id = 3;
    };
    attempts = record { email = 97 ∷ []; created_at = 5 } ∷ [];
  };
  outside = record { deleted = []; failed = [] };
  in_tx = false;
  aborted = false;
  clock = 0;
  faults = λ _. false;
}

sweep-Unseen_example : Unseen (160 - 100) conn.db (sweep retention 160 conn).db
sweep-Unseen_example = sweep-Unseen retention 160 conn
