-- ===== src/Examples/Suspension.antt =====
-- `Suspend` and `Unsuspend` of internal/suspension on an empty table.
use go_grpc_starter.Prelude.{ℕ, false, some, [], ◌∷◌}
use go_grpc_starter.Store.{Conn}
use go_grpc_starter.Suspension.{SuspensionDb, SuspendInput, spam, suspend}

abbrev quiet : SuspensionDb → Conn ℕ SuspensionDb
quiet o = record {
  db = o;
  outside = 0;
  in_tx = false;
  aborted = false;
  clock = 0;
  faults = λ _. false;
}

abbrev empty : SuspensionDb
empty = record { suspensions = []; user_ids = 7 ∷ []; next_suspension = 1 }

abbrev order : SuspendInput
order = record { user_id = 7; reason = spam; details = ""; until = some 90; permanent = false }

abbrev suspended : Conn ℕ SuspensionDb
suspended = quiet (suspend 10 order (quiet empty)).1.db
