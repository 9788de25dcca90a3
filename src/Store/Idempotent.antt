-- ===== src/Store/Idempotent.antt =====
-- packages/db/src/store.ts: `createRun` is idempotent for a request key.
use lineageguard.Base.{◌≡◌, String, true, some}
use lineageguard.Base.Results.{returns}
use lineageguard.Store.Rows.{Host, ExecutionMode, RunRow, Database}
use lineageguard.Store.Leases.{find_request, run_from_row, same_request}

-- The stored run of a request.
record Kept (host : Host) (after : Database) (key fingerprint : String) (mode : ExecutionMode)
    (result : RunRow) : Type 0 where
  row : RunRow
  found : find_request host key after.runs ≡ some row
  same : same_request host row fingerprint mode ≡ true
  parsed : run_from_row host row ≡ returns result
