-- ===== src/Server/Runs.antt =====
-- What the server shows of runs: internal/server/api/logs.go and runs.go. The logs come from the client of
-- the datastore.
pub mod Downloads
use burrito.Base.{
  ℕ, String, Bool, Option, none, some, List, [], ◌∷◌, ◌++◌, ◌==◌, ◌||◌, length, if◌then◌else◌,
}
use burrito.Base.Effect.{Result, ok, err, Effect}
use burrito.Encryption.{Bytes}
use burrito.World.{World}
use burrito.Datastore.Client.{Transport}
use burrito.Datastore.Client

-- `getLogsArgs` fails.
abbrev pub misses_attempt : (namespace layer run attempt : String) → Bool
misses_attempt namespace layer run attempt =
    namespace == "" || (layer == "" || (run == "" || attempt == ""))

-- `strings.Join` of lines, with a byte between them.
unfoldable pub join_bytes : (separator : ℕ) → List Bytes → Bytes
join_bytes separator [] = []
join_bytes separator (line ∷ []) = line
join_bytes separator (line ∷ next ∷ lines) =
    line ++ (separator ∷ join_bytes separator (next ∷ lines))

module _ (t : Transport) where
  open t use {State}

  -- `GetLogsHandler`: the status and the lines.
  unfoldable pub get_logs_handler :
      (namespace layer run attempt : String) → Effect State (ℕ × List Bytes)
  get_logs_handler namespace layer run attempt s =
      let (content, s') = Client.get_logs t namespace layer run attempt s in
      if misses_attempt namespace layer run attempt
      then ((400, []), s)
      else (elim content [ err e ↦ (500, []) | ok lines ↦ (200, lines) ], s')

  -- `DownloadLogsHandler`: the status and the file.
  unfoldable pub download_logs_handler :
      (namespace layer run attempt : String) → Effect State (ℕ × Bytes)
  unfolding join_bytes
  download_logs_handler namespace layer run attempt s =
      let (content, s') = Client.get_logs t namespace layer run attempt s in
      if misses_attempt namespace layer run attempt
      then ((400, []), s)
      else (elim content [ err e ↦ (500, []) | ok lines ↦ (200, join_bytes 10 lines) ], s')

-- `GetAttemptsHandler`: the status and the count.
unfoldable pub get_attempts_handler : (w : World) → (namespace run : String) → w.State → ℕ × ℕ
get_attempts_handler w namespace run s =
    if namespace == "" || run == ""
    then (400, 0)
    else elim (w.get_run s (record { namespace = namespace; name = run })) [
      | err e ↦ (500, 0)
      | ok found ↦ (200, length found.status.attempts)
    ]
