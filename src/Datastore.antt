-- ===== src/Datastore.antt =====
-- internal/datastore/storage: what the datastore keeps, and what it asks of a storage backend.
-- A backend is the parameter `Backend`; those of the source are in Mock, S3, Azure and Gcs.
pub mod Keys
pub mod Storage
pub mod Attempts
pub mod Plain
pub mod Stored
pub mod Mock
pub mod Memory
pub mod Objects
pub mod S3
pub mod Azure
pub mod Gcs
pub mod Client
pub mod Server
pub mod Network
pub mod Handlers
pub mod Migration
pub mod Accounts
pub mod Unchanged
use burrito.Base.{String, ◌<>◌, ◌==◌, List, if◌then◌else◌}
use burrito.Base.Effect.{Result, Effect}
use burrito.Encryption.{Bytes}

-- `StorageBackend`. The error `not_found` is a `StorageError` whose `Nil` is set, the only one that
-- `NotFound` recognises; `already_exists` does not occur.
pub record Backend : Type 1 where
  pub State : Type 0
  pub get : (key : String) → Effect State (Result Bytes)
  -- the checksum of what is stored
  pub check : (key : String) → Effect State (Result Bytes)
  -- the time to live is 0 in every call
  pub set : (key : String) (value : Bytes) → Effect State (Result (Unit {0}))
  pub delete : (key : String) → Effect State (Result (Unit {0}))
  pub list : (prefix : String) → Effect State (Result (List String))
  pub list_recursive : (prefix : String) → Effect State (Result (List String))

unfoldable pub compute_logs_key : (namespace layer run attempt : String) → String
compute_logs_key namespace layer run attempt =
    "layers/"
    <> (namespace <> ("/" <> (layer <> ("/" <> (run <> ("/" <> (attempt <> "/run.log")))))))

unfoldable pub plan_file : (format : String) → String
plan_file format =
    if format == "json"
    then "plan.json"
    else if format == "pretty"
    then "pretty.plan"
    else if format == "short"
    then "short.diff"
    else if format == "bin"
    then "plan.bin"
    else "plan.json"

unfoldable pub compute_plan_key : (namespace layer run attempt format : String) → String
unfolding plan_file
compute_plan_key namespace layer run attempt format =
    "layers/"
    <> (namespace
        <> ("/" <> (layer <> ("/" <> (run <> ("/" <> (attempt <> ("/" <> plan_file format))))))))

unfoldable pub compute_git_bundle_key : (namespace repository branch revision : String) → String
compute_git_bundle_key namespace repository branch revision =
    "repositories/"
    <> (namespace
        <> ("/" <> (repository <> ("/" <> (branch <> ("/" <> (revision <> ".gitbundle")))))))

-- The prefix under which the attempts of a run are.
unfoldable pub run_key : (namespace layer run : String) → String
run_key namespace layer run = "layers/" <> (namespace <> ("/" <> (layer <> ("/" <> run))))
