-- ===== src/Datastore/Storage.antt =====
-- The operations of `Storage` in internal/datastore/storage/common.go.
use burrito.Base.{String, ◌<>◌, ◌==◌, Option, none, some, List, [], ◌∷◌, map, last, if◌then◌else◌}
use burrito.Base.Int.{ℤ, pos, ◌-ℤ◌, wrap64, leb_ℤ}
use burrito.Base.Effect.{Result, ok, err, not_found, other, Effect}
use burrito.Base.Text.{split, trim_prefix, atoi}
use burrito.Encryption.{Bytes, Crypto, Encryptor, protect, reveal}
use burrito.Datastore.{Backend, compute_logs_key, compute_plan_key, compute_git_bundle_key, run_key}

-- The order of two attempts: `ai - bi` on 64-bit numbers.
unfoldable pub compare_attempts : (a b : String) → ℤ
compare_attempts a b = wrap64 (atoi a -ℤ atoi b)

unfoldable pub insert_attempt : (a : String) (sorted : List String) → List String
unfolding compare_attempts
insert_attempt a [] = a ∷ []
insert_attempt a (b ∷ sorted) =
    let others = insert_attempt a sorted in
    if leb_ℤ (pos 0) (compare_attempts a b) then b ∷ others else a ∷ b ∷ sorted

-- `slices.SortFunc` with that order, as the insertion sort it is on at most 12 items. Beyond, only
-- the order of attempts with the same number is another.
unfoldable pub sort_attempts : (attempts sorted : List String) → List String
unfolding insert_attempt
sort_attempts [] sorted = sorted
sort_attempts (a ∷ attempts) sorted = sort_attempts attempts (insert_attempt a sorted)

-- `strings.Split(strings.TrimPrefix(path, "/"+key+"/"), "/")[0]`
unfoldable pub attempt_of : (key path : String) → String
attempt_of key path = (split 47 (trim_prefix path ("/" <> (key <> "/")))).0

module _ (b : Backend) where
  unfoldable pub get_attempts :
      (namespace layer run : String) → Effect b.State (Result (List String))
  unfolding sort_attempts attempt_of run_key
  get_attempts namespace layer run s =
      let key = run_key namespace layer run in
      let (paths, s') = b.list key s in
      (
        elim paths [
          | err e ↦ err e
          | ok found ↦ ok (sort_attempts (map (attempt_of key) found) [])
        ],
        s',
      )

  unfoldable pub get_latest_attempt :
      (namespace layer run : String) → Effect b.State (Result String)
  unfolding get_attempts
  get_latest_attempt namespace layer run s =
      let (attempts, s') = get_attempts namespace layer run s in
      (
        elim attempts [
          | err e ↦ err e
          | ok sorted ↦ elim (last sorted) [ none ↦ ok "-1" | some attempt ↦ ok attempt ]
        ],
        s',
      )

  unfoldable pub check_git_bundle :
      (namespace repository ref commit : String) → Effect b.State (Result Bytes)
  check_git_bundle namespace repository ref commit =
      b.check (compute_git_bundle_key namespace repository ref commit)

module _ (b : Backend) (crypto : Crypto b.State) (manager : Option Encryptor) where
  -- `Backend.Get`, then `EncryptionManager.Decrypt`.
  unfoldable pub read : (key : String) → Effect b.State (Result Bytes)
  read key s =
      let (found, s') = b.get key s in
      (elim found [ err e ↦ err e | ok stored ↦ ok (reveal crypto manager stored) ], s')

  -- `EncryptionManager.Encrypt`, then `Backend.Set`, whose error is wrapped.
  unfoldable pub write : (key : String) (content : Bytes) → Effect b.State (Result (Unit {0}))
  write key content s =
      let (stored, s') = protect crypto manager content s in
      elim stored [
        | err e ↦ (err other, s')
        | ok bytes ↦
            let (done, s'') = b.set key bytes s' in
            (elim done [ err e ↦ err other | ok u ↦ ok u ], s'')
      ]

  unfoldable pub get_logs : (namespace layer run attempt : String) → Effect b.State (Result Bytes)
  unfolding compute_logs_key read
  get_logs namespace layer run attempt = read (compute_logs_key namespace layer run attempt)

  unfoldable pub put_logs :
      (namespace layer run attempt : String) (logs : Bytes) → Effect b.State (Result (Unit {0}))
  unfolding compute_logs_key write
  put_logs namespace layer run attempt logs =
      write (compute_logs_key namespace layer run attempt) logs

  unfoldable pub get_plan :
      (namespace layer run attempt format : String) → Effect b.State (Result Bytes)
  unfolding compute_plan_key read
  get_plan namespace layer run attempt format =
      read (compute_plan_key namespace layer run attempt format)

  unfoldable pub put_plan :
      (namespace layer run attempt format : String) (plan : Bytes)
      → Effect b.State (Result (Unit {0}))
  unfolding compute_plan_key write
  put_plan namespace layer run attempt format plan =
      write (compute_plan_key namespace layer run attempt format) plan

  unfoldable pub get_git_bundle :
      (namespace repository ref commit : String) → Effect b.State (Result Bytes)
  unfolding compute_git_bundle_key read
  get_git_bundle namespace repository ref commit =
      read (compute_git_bundle_key namespace repository ref commit)

  unfoldable pub put_git_bundle :
      (namespace repository ref commit : String) (bundle : Bytes)
      → Effect b.State (Result (Unit {0}))
  unfolding compute_git_bundle_key write
  put_git_bundle namespace repository ref commit bundle =
      write (compute_git_bundle_key namespace repository ref commit) bundle

  -- What `GetLatestLogs` and `GetLatestPlan` do with the latest attempt.
  unfoldable pub with_latest :
      (namespace layer run : String)
      → (String → Effect b.State (Result Bytes))
      → Effect b.State (Result Bytes)
  unfolding get_latest_attempt
  with_latest namespace layer run fetch s =
      let (latest, s') = get_latest_attempt b namespace layer run s in
      elim latest [
        | err e ↦ (err e, s')
        | ok attempt ↦ if attempt == "-1" then (err not_found, s') else fetch attempt s'
      ]

  unfoldable pub get_latest_logs : (namespace layer run : String) → Effect b.State (Result Bytes)
  unfolding with_latest get_logs
  get_latest_logs namespace layer run =
      with_latest namespace layer run (get_logs namespace layer run)

  unfoldable pub get_latest_plan :
      (namespace layer run format : String) → Effect b.State (Result Bytes)
  unfolding with_latest get_plan
  get_latest_plan namespace layer run format =
      with_latest namespace layer run (λ attempt. get_plan namespace layer run attempt format)
