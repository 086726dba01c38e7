-- ===== src/Datastore/Handlers.antt =====
-- internal/datastore/api/logs.go, plans.go and revisions.go: the datastore's HTTP handlers.
use burrito.Base.{
  ℕ, String, ◌==◌, Bool, ◌||◌, Option, none, some, List, [], ◌∷◌, eqb, if◌then◌else◌,
}
use burrito.Base.Effect.{Result, ok, err, ApiError, not_found, already_exists, other, Effect}
use burrito.Encryption.{Bytes, Crypto, Encryptor}
use burrito.Datastore.{Backend}
use burrito.Datastore.Storage.{
  check_git_bundle, get_logs, put_logs, get_plan, put_plan, get_git_bundle, put_git_bundle,
  get_latest_logs, get_latest_plan,
}

-- The query parameters, empty where they are not given.
pub record Query : Type 0 where
  pub namespace : String
  pub layer : String
  pub run : String
  pub attempt : String
  pub format : String
  pub name : String
  pub ref : String
  pub revision : String

-- The body of a response; the texts of errors are left out.
pub data Body : Type 0 where
  no_content : Body
  results : List Bytes → Body
  blob : Bytes → Body

pub record Response : Type 0 where
  pub status : ℕ
  pub body : Body

abbrev pub answer : ℕ → Body → Response
answer status body = record { status = status; body = body }

-- `strings.Split` at one byte: what is before the first, and the parts behind it.
unfoldable pub split_bytes : (separator : ℕ) (content : Bytes) → Bytes × List Bytes
split_bytes separator [] = ([], [])
split_bytes separator (c ∷ content) =
    let (first, others) = split_bytes separator content in
    if eqb c separator then ([], first ∷ others) else (c ∷ first, others)

-- `getLogsArgs` and `getPlanArgs` fail.
unfoldable pub misses_run : Query → Bool
misses_run q = q.namespace == "" || (q.layer == "" || q.run == "")

-- The format of `getPlanArgs`.
unfoldable pub plan_format : Query → String
plan_format q = if q.format == "" then "json" else q.format

-- `getRevisionArgs` fails, or there is no revision.
unfoldable pub misses_revision : Query → Bool
misses_revision q = q.namespace == "" || (q.name == "" || q.ref == "") || q.revision == ""

-- The status of a failed read: a `StorageError` that says so is not found.
unfoldable pub error_response : ApiError → Response
error_response not_found = answer 404 no_content
error_response already_exists = answer 500 no_content
error_response other = answer 500 no_content

module _ (b : Backend) (crypto : Crypto b.State) (manager : Option Encryptor) where
  unfoldable pub get_logs_handler : Query → Effect b.State Response
  unfolding misses_run get_latest_logs get_logs
  get_logs_handler q s =
      let fetch =
        if q.attempt == ""
        then get_latest_logs b crypto manager q.namespace q.layer q.run
        else get_logs b crypto manager q.namespace q.layer q.run q.attempt in
      let (content, s') = fetch s in
      if misses_run q then (answer 400 no_content, s) else (
        elim content [
          | err e ↦ error_response e
          | ok logs ↦
              let (first, others) = split_bytes 10 logs in answer 200 (results (first ∷ others))
        ],
        s',
      )

  -- What a handler of uploads answers; the request's body is none when it cannot be read.
  unfoldable pub store :
      (upload : Option Bytes)
      → (Bytes → Effect b.State (Result (Unit {0})))
      → Effect b.State Response
  store none put s = (answer 400 no_content, s)
  store (some content) put s =
      let (stored, s') = put content s in
      (elim stored [ err e ↦ answer 500 no_content | ok u ↦ answer 200 no_content ], s')

  unfoldable pub put_logs_handler : Query → (upload : Option Bytes) → Effect b.State Response
  unfolding misses_run store put_logs
  put_logs_handler q upload s =
      let stored = store upload (put_logs b crypto manager q.namespace q.layer q.run q.attempt) s in
      if q.attempt == "" || misses_run q then (answer 400 no_content, s) else stored

  unfoldable pub get_plan_handler : Query → Effect b.State Response
  unfolding misses_run plan_format get_latest_plan get_plan
  get_plan_handler q s =
      let fetch =
        if q.attempt == ""
        then get_latest_plan b crypto manager q.namespace q.layer q.run (plan_format q)
        else get_plan b crypto manager q.namespace q.layer q.run q.attempt (plan_format q) in
      let (content, s') = fetch s in
      if misses_run q
      then (answer 400 no_content, s)
      else (elim content [ err e ↦ error_response e | ok plan ↦ answer 200 (blob plan) ], s')

  unfoldable pub put_plan_handler : Query → (upload : Option Bytes) → Effect b.State Response
  unfolding misses_run plan_format store put_plan
  put_plan_handler q upload s =
      let put = put_plan b crypto manager q.namespace q.layer q.run q.attempt (plan_format q) in
      let stored = store upload put s in
      if misses_run q || (q.attempt == "" || plan_format q == "")
      then (answer 400 no_content, s)
      else stored

  unfoldable pub put_git_bundle_handler : Query → (upload : Option Bytes) → Effect b.State Response
  unfolding misses_revision store put_git_bundle
  put_git_bundle_handler q upload s =
      let put = put_git_bundle b crypto manager q.namespace q.name q.ref q.revision in
      let stored = store upload put s in
      if misses_revision q then (answer 400 no_content, s) else stored

  unfoldable pub head_git_bundle_handler : Query → Effect b.State Response
  unfolding misses_revision check_git_bundle
  head_git_bundle_handler q s =
      let (checksum, s') = check_git_bundle b q.namespace q.name q.ref q.revision s in
      if misses_revision q
      then (answer 400 no_content, s)
      else (elim checksum [ err e ↦ error_response e | ok sum ↦ answer 200 (blob sum) ], s')

  unfoldable pub get_git_bundle_handler : Query → Effect b.State Response
  unfolding misses_revision get_git_bundle
  get_git_bundle_handler q s =
      let (content, s') = get_git_bundle b crypto manager q.namespace q.name q.ref q.revision s in
      if misses_revision q
      then (answer 400 no_content, s)
      else (elim content [ err e ↦ error_response e | ok bundle ↦ answer 200 (blob bundle) ], s')
