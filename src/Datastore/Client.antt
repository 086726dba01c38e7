-- ===== src/Datastore/Client.antt =====
-- internal/datastore/client/client.go: the datastore's client. The token file, the network and the
-- decoding of JSON are the parameter `Transport`.
use burrito.Base.{ℕ, String, Bool, true, false, Option, none, some, List, eqb, if◌then◌else◌}
use burrito.Base.Effect.{Result, ok, err, not_found, other, Effect}
use burrito.Encryption.{Bytes}
use burrito.Datastore.Handlers.{Query, Body}

pub data Method : Type 0 where
  get put head : Method

-- `/api/logs`, `/api/plans` and `/api/repository/revision/bundle`
pub data Route : Type 0 where
  logs plans bundles : Route

pub record Request : Type 0 where
  pub method : Method
  pub route : Route
  pub query : Query
  pub token : String
  pub upload : Option Bytes

-- A response; its body is none when it cannot be read to its end.
pub record Received : Type 0 where
  pub status : ℕ
  pub body : Option Body

pub record Transport : Type 1 where
  pub State : Type 0
  -- whether `http.NewRequest` takes the URL
  pub accepts_url : Route → Query → Bool
  pub read_token : State → Result String
  pub send : Request → Effect State (Result Received)
  -- `json.Unmarshal` into a `GetLogsResponse`, and the bytes of a body
  pub unmarshal : Body → Result (List Bytes)
  pub raw : Body → Bytes

abbrev pub attempt_query : (namespace layer run attempt format : String) → Query
attempt_query namespace layer run attempt format = record {
  namespace = namespace;
  layer = layer;
  run = run;
  attempt = attempt;
  format = format;
  name = "";
  ref = "";
  revision = "";
}

abbrev pub revision_query : (namespace name ref revision : String) → Query
revision_query namespace name ref revision = record {
  namespace = namespace;
  layer = "";
  run = "";
  attempt = "";
  format = "";
  name = name;
  ref = ref;
  revision = revision;
}

-- An error that is no `StorageError`, or the one for a status of 404.
abbrev pub with_status {ℓ} : {A : Type ℓ} → Received → Result A → Result A
with_status resp found =
    if eqb resp.status 404 then err not_found else if eqb resp.status 200 then found else err other

-- For the calls without an answer of their own for 404.
abbrev pub stored_if_ok : Received → Result (Unit {0})
stored_if_ok resp = if eqb resp.status 200 then ok tt else err other

abbrev pub is_there : Received → Result Bool
is_there resp =
    if eqb resp.status 404 then ok false else if eqb resp.status 200 then ok true else err other

module _ (t : Transport) where
  open t use {State, accepts_url, read_token, send, unmarshal, raw}

  unfoldable pub build_request : Route → Query → Method → Option Bytes → State → Result Request
  build_request route query method upload s =
      if accepts_url route query
      then elim (read_token s) [
        | err e ↦ err other
        | ok token ↦ ok (record {
          method = method;
          route = route;
          query = query;
          token = token;
          upload = upload;
        })
      ]
      else err other

  -- `client.Do`, and what is made of the response.
  unfoldable pub do_request {ℓ} :
      {A : Type ℓ} → (Received → Result A) → Request → State → Result A × State
  do_request answer req s =
      let (resp, s') = send req s in
      (elim resp [ err e ↦ err other | ok received ↦ answer received ], s')

  unfoldable pub body_of : Received → Result Bytes
  body_of resp = elim resp.body [ none ↦ err other | some body ↦ ok (raw body) ]

  unfoldable pub lines_of : Received → Result (List Bytes)
  lines_of resp = elim resp.body [ none ↦ err other | some body ↦ unmarshal body ]

  unfoldable pub fetch {ℓ} :
      {A : Type ℓ} → Route → Query → Method → (Received → Result A) → State → Result A × State
  unfolding build_request do_request
  fetch route query method answer s = elim (build_request route query method none s) [
    | err e ↦ (err other, s)
    | ok req ↦ do_request answer req s
  ]

  unfoldable pub get_plan :
      (namespace layer run attempt format : String) → Effect State (Result Bytes)
  unfolding fetch body_of
  get_plan namespace layer run attempt format =
      fetch plans (attempt_query namespace layer run attempt format) get
        (λ resp. with_status resp (body_of resp))

  unfoldable pub get_logs :
      (namespace layer run attempt : String) → Effect State (Result (List Bytes))
  unfolding fetch lines_of
  get_logs namespace layer run attempt =
      fetch logs (attempt_query namespace layer run attempt "") get
        (λ resp. with_status resp (lines_of resp))

  -- `PutPlan` and `PutLogs` set a header of the request before they look at the error: with no request
  -- that is a panic, which is none.
  unfoldable pub upload_attempt : Route → Query → Bytes → State → Option (Result (Unit {0})) × State
  unfolding build_request do_request
  upload_attempt route query content s = elim (build_request route query put (some content) s) [
    | err e ↦ (none, s)
    | ok req ↦ let (done, s') = do_request stored_if_ok req s in (some done, s')
  ]

  unfoldable pub put_plan :
      (namespace layer run attempt format : String) (content : Bytes)
      → Effect State (Option (Result (Unit {0})))
  unfolding upload_attempt
  put_plan namespace layer run attempt format content =
      upload_attempt plans (attempt_query namespace layer run attempt format) content

  unfoldable pub put_logs :
      (namespace layer run attempt : String) (content : Bytes)
      → Effect State (Option (Result (Unit {0})))
  unfolding upload_attempt
  put_logs namespace layer run attempt content =
      upload_attempt logs (attempt_query namespace layer run attempt "") content

  unfoldable pub put_git_bundle :
      (namespace name ref revision : String) (bundle : Bytes) → Effect State (Result (Unit {0}))
  unfolding build_request do_request
  put_git_bundle namespace name ref revision bundle s =
      elim (build_request bundles (revision_query namespace name ref revision) put (some bundle)
        s) [ err e ↦ (err other, s) | ok req ↦ do_request stored_if_ok req s ]

  unfoldable pub check_git_bundle :
      (namespace name ref revision : String) → Effect State (Result Bool)
  unfolding fetch
  check_git_bundle namespace name ref revision =
      fetch bundles (revision_query namespace name ref revision) head is_there

  unfoldable pub get_git_bundle :
      (namespace name ref revision : String) → Effect State (Result Bytes)
  unfolding fetch body_of
  get_git_bundle namespace name ref revision =
      fetch bundles (revision_query namespace name ref revision) get
        (λ resp. with_status resp (body_of resp))
