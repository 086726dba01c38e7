-- ===== src/Datastore/Server.antt =====
-- internal/datastore/datastore.go: the routes of the datastore's server behind its authorisation. The
-- route of the encryption is in Migration.
use burrito.Base.{String, Option, none, some, List, [], ◌∷◌}
use burrito.Base.Effect.{Effect}
use burrito.Base.Text.{split}
use burrito.Encryption.{Crypto, Encryptor}
use burrito.Authz.{Authz, Cluster, next, refused, process, add_service_account}
use burrito.Datastore.{Backend}
use burrito.Datastore.Handlers.{
  Response, answer, no_content, get_logs_handler, put_logs_handler, get_plan_handler,
  put_plan_handler, put_git_bundle_handler, head_git_bundle_handler, get_git_bundle_handler,
}
use burrito.Datastore.Client.{Method, get, put, head, Route, logs, plans, bundles, Request}

-- The loop over the authorized service accounts; none where one has no slash, which is a panic.
unfoldable pub authorize : List String → Authz → Option Authz
authorize [] a = some a
authorize (sa ∷ accounts) a =
    let (namespace, rest) = split 47 sa in
    elim rest [
      | [] ↦ none
      | name ∷ others ↦ authorize accounts (add_service_account namespace name a)
    ]

unfoldable pub new_authz : List String → Option Authz
unfolding authorize
new_authz accounts = elim (authorize accounts (record { audience = ""; service_accounts = [] })) [
  | none ↦ none
  | some a ↦ some (record a { audience = "burrito" })
]

module _ (b : Backend) (crypto : Crypto b.State) (manager : Option Encryptor) where
  -- The handler of a route and method, if it has one.
  unfoldable pub handle : Route → Method → Request → Effect b.State Response
  handle logs get req = get_logs_handler b crypto manager req.query
  handle logs put req = put_logs_handler b crypto manager req.query req.upload
  handle logs head req = λ s. (answer 405 no_content, s)
  handle plans get req = get_plan_handler b crypto manager req.query
  handle plans put req = put_plan_handler b crypto manager req.query req.upload
  handle plans head req = λ s. (answer 405 no_content, s)
  handle bundles get req = get_git_bundle_handler b crypto manager req.query
  handle bundles put req = put_git_bundle_handler b crypto manager req.query req.upload
  handle bundles head req = head_git_bundle_handler b crypto manager req.query

  -- One request, through `authz.Process`.
  unfoldable pub serve : Authz → (c : Cluster) → Request → Effect (c.State × b.State) Response
  unfolding handle
  serve a c req (sa, sb) =
      let (passed, sa') = process a c req.token sa in
      elim passed [
        | refused status ↦ (answer status no_content, (sa', sb))
        | next user ↦ let (resp, sb') = handle req.route req.method req sb in (resp, (sa', sb'))
      ]
