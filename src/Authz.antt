-- ===== src/Authz.antt =====
-- internal/utils/authz/middleware.go: who may call the datastore. The cache of tokens and the token review of
-- Kubernetes are parameters.
pub mod Allowed
use burrito.Base.{
  ℕ, String, ◌<>◌, Bool, true, false, Option, none, some, List, [], ◌∷◌, ◌++◌, ◌==◌, if◌then◌else◌,
  not,
}
use burrito.Base.Effect.{Result, ok, err, Effect}

pub record Authz : Type 0 where
  pub audience : String
  pub service_accounts : List String

-- `cache.Cache`, of a token to a user, and `TokenReviews().Create`: whether the token is authenticated,
-- and its user.
pub record Cluster : Type 1 where
  pub State : Type 0
  pub get : State → (token : String) → Option String
  pub set : (token user : String) → State → State
  pub review : State → (token audience : String) → Result (Bool × String)

-- The next handler is called for a user, or the request is refused with an HTTP status.
pub data Answer : Type 0 where
  next : (user : String) → Answer
  refused : (status : ℕ) → Answer

unfoldable pub add_service_account : (namespace name : String) → Authz → Authz
add_service_account namespace name a = record a {
  service_accounts =
      a.service_accounts ++ (("system:serviceaccount:" <> (namespace <> (":" <> name))) ∷ []);
}

unfoldable pub is_service_account_allowed : List String → (username : String) → Bool
is_service_account_allowed [] username = false
is_service_account_allowed (sa ∷ accounts) username =
    let rest = is_service_account_allowed accounts username in if sa == username then true else rest

module _ (a : Authz) (c : Cluster) where
  unfoldable pub reviewed : (token : String) → Result (Bool × String) → Effect c.State Answer
  unfolding is_service_account_allowed
  reviewed token (err e) s = (refused 500, s)
  reviewed token (ok (authenticated, user)) s =
      if not authenticated
      then (refused 401, s)
      else if not (is_service_account_allowed a.service_accounts user)
      then (refused 401, s)
      else (next user, c.set token user s)

  unfoldable pub looked_up : (token : String) → Option String → Effect c.State Answer
  unfolding reviewed
  looked_up token (some user) s = (next user, s)
  looked_up token none s = reviewed token (c.review s token a.audience) s

  -- `Process`, by the `Authorization` header of a request.
  unfoldable pub process : (token : String) → Effect c.State Answer
  unfolding looked_up
  process token s = if token == "" then (refused 401, s) else looked_up token (c.get s token) s
