-- ===== src/Server/Auth/Routes.antt =====
-- internal/server/server.go: the routes, and those that need a session.
use burrito.Base.{String, Bool, true, false, ◌&&◌, Option, none, some, if◌then◌else◌}
use burrito.Base.Dict.{lookup}
use burrito.Base.Effect.{ok, err}
use burrito.Server.Auth.{Outside, Context, Admission, admitted, auth_middleware}

-- The routes that `Exec` registers.
pub data Route : Type 0 where
  login callback logout auth_type user_info : Route
  webhook healthz root : Route
  layers sync apply repositories logs attempts : Route

-- The webhook is registered before the group of `/api` gets its middleware.
unfoldable pub needs_session : Route → Bool
needs_session user_info = true
needs_session layers = true
needs_session sync = true
needs_session apply = true
needs_session repositories = true
needs_session logs = true
needs_session attempts = true
needs_session _ = false

abbrev nobody : Context
nobody = record { user_id = none; user_email = none; user_name = none; user_picture = none }

module _ (o : Outside) (oidc_enabled basic_enabled : Bool) where
  abbrev pub get_auth_enabled : Bool
  get_auth_enabled = if oidc_enabled then true else basic_enabled

  -- Whether a request gets to the handler of its route, and with which user.
  unfoldable pub admit : Route → Option String → o.State → Admission
  unfolding needs_session auth_middleware
  admit route cookie s =
      if get_auth_enabled && needs_session route
      then auth_middleware o cookie s
      else admitted nobody

  -- Where the root of the server redirects to.
  unfoldable pub root_location : Option String → o.State → String
  root_location cookie s =
      if get_auth_enabled
      then elim (o.get cookie s) [
        | err e ↦ "/login"
        | ok values ↦ elim (lookup "user_id" values) [ none ↦ "/login" | some id ↦ "/layers" ]
      ]
      else "/layers"
