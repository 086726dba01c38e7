-- ===== src/Server/Auth/Administrator.antt =====
-- The administrator who logs in by name and password.
use burrito.Base.{String, ◌≡◌, refl, true, false, Option, none, some, [], ◌∷◌, ◌++◌, eq_refl}
use burrito.Base.Dict.{lookup, lookup-insert}
use burrito.Base.Effect.{ok}
use burrito.Server.Auth.{
  Values, Outside, failed, BasicAuth, session_of, cleared, Context, admitted, handle_user_info,
  admin_session, saved_or_failed, basic_login, auth_middleware,
}
use burrito.Server.Auth.Routes.{Route, admit}
use burrito.Server.Auth.Cookies.{CookieLaws}

abbrev pub administrator : Context
administrator = record {
  user_id = some "admin";
  user_email = some "admin@burrito.tf";
  user_name = some "admin";
  user_picture = none;
}

-- The entries of an administrator's session, over what the session had before.
lookup-admin_session :
    (values : Values)
    → (lookup "user_id" (admin_session values) ≡ some "admin")
      × (lookup "email" (admin_session values) ≡ some "admin@burrito.tf")
      × (lookup "name" (admin_session values) ≡ some "admin")
      × (lookup "picture" (admin_session values) ≡ lookup "picture" values)
unfolding admin_session
lookup-admin_session values = simp lookup-insert (refl, refl, refl, refl)

auth_middleware-admin :
    (o : Outside) (values : Values) (cookie : Option String) (s : o.State)
    → lookup "picture" values ≡ none
    → o.get cookie s ≡ ok (admin_session values)
    → auth_middleware o cookie s ≡ admitted administrator
unfolding auth_middleware
auth_middleware-admin o values cookie s bare got =
    let (id, email, name, picture) = lookup-admin_session values in
    rw (got, id, email, name, picture, bare, auth_middleware) refl

module _ (o : Outside) (b : BasicAuth) (laws : CookieLaws o) where
  -- With the right name and password, and a session that can be saved and has no picture of the user, the
  -- cookie that is set gets the administrator past the authentication, and the request for the user's
  -- data then panics.
  pub basic_login_user_info :
      (s : o.State) (found : Option String) (cookie : String)
      → lookup "picture" (session_of (o.get found s)) ≡ none
      → (o.save (admin_session (session_of (o.get found s))) s).0 ≡ ok cookie
      → let (reply, s') = basic_login o b found b.username b.password s in
        (reply ≡ failed 200 (cleared (o.get found s) ++ (cookie ∷ [])))
        × (admit o false true Route.user_info (some cookie) s' ≡ admitted administrator)
        × (handle_user_info administrator ≡ none)
  unfolding basic_login saved_or_failed admit handle_user_info
  basic_login_user_info s found cookie bare saved =
      let values = session_of (o.get found s) in
      let kept = laws.save_saves (admin_session values) cookie s saved in
      rw (basic_login, eq_refl b.username, eq_refl b.password, saved_or_failed, saved)
        (
          refl,
          auth_middleware-admin o values (some cookie) (o.save (admin_session values) s).1 bare
              kept,
          refl,
        )
