-- ===== src/Server/Auth/Admitted.antt =====
-- Who gets past the authentication, over any sequence of requests.
use burrito.Base.{
  String, ◌≡◌, ◌≢◌, ◌⊎◌, inl, inr, refl, sym, subst, ◌∙◌, Bool, true, false, ◌&&◌, Option, none,
  some, [], Bool-cases, Option-cases, ◌==◌, arith, eq_iff,
}
use burrito.Base.Dict.{lookup, insert, lookup-insert}
use burrito.Base.Effect.{ok, err, ApiError, Result-cases}
use burrito.Server.Auth.{
  Values, Outside, Reply, redirect, BasicAuth, session_of, cleared, refused, saved_or_failed,
  basic_login, oauth_login, identify, identified, handle_callback, handle_logout, auth_middleware,
}
use burrito.Server.Auth.Routes.{
  Route, user_info, layers, sync, apply, repositories, logs, attempts, needs_session,
  get_auth_enabled, admit,
}
use burrito.Server.Auth.Cookies.{CookieLaws}

abbrev pub HasNoUser : Values → Type 0
HasNoUser values = lookup "user_id" values ≡ none

-- What only a user may see or ask for: the data of the user, and the routes of the API but the webhook.
pub data Private : Route → Type 0 where
  the_user : Private user_info
  the_layers : Private layers
  a_sync : Private sync
  an_apply : Private apply
  the_repositories : Private repositories
  the_logs : Private logs
  the_attempts : Private attempts

needs_session-Private : (route : Route) → Private route → needs_session route ≡ true
unfolding needs_session
needs_session-Private route the_user = refl
needs_session-Private route the_layers = refl
needs_session-Private route a_sync = refl
needs_session-Private route an_apply = refl
needs_session-Private route the_repositories = refl
needs_session-Private route the_logs = refl
needs_session-Private route the_attempts = refl

module _ (o : Outside) (b : BasicAuth) where
  -- The states that requests lead to of which none logs in: with a wrong name or password, with a state that
  -- is not the one of the session, or with a code that stands for nobody.
  pub data Unidentified : o.State → o.State → Type 0 where
    start : (s : o.State) → Unidentified s s
    wrong_password :
        {s0 : o.State} (s : o.State) (cookie : Option String) (username password : String)
        → (username == b.username) && (password == b.password) ≡ false
        → Unidentified s0 s
        → Unidentified s0 (basic_login o b cookie username password s).1
    login_begun :
        {s0 : o.State} (s : o.State) (cookie : Option String)
        → Unidentified s0 s
        → Unidentified s0 (oauth_login o cookie s).1
    forged_state :
        {s0 : o.State} (s : o.State) (cookie : Option String) (state code : String)
        → ((values : Values)
            → o.get cookie s ≡ ok values
            → lookup "oauth_state" values ≢ some state)
        → Unidentified s0 s
        → Unidentified s0 (handle_callback o cookie state code s).1
    wrong_code :
        {s0 : o.State} (s : o.State) (cookie : Option String) (state code : String) (e : ApiError)
        → (identify o code s).0 ≡ err e
        → Unidentified s0 s
        → Unidentified s0 (handle_callback o cookie state code s).1
    logged_out :
        {s0 : o.State} (s : o.State) (cookie : Option String)
        → Unidentified s0 s
        → Unidentified s0 (handle_logout o cookie s).1

  module _ (laws : CookieLaws o) where
    open laws use {IsSaved}

    abbrev NoUsers : o.State → Type 0
    NoUsers s = (values : Values) → IsSaved values s → HasNoUser values

    got-HasNoUser :
        (cookie : Option String) (s : o.State) → NoUsers s → HasNoUser (session_of (o.get cookie s))
    unfolding lookup
    got-HasNoUser cookie s only = elim (Result-cases (o.get cookie s)) [
      | inr (e, none_got) ↦ rw none_got refl
      | inl (values, got) ↦ elim (laws.get_saved cookie values s got) [
        | inl fresh ↦ rw (got, fresh) refl
        | inr before ↦ rw got (only values before)
      ]
    ]

    saved_or_failed-NoUsers :
        (reply : Reply) (values : Values) (s : o.State)
        → HasNoUser values
        → NoUsers s
        → NoUsers (saved_or_failed o reply (o.save values) s).1
    unfolding saved_or_failed
    saved_or_failed-NoUsers reply values s bare only =
        let after : NoUsers (o.save values s).1 = λ other h.
          elim (laws.save_frame values other s h) [
            | inl same ↦ subst HasNoUser (sym same) bare
            | inr before ↦ only other before
          ] in
        elim (Result-cases (o.save values s).0) [
          | inr (e, bad) ↦ rw (bad, saved_or_failed) after
          | inl (cookie, saved) ↦ rw (saved, saved_or_failed) after
        ]

    oauth_login-NoUsers :
        (cookie : Option String) (s : o.State) → NoUsers s → NoUsers (oauth_login o cookie s).1
    unfolding oauth_login
    oauth_login-NoUsers cookie s only =
        let state = (o.random_text s).0 in
        let s1 = (o.random_text s).1 in
        let only1 : NoUsers s1 = λ values h. only values (laws.random_frame values s h) in
        let found = session_of (o.get cookie s1) in
        saved_or_failed-NoUsers (redirect 307 (o.auth_code_url state) (cleared (o.get cookie s1)))
          (insert "oauth_state" state found) s1
          (lookup-insert "oauth_state" "user_id" state found ∙ got-HasNoUser cookie s1 only1) only1

    identify-NoUsers : (code : String) (s : o.State) → NoUsers s → NoUsers (identify o code s).1
    unfolding identify
    identify-NoUsers code s only =
        let s1 = (o.exchange code s).1 in
        let only1 : NoUsers s1 = λ values h. only values (laws.exchange_frame values code s h) in
        elim (Result-cases (o.exchange code s).0) [
          | inr (e, bad) ↦ rw (bad, identify) only1
          | inl (answer, exchanged) ↦ elim (Option-cases answer) [
            | inl no_token ↦ rw (exchanged, no_token, identify) only1
            | inr (token, given) ↦
                rw (exchanged, given, identify)
                  (λ values h. only1 values (laws.verify_frame values token s1 h))
          ]
        ]

    callback-NoUsers :
        (cookie : Option String) (state code : String) (s : o.State)
        → ((values : Values)
            → o.get cookie s ≡ ok values
            → (lookup "oauth_state" values ≢ some state)
              ⊎ ((e : ApiError) × ((identify o code s).0 ≡ err e)))
        → NoUsers s
        → NoUsers (handle_callback o cookie state code s).1
    unfolding handle_callback identified
    callback-NoUsers cookie state code s wrong only = elim (Result-cases (o.get cookie s)) [
      | inr (e, none_got) ↦ rw (none_got, handle_callback) only
      | inl (values, got) ↦ elim (Option-cases (lookup "oauth_state" values)) [
        | inl absent ↦ rw (got, absent, handle_callback) only
        | inr (expected, there) ↦ elim (Bool-cases (state == expected)) [
          | inr differs ↦ rw (got, there, differs, handle_callback) only
          | inl same ↦ elim (wrong values got) [
            | inl forged ↦ absurd (forged (ground (arith, there, same, eq_iff state expected)))
            | inr (e, nobody) ↦
                rw (got, there, same, handle_callback, nobody, identified)
                  (identify-NoUsers code s only)
          ]
        ]
      ]
    ]

    Unidentified-NoUsers : (s0 s : o.State) → Unidentified s0 s → NoUsers s0 → NoUsers s
    unfolding basic_login handle_logout lookup
    Unidentified-NoUsers s0 s (start _) only = only
    Unidentified-NoUsers s0 s (wrong_password s1 cookie username password wrong r) only =
        rw (wrong, basic_login) (Unidentified-NoUsers s0 s1 r only)
    Unidentified-NoUsers s0 s (login_begun s1 cookie r) only =
        oauth_login-NoUsers cookie s1 (Unidentified-NoUsers s0 s1 r only)
    Unidentified-NoUsers s0 s (forged_state s1 cookie state code forged r) only =
        callback-NoUsers cookie state code s1 (λ values got. inl (forged values got))
          (Unidentified-NoUsers s0 s1 r only)
    Unidentified-NoUsers s0 s (wrong_code s1 cookie state code e nobody r) only =
        callback-NoUsers cookie state code s1 (λ values got. inr (e, nobody))
          (Unidentified-NoUsers s0 s1 r only)
    Unidentified-NoUsers s0 s (logged_out s1 cookie r) only =
        saved_or_failed-NoUsers (redirect 307 "/login" []) [] s1 refl
          (Unidentified-NoUsers s0 s1 r only)

    -- With authentication enabled, from a state in which no session is saved, and after any sequence of
    -- requests of which none logs in (a wrong name or password, a wrong state, or a code that stands for
    -- nobody), a request for what only a user may see or ask for is refused with 401, whatever its cookie.
    pub Unidentified-is_refused :
        (s0 s : o.State) (oidc_enabled basic_enabled : Bool) (route : Route)
        (cookie : Option String)
        → ((values : Values) → IsSaved values s0 → ⊥)
        → Unidentified s0 s
        → get_auth_enabled o oidc_enabled basic_enabled ≡ true
        → Private route
        → admit o oidc_enabled basic_enabled route cookie s ≡ refused 401
    unfolding admit auth_middleware
    Unidentified-is_refused s0 s oidc_enabled basic_enabled route cookie empty r enabled private =
        let needs = needs_session-Private route private in
        let bare =
          got-HasNoUser cookie s
            (Unidentified-NoUsers s0 s r (λ values h. absurd (empty values h))) in
        elim (Result-cases (o.get cookie s)) [
          | inr (e, none_got) ↦ rw (enabled, needs, admit, none_got, auth_middleware) refl
          | inl (values, got) ↦
              rw (enabled, needs, admit, got, rw got at bare, auth_middleware) refl
        ]
