-- ===== src/Server/Auth.antt =====
-- internal/server/auth, internal/server/utils/sessions.go and the middleware of
-- internal/server/server.go: logins and sessions. The store of session cookies, the provider of identities,
-- the random source and the secret with the administrator's credentials are the parameter `Outside`.
pub mod Routes
pub mod Cookies
pub mod Admitted
pub mod Administrator
use burrito.Base.{
  ℕ, String, Bool, true, false, ◌&&◌, Option, none, some, List, [], ◌∷◌, ◌++◌, ◌==◌, if◌then◌else◌,
}
use burrito.Base.Dict.{Dict, lookup, insert, remove, lookup_or_empty}
use burrito.Base.Effect.{Result, ok, err, ApiError, not_found, already_exists, other, Effect}

-- What the source stores in a session are texts.
abbrev pub Values : Type 0
Values = Dict String

pub record Claims : Type 0 where
  pub sub : String
  pub email : String
  pub name : String
  pub picture : String

-- The claims of a token are an error where it cannot be verified or they cannot be extracted.
pub record Outside : Type 1 where
  pub State : Type 0
  -- `session.Get`, by the cookie of a request: an error comes with a new session
  pub get : (cookie : Option String) → State → Result Values
  -- `sess.Save`, and the cookie that it sets
  pub save : Values → Effect State (Result String)
  pub random_text : Effect State String
  -- `Exchange`, and the `id_token` of the answer if it has one
  pub exchange : (code : String) → Effect State (Result (Option String))
  pub verify : (id_token : String) → Effect State (Result Claims)
  pub auth_code_url : (state : String) → String
  pub get_admin_secret : State → Result (Dict String)
  pub create_admin_secret : Dict String → Effect State (Result (Unit {0}))

-- An answer: its status, where it redirects to, and the cookies that it sets, a removed one empty.
pub record Reply : Type 0 where
  pub status : ℕ
  pub location : String
  pub cookies : List String

abbrev pub failed : ℕ → List String → Reply
failed status cookies = record { status = status; location = ""; cookies = cookies }

abbrev pub redirect : ℕ → String → List String → Reply
redirect status location cookies = record {
  status = status;
  location = location;
  cookies = cookies;
}

pub record BasicAuth : Type 0 where
  pub username : String
  pub password : String

abbrev pub session_of : Result Values → Values
session_of (ok values) = values
session_of (err e) = []

-- `RemoveSessionCookie` where the session cannot be had.
abbrev pub cleared : Result Values → List String
cleared (ok values) = []
cleared (err e) = "" ∷ []

-- The user's entries of a request's context.
pub record Context : Type 0 where
  pub user_id : Option String
  pub user_email : Option String
  pub user_name : Option String
  pub user_picture : Option String

pub data Admission : Type 0 where
  admitted : Context → Admission
  refused : (status : ℕ) → Admission

pub data InfoAnswer : Type 0 where
  info : (email name id picture : String) → InfoAnswer
  not_authenticated : InfoAnswer

-- `HandleUserInfo`; none where one of the entries is missing, which is a panic.
unfoldable pub handle_user_info : Context → Option InfoAnswer
handle_user_info c = elim c.user_id [
  | none ↦ some not_authenticated
  | some id ↦ elim c.user_email [
    | none ↦ none
    | some email ↦ elim c.user_name [
      | none ↦ none
      | some name ↦ elim c.user_picture [
        | none ↦ none
        | some picture ↦ some (info email name id picture)
      ]
    ]
  ]
]

-- The session of an administrator.
unfoldable pub admin_session : Values → Values
admin_session values =
    insert "name" "admin" (insert "email" "admin@burrito.tf" (insert "user_id" "admin" values))

unfoldable pub user_session : Claims → Values → Values
user_session claims values = remove "oauth_state" (
    insert "picture" claims.picture (
      insert "name" claims.name (insert "email" claims.email (insert "user_id" claims.sub values))))

module _ (o : Outside) where
  open o use {
    State, get, save, random_text, exchange, verify, auth_code_url, get_admin_secret,
    create_admin_secret,
  }

  abbrev credentials_of : Dict String → BasicAuth
  credentials_of secret = record {
    username = lookup_or_empty "username" secret;
    password = lookup_or_empty "password" secret;
  }

  -- `basic.New`
  unfoldable pub new_basic : Effect State (Result BasicAuth)
  new_basic s = elim (get_admin_secret s) [
    | ok secret ↦ (ok (credentials_of secret), s)
    | err e ↦ elim e [
      | other ↦ (err other, s)
      | already_exists ↦ (err other, s)
      | not_found ↦
          let (password, s1) = random_text s in
          let secret = ("username", "admin") ∷ ("password", password) ∷ [] in
          let (created, s2) = create_admin_secret secret s1 in
          (elim created [ err x ↦ err other | ok u ↦ ok (credentials_of secret) ], s2)
    ]
  ]

  -- What a login answers once its session is saved.
  unfoldable pub saved_or_failed : Reply → Effect State (Result String) → Effect State Reply
  saved_or_failed reply saving s =
      let (saved, s') = saving s in
      elim saved [
        | err e ↦ (failed 500 reply.cookies, s')
        | ok cookie ↦ (record reply { cookies = reply.cookies ++ (cookie ∷ []) }, s')
      ]

  -- `HandleLogin` of basic authentication.
  unfoldable pub basic_login :
      BasicAuth → Option String → (username password : String) → Effect State Reply
  unfolding admin_session saved_or_failed
  basic_login b cookie username password s =
      let found = get cookie s in
      let saved =
        saved_or_failed (failed 200 (cleared found)) (save (admin_session (session_of found))) s in
      if (username == b.username) && (password == b.password) then saved else (failed 401 [], s)

  -- `HandleLogin` of OAuth.
  unfoldable pub oauth_login : Option String → Effect State Reply
  unfolding saved_or_failed
  oauth_login cookie s =
      let (state, s1) = random_text s in
      let found = get cookie s1 in
      saved_or_failed (redirect 307 (auth_code_url state) (cleared found))
        (save (insert "oauth_state" state (session_of found))) s1

  -- Whom a code stands for: the exchange, the `id_token`, its verification and its claims.
  unfoldable pub identify : (code : String) → Effect State (Result Claims)
  identify code s =
      let (token, s1) = exchange code s in
      elim token [
        | err e ↦ (err other, s1)
        | ok answer ↦ elim answer [ none ↦ (err other, s1) | some raw ↦ verify raw s1 ]
      ]

  unfoldable pub identified : Values → (code : String) → Effect State Reply
  unfolding identify user_session saved_or_failed
  identified values code s =
      let (claims, s') = identify code s in
      elim claims [
        | err e ↦ (failed 500 [], s')
        | ok user ↦ saved_or_failed (redirect 307 "/layers" []) (save (user_session user values)) s'
      ]

  -- `HandleCallback` of OAuth, by the parameters `state` and `code`.
  unfoldable pub handle_callback : Option String → (state code : String) → Effect State Reply
  unfolding identified
  handle_callback cookie state code s = elim (get cookie s) [
    | err e ↦ (failed 500 [], s)
    | ok values ↦ elim (lookup "oauth_state" values) [
      | none ↦ (failed 400 [], s)
      | some expected ↦ if state == expected then identified values code s else (failed 400 [], s)
    ]
  ]

  -- `HandleLogout` and `InvalidateSession`; the cookie is set with an age at which it is dropped.
  unfoldable pub handle_logout : Option String → Effect State Reply
  unfolding saved_or_failed
  handle_logout cookie s = saved_or_failed (redirect 307 "/login" []) (save []) s

  unfoldable pub auth_middleware : Option String → State → Admission
  auth_middleware cookie s = elim (get cookie s) [
    | err e ↦ refused 401
    | ok values ↦ elim (lookup "user_id" values) [
      | none ↦ refused 401
      | some id ↦ admitted (record {
        user_id = some id;
        user_email = lookup "email" values;
        user_name = lookup "name" values;
        user_picture = lookup "picture" values;
      })
    ]
  ]
