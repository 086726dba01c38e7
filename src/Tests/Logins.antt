-- ===== src/Tests/Logins.antt =====
-- The theorems on logins, at concrete requests.
use burrito.Base.{
  String, ◌≡◌, ◌⊎◌, inl, inr, refl, sym, ap, true, false, Option, none, some, [], ◌∷◌, ◌++◌, ◌==◌,
  Bool-cases, arith,
}
use burrito.Base.Dict.{Dict, lookup, insert, lookup-insert, lookup-insert_same}
use burrito.Base.Effect.{Result, ok, err, not_found, other}
use burrito.Server.Auth.{
  Values, Outside, BasicAuth, failed, refused, admitted, cleared, basic_login, oauth_login,
  handle_user_info,
}
use burrito.Server.Auth.Routes.{Route, admit}
use burrito.Server.Auth.Cookies.{CookieLaws}
use burrito.Server.Auth.Admitted.{
  the_layers, start, wrong_password, login_begun, Unidentified-is_refused,
}
use burrito.Server.Auth.Administrator.{administrator, basic_login_user_info}

-- A store that keeps the session of each cookie.
abbrev session_at : Option Values → Result Values
session_at none = err other
session_at (some values) = ok values

abbrev got : Option String → Dict Values → Result Values
got none s = ok []
got (some cookie) s = session_at (lookup cookie s)

abbrev store : Outside
store = record {
  State = Dict Values;
  get = got;
  save = λ values s. (ok "session", insert "session" values s);
  random_text = λ s. ("state", s);
  exchange = λ code s. (ok none, s);
  verify = λ token s. (err other, s);
  auth_code_url = λ state. state;
  get_admin_secret = λ s. err not_found;
  create_admin_secret = λ secret s. (ok tt, s);
}

abbrev Saved : Values → Dict Values → Type 0
Saved values s = (cookie : String) × (lookup cookie s ≡ some values)

saved_at : (o : Option Values) (values : Values) → session_at o ≡ ok values → o ≡ some values
saved_at none values h = cc
saved_at (some v) values h = cc

got-Saved :
    (cookie : Option String) (values : Values) (s : Dict Values)
    → got cookie s ≡ ok values
    → (values ≡ []) ⊎ Saved values s
got-Saved none values s h = inl cc
got-Saved (some cookie) values s h = inr (cookie, saved_at (lookup cookie s) values h)

just_saved :
    (values : Values) (cookie : String) (s : Dict Values)
    → ok "session" ≡ ok cookie
    → got (some cookie) (insert "session" values s) ≡ ok values
just_saved values cookie s h =
    let same : "session" ≡ cookie = cc in
    rw (sym same) (ap session_at (lookup-insert_same "session" values s))

save-Saved :
    (values before : Values) (s : Dict Values)
    → Saved before (insert "session" values s)
    → (before ≡ values) ⊎ Saved before s
save-Saved values before s (cookie, h) =
    let found = lookup-insert "session" cookie values s in
    elim (Bool-cases ("session" == cookie)) [
      | inl same ↦ inl (grind (arith, found, same, h))
      | inr differs ↦ inr (cookie, grind (arith, found, differs, h))
    ]

store-CookieLaws : CookieLaws store
store-CookieLaws = record {
  IsSaved = Saved;
  get_saved = got-Saved;
  save_saves = just_saved;
  save_frame = save-Saved;
  random_frame = λ values s h. h;
  exchange_frame = λ values code s h. h;
  verify_frame = λ values token s h. h;
}

nothing-Saved : (values : Values) → Saved values [] → ⊥
unfolding lookup
nothing-Saved values (cookie, h) = cc

abbrev b : BasicAuth
b = record { username = "admin"; password = "secret" }

Unidentified-is_refused_example :
    admit store true false Route.layers
      (some "session")
      (oauth_login store none (basic_login store b none "admin" "guess" []).1).1
    ≡ refused 401
unfolding store-CookieLaws
Unidentified-is_refused_example =
    Unidentified-is_refused store b store-CookieLaws []
      (oauth_login store none (basic_login store b none "admin" "guess" []).1).1 true false
      Route.layers (some "session") (λ values h. nothing-Saved values h)
      (login_begun (basic_login store b none "admin" "guess" []).1 none
        (wrong_password [] none "admin" "guess" refl (start [])))
      refl the_layers

basic_login_user_info_example :
    ((basic_login store b none "admin" "secret" []).0
      ≡ failed 200 (cleared (got none []) ++ ("session" ∷ [])))
    × (admit store false true Route.user_info
          (some "session")
          (basic_login store b none "admin" "secret" []).1
        ≡ admitted administrator)
    × (handle_user_info administrator ≡ none)
unfolding lookup
basic_login_user_info_example =
    basic_login_user_info store b store-CookieLaws [] none "session" refl refl
