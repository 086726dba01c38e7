-- ===== src/Server/Auth/Cookies.antt =====
-- What is relied on of the cookies of sessions.
use burrito.Base.{String, ◌≡◌, ◌⊎◌, Option, some, []}
use burrito.Base.Effect.{ok}
use burrito.Server.Auth.{Values, Outside}

-- What is relied on of the cookies: their sessions cannot be made up, so the session of a cookie is an
-- empty one or one that was saved; and the session of a cookie that was just set is the one saved.
pub record CookieLaws (o : Outside) : Type 1 where
  pub IsSaved : Values → o.State → Type 0
  pub get_saved :
      (cookie : Option String) (values : Values) (s : o.State)
      → o.get cookie s ≡ ok values
      → (values ≡ []) ⊎ IsSaved values s
  pub save_saves :
      (values : Values) (cookie : String) (s : o.State)
      → (o.save values s).0 ≡ ok cookie
      → o.get (some cookie) (o.save values s).1 ≡ ok values
  pub save_frame :
      (values other : Values) (s : o.State)
      → IsSaved other (o.save values s).1
      → (other ≡ values) ⊎ IsSaved other s
  pub random_frame :
      (values : Values) (s : o.State) → IsSaved values (o.random_text s).1 → IsSaved values s
  pub exchange_frame :
      (values : Values) (code : String) (s : o.State)
      → IsSaved values (o.exchange code s).1
      → IsSaved values s
  pub verify_frame :
      (values : Values) (token : String) (s : o.State)
      → IsSaved values (o.verify token s).1
      → IsSaved values s
