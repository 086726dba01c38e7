-- ===== src/Webhook/Normal.antt =====
-- Two ways to write the URL of a repository have one form.
use burrito.Base.{
  String, ◌<>◌, ◌≡◌, ◌≢◌, refl, sym, ap, ◌∙◌, Bool, true, false, ◌||◌, some, ◌==◌, arith, eqb,
  eq_iff, eq_refl,
}
use Prim.Native.Char.{Char, code}
use Prim.Native.String.{count}
use text.Mathlib.TextLemmas.{nil-append, cons-append, append_assoc, length-append, length-cons}
use burrito.Base.Text.{cut_prefix, has_prefix, trim_prefix, trim_suffix, cut_at}
use burrito.World.{Runtime}
use burrito.Webhook.Url.{
  remove_git_extension, split_scp_style_url, normalize_scp_style_url, normalize_url,
}

trim_suffix_self : (t : String) → trim_suffix t t ≡ ""
unfolding trim_suffix
trim_suffix_self String.[] = refl
trim_suffix_self (String.◌∷◌ c t) = ground (arith, eq_refl (String.◌∷◌ c t))

trim_suffix-append : (s t : String) → trim_suffix (s <> t) t ≡ s
unfolding trim_suffix
trim_suffix-append String.[] t = rw (nil-append t) (trim_suffix_self t)
trim_suffix-append (String.◌∷◌ c s) t =
    let longer : String.◌∷◌ c (s <> t) ≢ t =
      λ e. omega (arith, ap count e, length-cons c (s <> t), length-append s t) in
    rw (cons-append c s t)
      (ground (arith, longer, eq_iff (String.◌∷◌ c (s <> t)) t, trim_suffix-append s t))

cut_prefix-append : (s t : String) → cut_prefix s (s <> t) ≡ some t
unfolding cut_prefix
cut_prefix-append String.[] t = rw (nil-append t) refl
cut_prefix-append (String.◌∷◌ c s) t =
    rw (cons-append c s t) (ground (arith, cut_prefix-append s t))

trim_prefix-append : (s t : String) → trim_prefix (s <> t) s ≡ t
unfolding trim_prefix
trim_prefix-append s t = rw (trim_prefix, cut_prefix-append s t) refl

-- The text has no colon.
abbrev pub has_colon : String → Bool
has_colon String.[] = false
has_colon (String.◌∷◌ c s) = eqb (code c) 58 || has_colon s

colon_first : (rest : String) → cut_at 58 (":" <> rest) ≡ some ("", rest)
unfolding cut_at
colon_first rest = rw (cons-append _ "" rest, nil-append rest) refl

cut_at-append :
    (s rest : String) → has_colon s ≡ false → cut_at 58 (s <> (":" <> rest)) ≡ some (s, rest)
unfolding cut_at
cut_at-append String.[] rest h = rw (nil-append (":" <> rest)) (colon_first rest)
cut_at-append (String.◌∷◌ c s) rest h =
    rw (cons-append c s (":" <> rest)) (ground (arith, h, cut_at-append s rest))

other_start :
    (c d : Char) (s t p : String)
    → eqb (code d) (code c) ≡ false
    → has_prefix (String.◌∷◌ c s <> t) (String.◌∷◌ d p) ≡ false
unfolding has_prefix cut_prefix
other_start c d s t p h = rw (cons-append c s t) (ground (arith, h))

has_prefix-append : (s t : String) → has_prefix (s <> t) s ≡ true
unfolding has_prefix
has_prefix-append s t = rw (has_prefix, cut_prefix-append s t) refl

colon_behind : (host : String) → has_colon ("git@" <> host) ≡ has_colon host
colon_behind host =
    rw
      (
        cons-append _ "it@" host,
        cons-append _ "t@" host,
        cons-append _ "@" host,
        cons-append _ "" host,
        nil-append host,
      )
      refl

-- `host` and `path` with the colon between them, after the user.
split_scp_lem :
    (host path : String)
    → has_colon host ≡ false
    → split_scp_style_url ("git@" <> (host <> (":" <> (path <> ".git")))) ≡ (host, path)
unfolding split_scp_style_url remove_git_extension
split_scp_lem host path no_colon =
    let whole = sym (append_assoc "git@" host (":" <> (path <> ".git"))) in
    let user : has_colon ("git@" <> host) ≡ false = ground (arith, no_colon, colon_behind host) in
    let parts = ap (cut_at 58) whole ∙ cut_at-append ("git@" <> host) (path <> ".git") user in
    rw
      (
        split_scp_style_url,
        parts,
        trim_prefix-append "git@" host,
        remove_git_extension,
        trim_suffix-append path ".git",
      )
      refl

module _ (rt : Runtime) where
  https_form :
      (address : String)
      → normalize_url rt (("https://" <> address) <> ".git") ≡ "https://" <> address
  unfolding normalize_url remove_git_extension
  https_form address =
      let starts : has_prefix (("https://" <> address) <> ".git") "https://" ≡ true =
        ap (λ s. has_prefix s "https://") (append_assoc "https://" address ".git")
        ∙ has_prefix-append "https://" (address <> ".git") in
      rw (normalize_url, starts) (trim_suffix-append ("https://" <> address) ".git")

  scp_form :
      (host path : String)
      → has_colon host ≡ false
      → path ≢ ""
      → normalize_url rt ("git@" <> (host <> (":" <> (path <> ".git"))))
        ≡ "https://" <> (host <> ("/" <> path))
  unfolding normalize_url normalize_scp_style_url
  scp_form host path no_colon some_path =
      let rest = host <> (":" <> (path <> ".git")) in
      let some_repo : (path == "") ≡ false = ground (arith, some_path, eq_iff path "") in
      rw
        (
          normalize_url,
          other_start _ _ "it@" rest "ttps://" refl,
          other_start _ _ "it@" rest "ttp://" refl,
          other_start _ _ "it@" rest "sh://" refl,
          normalize_scp_style_url,
          split_scp_lem host path no_colon,
          some_repo,
        )
        refl

  -- The address of a repository over SSH, as git prints it, has the form of its HTTPS address, where
  -- the host has no colon and the path is not empty.
  pub normalize_url-scp :
      (host path : String)
      → has_colon host ≡ false
      → path ≢ ""
      → normalize_url rt ("git@" <> (host <> (":" <> (path <> ".git"))))
        ≡ normalize_url rt ("https://" <> (host <> ("/" <> (path <> ".git"))))
  unfolding normalize_url normalize_scp_style_url
  normalize_url-scp host path no_colon some_path =
      let rest = host <> (":" <> (path <> ".git")) in
      let whole : "https://" <> (host <> ("/" <> (path <> ".git")))
          ≡ ("https://" <> (host <> ("/" <> path))) <> ".git" =
        rw
          (
            append_assoc "https://" (host <> ("/" <> path)) ".git",
            append_assoc host ("/" <> path) ".git",
            append_assoc "/" path ".git",
          )
          refl in
      scp_form host path no_colon some_path
      ∙ sym (ap (normalize_url rt) whole ∙ https_form (host <> ("/" <> path)))
