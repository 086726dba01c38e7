-- ===== src/Authz/Allowed.antt =====
-- Who gets through, over any sequence of requests.
use burrito.Base.{
  ℕ, String, ◌≡◌, ◌⊎◌, inl, inr, sym, subst, Bool, true, false, none, some, Bool-cases,
  Option-cases, ◌==◌,
}
use burrito.Base.Effect.{Result, ok, err}
use burrito.Authz.{
  Authz, Cluster, Answer, next, refused, is_service_account_allowed, reviewed, looked_up, process,
}

-- What is relied on of the cache: what is found was found before, or has just been put there.
pub record CacheLaws (c : Cluster) : Type 0 where
  pub found :
      (s : c.State) (token user at v : String)
      → c.get (c.set token user s) at ≡ some v
      → (v ≡ user) ⊎ (c.get s at ≡ some v)

module _ (a : Authz) (c : Cluster) where
  -- The states that requests and the forgetting of tokens lead to.
  pub data Reached : c.State → c.State → Type 0 where
    start : (s : c.State) → Reached s s
    request :
        {s0 : c.State} (s : c.State) (token : String)
        → Reached s0 s
        → Reached s0 (process a c token s).1
    forget :
        {s0 : c.State} (s s' : c.State)
        → ((token user : String) → c.get s' token ≡ some user → c.get s token ≡ some user)
        → Reached s0 s
        → Reached s0 s'

  abbrev pub Allowed : String → Type 0
  Allowed user = is_service_account_allowed a.service_accounts user ≡ true

  abbrev pub OnlyAllowed : c.State → Type 0
  OnlyAllowed s = (token user : String) → c.get s token ≡ some user → Allowed user

  -- An answer and the state behind it, both of allowed users only.
  abbrev IsSafe : Answer × c.State → Type 0
  IsSafe o = OnlyAllowed o.1 × ((user : String) → o.0 ≡ next user → Allowed user)

  passed : (name user : String) → Allowed name → next name ≡ next user → Allowed user
  passed name user fine h =
      let same : name ≡ user = cc h in
      subst (λ (u : String). is_service_account_allowed a.service_accounts u ≡ true) same fine

  refused-IsSafe : (status : ℕ) (s : c.State) → OnlyAllowed s → IsSafe (refused status, s)
  refused-IsSafe status s only = (only, λ user h. cc h)

  module _ (laws : CacheLaws c) where
    set-OnlyAllowed :
        (s : c.State) (token name : String)
        → OnlyAllowed s
        → Allowed name
        → OnlyAllowed (c.set token name s)
    set-OnlyAllowed s token name only fine at user h = elim (laws.found s token name at user h) [
      | inl same ↦
          subst (λ (u : String). is_service_account_allowed a.service_accounts u ≡ true) (sym same)
            fine
      | inr before ↦ only at user before
    ]

    reviewed-IsSafe :
        (token : String) (answer : Result (Bool × String)) (s : c.State)
        → OnlyAllowed s
        → IsSafe (reviewed a c token answer s)
    unfolding reviewed
    reviewed-IsSafe token (err e) s only = refused-IsSafe 500 s only
    reviewed-IsSafe token (ok (false, name)) s only = refused-IsSafe 401 s only
    reviewed-IsSafe token (ok (true, name)) s only =
        elim (Bool-cases (is_service_account_allowed a.service_accounts name)) [
          | inl fine ↦
              rw fine (set-OnlyAllowed s token name only fine, λ user h. passed name user fine h)
          | inr bad ↦ rw bad (refused-IsSafe 401 s only)
        ]

    looked_up-IsSafe :
        (token : String) (s : c.State)
        → OnlyAllowed s
        → IsSafe (looked_up a c token (c.get s token) s)
    unfolding looked_up
    looked_up-IsSafe token s only = elim (Option-cases (c.get s token)) [
      | inl missing ↦ rw missing (reviewed-IsSafe token (c.review s token a.audience) s only)
      | inr (name, cached) ↦ rw cached (only, λ user h. passed name user (only token name cached) h)
    ]

    process-IsSafe : (token : String) (s : c.State) → OnlyAllowed s → IsSafe (process a c token s)
    unfolding process
    process-IsSafe token s only = elim (Bool-cases (token == "")) [
      | inl empty ↦ rw empty (refused-IsSafe 401 s only)
      | inr given ↦ rw given (looked_up-IsSafe token s only)
    ]

    Reached-OnlyAllowed : (s0 s : c.State) → Reached s0 s → OnlyAllowed s0 → OnlyAllowed s
    Reached-OnlyAllowed s0 s (start _) only = only
    Reached-OnlyAllowed s0 s (request s1 token r) only =
        (process-IsSafe token s1 (Reached-OnlyAllowed s0 s1 r only)).0
    Reached-OnlyAllowed s0 s (forget s1 _ kept r) only =
        λ token user h. Reached-OnlyAllowed s0 s1 r only token user (kept token user h)

    -- From an empty cache, and after any sequence of requests in which the cache forgets tokens at will,
    -- a request that is passed on is one of an allowed service account.
    pub passed_user_is_allowed :
        (s0 s : c.State) (token user : String)
        → ((at : String) → c.get s0 at ≡ none)
        → Reached s0 s
        → (process a c token s).0 ≡ next user
        → is_service_account_allowed a.service_accounts user ≡ true
    passed_user_is_allowed s0 s token user empty r h =
        (process-IsSafe token s (Reached-OnlyAllowed s0 s r (λ at u found. cc (empty at, found)))).1
          user h
