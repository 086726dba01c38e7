-- ===== src/Credentials/Choice.antt =====
-- Who may use which credentials, and which of them is taken.
use burrito.Base.{
  ℕ, ◌≤◌, ◌≡◌, refl, sym, ◌∙◌, subst, ◌⊎◌, inl, inr, Bool, true, false, ◌&&◌, Option, none, some,
  List, [], ◌∷◌, All, arith, length, ltb, Bool-cases, Option-cases,
}
use mathlib.Core.List.{Memᴰ}
use burrito.Base.Text.{bytes}
use burrito.Api.{TerraformRepository}
use burrito.World.{Runtime, Credential}
use burrito.Credentials.{
  SharedCredential, RepositoryCredential, CredentialStore, matches_repository, is_allowed,
  matches_shared, first_matching, more_specific, most_specific, choose_credentials,
}

abbrev pub specificity : SharedCredential → ℕ
specificity c = length (bytes c.credential.url)

more_specific_old :
    (old new : SharedCredential) → specificity old ≤ specificity (more_specific (some old) new)
unfolding more_specific
more_specific_old old new = ground arith

more_specific_new :
    (best : Option SharedCredential) (new : SharedCredential)
    → specificity new ≤ specificity (more_specific best new)
unfolding more_specific
more_specific_new none new = ground arith
more_specific_new (some old) new = ground arith

more_specific_either :
    (best : Option SharedCredential) (new : SharedCredential)
    → (more_specific best new ≡ new) ⊎ (best ≡ some (more_specific best new))
unfolding more_specific
more_specific_either none new = inl refl
more_specific_either (some old) new = elim (Bool-cases (ltb (specificity old) (specificity new))) [
  | inl h ↦ inl (rw (h))
  | inr h ↦ inr (rw (h))
]

module _ (rt : Runtime) (repository : TerraformRepository) where
  -- The shared credential is open to the repository's namespace, and its URL is in the repository's.
  abbrev pub fits : SharedCredential → Bool
  fits c = is_allowed rt repository c && matches_shared rt repository c

  -- No shared credential that fits is longer.
  abbrev pub Beats : SharedCredential → SharedCredential → Type 0
  Beats t c = (fits c ≡ false) ⊎ (specificity c ≤ specificity t)

  most_specific_grows :
      (credentials : List SharedCredential) (best t : SharedCredential)
      → most_specific rt repository credentials (some best) ≡ some t
      → specificity best ≤ specificity t
  unfolding most_specific
  most_specific_grows [] best t h = grind arith
  most_specific_grows (c ∷ credentials) best t h = elim (Bool-cases (fits c)) [
    | inl f ↦
        let longer =
          most_specific_grows credentials (more_specific (some best) c) t (simp (f) at h) in
        let step = more_specific_old best c in omega arith
    | inr f ↦ most_specific_grows credentials best t (simp (f) at h)
  ]

  most_specific-Beats :
      (credentials : List SharedCredential) (best : Option SharedCredential) (t : SharedCredential)
      → most_specific rt repository credentials best ≡ some t
      → All (Beats t) credentials
  unfolding most_specific
  most_specific-Beats [] best t h = _
  most_specific-Beats (c ∷ credentials) best t h = elim (Bool-cases (fits c)) [
    | inl f ↦
        let found = simp (f) at h in
        let longer = most_specific_grows credentials (more_specific best c) t found in
        let step = more_specific_new best c in
        (inr (omega arith), most_specific-Beats credentials (some (more_specific best c)) t found)
    | inr f ↦ (inl f, most_specific-Beats credentials best t (simp (f) at h))
  ]

  most_specific-Mem :
      (credentials : List SharedCredential) (best : Option SharedCredential) (t : SharedCredential)
      → most_specific rt repository credentials best ≡ some t
      → (best ≡ some t) ⊎ Memᴰ t credentials × (fits t ≡ true)
  unfolding most_specific
  most_specific-Mem [] best t h = inl h
  most_specific-Mem (c ∷ credentials) best t h = elim (Bool-cases (fits c)) [
    | inl f ↦ elim (most_specific-Mem credentials (some (more_specific best c)) t (simp (f) at h)) [
      | inl e ↦ elim (more_specific_either best c) [
        | inl new ↦
            let this : t ≡ c = cc in inr (Memᴰ.head this, subst (λ x. fits x ≡ true) (sym this) f)
        | inr old ↦ inl (old ∙ e)
      ]
      | inr (m, g) ↦ inr (Memᴰ.tail m, g)
    ]
    | inr f ↦ elim (most_specific-Mem credentials best t (simp (f) at h)) [
      | inl e ↦ inl e
      | inr (m, g) ↦ inr (Memᴰ.tail m, g)
    ]
  ]

  taken_is_listed :
      (credentials : List SharedCredential) (t : SharedCredential)
      → most_specific rt repository credentials none ≡ some t
      → Memᴰ t credentials × (fits t ≡ true)
  taken_is_listed credentials t h = elim (most_specific-Mem credentials none t h) [
    | inl e ↦ cc
    | inr listed ↦ listed
  ]

  first_matching-Mem :
      (credentials : List RepositoryCredential) (c : Credential)
      → first_matching rt repository credentials ≡ some c
      → (r : RepositoryCredential) × (Memᴰ r credentials)
        × (r.credential ≡ c)
        × (matches_repository rt repository r ≡ true)
  unfolding first_matching
  first_matching-Mem [] c h = cc
  first_matching-Mem (r ∷ credentials) c h =
      elim (Bool-cases (matches_repository rt repository r)) [
        | inl f ↦ (r, Memᴰ.head refl, grind arith, f)
        | inr f ↦
            let (found, m, e, g) = first_matching-Mem credentials c (simp (f) at h) in
            (found, Memᴰ.tail m, e, g)
      ]

  first_matching-All :
      (credentials : List RepositoryCredential)
      → first_matching rt repository credentials ≡ none
      → All (λ r. matches_repository rt repository r ≡ false) credentials
  unfolding first_matching
  first_matching-All [] h = _
  first_matching-All (r ∷ credentials) h = elim (Bool-cases (matches_repository rt repository r)) [
    | inl f ↦ cc
    | inr f ↦ (f, first_matching-All credentials (simp (f) at h))
  ]

  -- Credentials that are found are those of a credential of the namespace of the repository and for its
  -- URL; or, where there is none, of a shared credential that is open to the namespace, whose URL is in
  -- that of the repository, and with no longer one beside it.
  pub choose_credentials-Mem :
      (store : CredentialStore) (c : Credential)
      → choose_credentials rt repository store ≡ some c
      → ((r : RepositoryCredential) × Memᴰ r store.repository_credentials
          × (r.credential ≡ c)
          × (matches_repository rt repository r ≡ true))
        ⊎ All (λ r. matches_repository rt repository r ≡ false) store.repository_credentials
          × ((t : SharedCredential) × Memᴰ t store.shared_credentials
              × (t.credential ≡ c)
              × (fits t ≡ true)
              × All (Beats t) store.shared_credentials)
  unfolding choose_credentials
  choose_credentials-Mem store c h =
      elim (Option-cases (first_matching rt repository store.repository_credentials)) [
        | inr (d, own) ↦
            inl (first_matching-Mem store.repository_credentials c (grind (arith, own, h)))
        | inl absent ↦
            elim (Option-cases (most_specific rt repository store.shared_credentials none)) [
              | inl missing ↦ cc (absent, missing)
              | inr (t, found) ↦
                  let (member, fitting) = taken_is_listed store.shared_credentials t found in
                  inr (
                    first_matching-All store.repository_credentials absent,
                    (
                      t,
                      member,
                      grind (arith, absent, found, h),
                      fitting,
                      most_specific-Beats store.shared_credentials none t found,
                    ),
                  )
            ]
      ]
