-- ===== src/Credentials.antt =====
-- internal/repository/credentials/credentials.go: which credentials a repository is reached with.
pub mod Choice
use burrito.Base.{
  ℕ, String, Bool, true, false, ◌||◌, ◌&&◌, Option, none, some, List, [], ◌∷◌, ◌==◌, contains,
  length, ltb, if◌then◌else◌,
}
use burrito.Base.Int.{◌-ℤ◌, leb_ℤ, ltb_ℤ}
use burrito.Base.Dict.{lookup}
use burrito.Base.Effect.{Result, ok, err}
use burrito.Base.Text.{split, bytes, contains_text}
use burrito.Api.{Time, Duration, TerraformRepository}
use burrito.Annotations.{allowed_tenants}
use burrito.World.{World, Runtime, Credential, CredentialSecret}
use burrito.Webhook.Url.{normalize_url}

pub record SharedCredential : Type 0 where
  pub credential : Credential
  pub allowed_tenants : List String

pub record RepositoryCredential : Type 0 where
  pub namespace : String
  pub credential : Credential

-- `lastUpdate` of a new store is the zero time.
pub record CredentialStore : Type 0 where
  pub ttl : Duration
  pub shared_credentials : List SharedCredential
  pub repository_credentials : List RepositoryCredential
  pub last_update : Time

unfoldable pub tenants_of : CredentialSecret → List String
tenants_of secret = elim (lookup allowed_tenants secret.annotations) [
  | none ↦ []
  | some value ↦ let (first, others) = split 44 value in first ∷ others
]

-- The loops of `updateCredentials`: what cannot be parsed is left out.
unfoldable pub new_shared_credentials : List CredentialSecret → List SharedCredential
unfolding tenants_of
new_shared_credentials [] = []
new_shared_credentials (secret ∷ secrets) =
    let others = new_shared_credentials secrets in
    elim secret.credential [
      | none ↦ others
      | some c ↦ record { credential = c; allowed_tenants = tenants_of secret } ∷ others
    ]

unfoldable pub new_repository_credentials : List CredentialSecret → List RepositoryCredential
new_repository_credentials [] = []
new_repository_credentials (secret ∷ secrets) =
    let others = new_repository_credentials secrets in
    elim secret.credential [
      | none ↦ others
      | some c ↦ record { namespace = secret.namespace; credential = c } ∷ others
    ]

-- `updateCredentials`, for one caller at a time: an error keeps the credentials, but is as good as an
-- update until the next one is due.
unfoldable pub update_credentials : (w : World) → w.State → CredentialStore → CredentialStore
unfolding new_shared_credentials new_repository_credentials
update_credentials w s store =
    let seen = record store { last_update = w.now s } in
    if ltb_ℤ (w.now s -ℤ store.last_update) store.ttl
    then store
    else elim (w.list_credential_secrets s "credentials.burrito.tf/shared") [
      | err e ↦ seen
      | ok shared ↦ elim (w.list_credential_secrets s "credentials.burrito.tf/repository") [
        | err e ↦ seen
        | ok repository ↦ record seen {
          shared_credentials = new_shared_credentials shared;
          repository_credentials = new_repository_credentials repository;
        }
      ]
    ]

-- `GetAllCredentials`: the store with the credentials.
unfoldable pub get_all_credentials : (w : World) → w.State → CredentialStore → CredentialStore
unfolding update_credentials
get_all_credentials w s store =
    if leb_ℤ store.ttl (w.now s -ℤ store.last_update) then update_credentials w s store else store

-- Whether the new credential takes the place of the one found so far.
unfoldable pub more_specific : Option SharedCredential → SharedCredential → SharedCredential
more_specific none tmp = tmp
more_specific (some best) tmp =
    if ltb (length (bytes best.credential.url)) (length (bytes tmp.credential.url))
    then tmp
    else best

module _ (rt : Runtime) (repository : TerraformRepository) where
  unfoldable pub matches_repository : RepositoryCredential → Bool
  matches_repository c =
      (normalize_url rt c.credential.url == normalize_url rt repository.spec.url)
      && (c.namespace == repository.metadata.namespace)

  unfoldable pub is_allowed : SharedCredential → Bool
  is_allowed c = elim c.allowed_tenants [
    | [] ↦ true
    | first ∷ others ↦ contains (first ∷ others) repository.metadata.namespace
  ]

  unfoldable pub matches_shared : SharedCredential → Bool
  matches_shared c =
      contains_text (normalize_url rt repository.spec.url) (normalize_url rt c.credential.url)

  unfoldable pub first_matching : List RepositoryCredential → Option Credential
  unfolding matches_repository
  first_matching [] = none
  first_matching (c ∷ credentials) =
      if matches_repository c then some c.credential else first_matching credentials

  unfoldable pub most_specific :
      List SharedCredential → Option SharedCredential → Option SharedCredential
  unfolding is_allowed matches_shared more_specific
  most_specific [] best = best
  most_specific (tmp ∷ credentials) best =
      if is_allowed tmp && matches_shared tmp
      then most_specific credentials (some (more_specific best tmp))
      else most_specific credentials best

  -- The choice of `GetCredentials`, on an updated store.
  unfoldable pub choose_credentials : CredentialStore → Option Credential
  unfolding first_matching most_specific
  choose_credentials store = elim (first_matching store.repository_credentials) [
    | some c ↦ some c
    | none ↦ elim (most_specific store.shared_credentials none) [
      | some shared ↦ some shared.credential
      | none ↦ none
    ]
  ]

  unfoldable pub get_credentials :
      (w : World) → w.State → CredentialStore → Option Credential × CredentialStore
  unfolding get_all_credentials choose_credentials
  get_credentials w s store =
      let updated = get_all_credentials w s store in (choose_credentials updated, updated)
