-- ===== src/Tests/Secrets.antt =====
-- The choice of credentials, at concrete inputs.
use burrito.Base.{String, ◌≡◌, refl, none, some, true, false, [], ◌∷◌, All, ◌⊎◌}
use mathlib.Core.List.{Memᴰ}
use burrito.Base.Int.{pos}
use burrito.Base.Text.{has_prefix, trim_suffix, contains_text, bytes}
use burrito.Webhook.Url.{normalize_url}
use burrito.Api.{TerraformRepository}
use burrito.World.{Credential}
use burrito.Credentials.{
  SharedCredential, RepositoryCredential, CredentialStore, matches_repository, choose_credentials,
}
use burrito.Credentials.Choice.{choose_credentials-Mem, fits, Beats}
use burrito.Tests.Cluster.{no_times}
use burrito.Tests.Samples.{a_repository}

abbrev credential : String → Credential
credential url = record { provider = "github"; secrets = []; url = url }

abbrev everywhere : SharedCredential
everywhere = record { credential = credential "https://github.com"; allowed_tenants = [] }

abbrev organisation : SharedCredential
organisation = record {
  credential = credential "https://github.com/padok-team";
  allowed_tenants = "team" ∷ [];
}

abbrev of_others : SharedCredential
of_others = record {
  credential = credential "https://github.com/padok-team/burrito";
  allowed_tenants = "others" ∷ [];
}

-- The credential for exactly this repository is in another namespace.
abbrev elsewhere : RepositoryCredential
elsewhere = record {
  namespace = "others";
  credential = credential "https://github.com/padok-team/burrito.git";
}

abbrev store : CredentialStore
store = record {
  ttl = pos 10;
  shared_credentials = everywhere ∷ organisation ∷ of_others ∷ [];
  repository_credentials = elsewhere ∷ [];
  last_update = pos 0;
}

abbrev foreign : TerraformRepository
foreign = record (a_repository none) {
  spec = record (a_repository none).spec { url = "https://example.org/https://github.com/x" };
}

-- A URL of a repository elsewhere may hold that of a shared credential.
elsewhere_leaks : choose_credentials no_times foreign store ≡ some everywhere.credential
unfolding choose_credentials normalize_url has_prefix trim_suffix contains_text
elsewhere_leaks = refl

choose_credentials-Mem_example :
    ((r : RepositoryCredential) × Memᴰ r store.repository_credentials
      × (r.credential ≡ organisation.credential)
      × (matches_repository no_times (a_repository none) r ≡ true))
    ⊎ All
        (λ r. matches_repository no_times (a_repository none) r ≡ false)
        store.repository_credentials
      × ((t : SharedCredential) × Memᴰ t store.shared_credentials
          × (t.credential ≡ organisation.credential)
          × (fits no_times (a_repository none) t ≡ true)
          × All (Beats no_times (a_repository none) t) store.shared_credentials)
unfolding choose_credentials normalize_url has_prefix trim_suffix contains_text bytes
choose_credentials-Mem_example =
    choose_credentials-Mem no_times (a_repository none) store organisation.credential refl
