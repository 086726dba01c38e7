-- ===== src/Tests/Webhooks.antt =====
-- The theorems on webhooks, at concrete requests.
use burrito.Base.{
  String, ◌≡◌, ◌≢◌, ◌⊎◌, inl, inr, refl, Bool, Bool-cases, arith, true, false, [], ◌∷◌, ◌==◌,
  if◌then◌else◌,
}
use text.Mathlib.TextEquality.{eq_iff}
use burrito.Base.Int.{pos, ◌-ℤ◌}
use burrito.Base.Dict.{lookup, lookup_or_empty}
use burrito.World.{World, PodPhase, Credential}
use burrito.Credentials.{CredentialStore, get_all_credentials}
use burrito.Webhook.Payloads.{
  Payload, push_payload, Parsed, payload, verification_failed, parse_error, Library, Event, github,
  get_provider_from_credentials, all_credentials, handle, http_handler,
}
use burrito.Webhook.Signed.{ChecksSecrets}
use burrito.Webhook.Verified.{Verified, http_handler-Verified}
use burrito.Webhook.Unheard.{later_credentials_are_unheard}
use burrito.Tests.Cluster.{cluster, all_at_zero}
use burrito.Tests.Samples.{empty_store}

abbrev calm : World
calm = cluster PodPhase.running

-- A request that is signed with a secret, and whether its body has been read.
record Signed : Type 0 where
  secret : String
  is_read : Bool

abbrev content : Payload
content = push_payload "https://github.com/padok-team/burrito" "refs/heads/main" "abc" "def" []

abbrev check : String → Signed → Parsed
check secret r =
    if r.is_read
    then parse_error
    else if r.secret == secret
    then payload content
    else verification_failed

checked_secret :
    (secret : String) (r : Signed) (p : Payload) → check secret r ≡ payload p → r.secret ≡ secret
checked_secret secret r p h = elim (Bool-cases r.is_read) [
  | inl read ↦ absurd (cc (rw read at h))
  | inr unread ↦ elim (Bool-cases (r.secret == secret)) [
    | inl same ↦ ground (arith, same, eq_iff r.secret secret)
    | inr differs ↦ absurd (cc (rw (unread, differs) at h))
  ]
]

abbrev library : Library
library = record {
  Request = Signed;
  method = λ r. "POST";
  header = λ name r. "push";
  accepts_secret = λ secret. true;
  parse = λ provider secret r. (check secret r, record r { is_read = true });
}

abbrev credential : String → Credential
credential secret = record {
  provider = "github";
  secrets = ("webhookSecret", secret) ∷ [];
  url = "https://github.com/padok-team";
}

abbrev store : CredentialStore
store = record {
  ttl = pos 1000;
  shared_credentials = record { credential = credential "one"; allowed_tenants = [] } ∷ [];
  repository_credentials = record { namespace = "team"; credential = credential "two" } ∷ [];
  last_update = pos 0;
}

abbrev signed : String → Signed
signed secret = record { secret = secret; is_read = false }

-- The secret of the example's requests is in them, and a parse leaves it there.
library-ChecksSecrets : ChecksSecrets library
library-ChecksSecrets = record {
  IsSigned = λ provider secret r. r.secret ≡ secret;
  checks = λ provider secret r p filled h. checked_secret secret r p h;
  keeps = λ by provider used secret r h. h;
}

http_handler-Verified_example :
    let (answer, s') = http_handler library all_at_zero calm store (signed "one") empty_store in
    ((answer.0 ≢ 200) × (s' ≡ empty_store))
    ⊎ ((e : Event) × Verified library library-ChecksSecrets all_at_zero
          (all_credentials library (get_all_credentials calm empty_store store))
          (signed "one")
          e
        × (answer.0 ≡ 200)
        × (s' ≡ handle library all_at_zero calm e empty_store))
http_handler-Verified_example =
    http_handler-Verified library library-ChecksSecrets all_at_zero calm store (signed "one")
      empty_store

-- The second credential fits.
later_credentials_are_unheard_example :
    http_handler library all_at_zero calm store (signed "two") empty_store
    ≡ ((400, get_all_credentials calm empty_store store), empty_store)
unfolding get_all_credentials get_provider_from_credentials lookup lookup_or_empty ◌-ℤ◌
later_credentials_are_unheard_example =
    later_credentials_are_unheard library (λ provider secret r again other p e. cc) all_at_zero calm
      store (signed "two") empty_store (credential "one") (credential "two" ∷ []) github refl
      ((λ e. cc), tt) (inl refl) refl refl refl refl
