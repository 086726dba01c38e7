-- ===== src/Webhook/Payloads.antt =====
-- internal/webhook/webhook.go and the webhook.go of internal/repository/providers: from a request to an
-- event. The parsing of requests and the check of their signatures are the parameter `Library`.
use burrito.Base.{
  ℕ, suc, String, Bool, ◌<>◌, Option, none, some, List, [], ◌∷◌, ◌++◌, ◌==◌, ◌||◌, map,
  if◌then◌else◌,
}
use burrito.Base.Int.{ℤ, pos, negsuc}
use burrito.Base.Dict.{lookup_or_empty}
use burrito.Base.Effect.{Result, ok, err, other, Effect}
use burrito.Base.Text.{itoa}
use burrito.World.{World, Runtime, Credential}
use burrito.Credentials.{CredentialStore, get_all_credentials}
use burrito.Webhook.{PushEvent, PullRequestEvent, parse_reference, handle_push, handle_pull_request}
use burrito.Webhook.Url.{normalize_url}

pub record Commit : Type 0 where
  pub added : List String
  pub modified : List String
  pub removed : List String

-- What the libraries parse: `PushPayload` and `PushEventPayload`, `PullRequestPayload` and
-- `MergeRequestEventPayload`, and the others (pings, tags).
pub data Payload : Type 0 where
  push_payload : (url ref before after : String) (commits : List Commit) → Payload
  change_payload : (number : ℤ) (url source action target sha : String) → Payload
  unsupported : Payload

pub data Provider : Type 0 where
  github gitlab standard mock : Provider

-- What a parse comes to: a payload, a signature or token that is wrong, or another error.
pub data Parsed : Type 0 where
  payload : Payload → Parsed
  verification_failed : Parsed
  parse_error : Parsed

-- A request is in a state, since a parse reads its body.
pub record Library : Type 1 where
  pub Request : Type 0
  pub method : Request → String
  pub header : (name : String) → Request → String
  pub accepts_secret : (secret : String) → Bool
  pub parse : Provider → (secret : String) → Effect Request Parsed

pub data Event : Type 0 where
  push : PushEvent → Event
  pull_request : PullRequestEvent → Event

-- `GetProviderFromCredentials`
unfoldable pub get_provider_from_credentials : Credential → Option Provider
get_provider_from_credentials c =
    if c.provider == "github"
    then some github
    else if c.provider == "gitlab"
    then some gitlab
    else if c.provider == "standard"
    then some standard
    else if c.provider == "mock"
    then some mock
    else none

-- `getNormalizedAction` of GitHub and of GitLab.
unfoldable pub github_action : (action : String) → String
github_action action =
    if (action == "opened") || (action == "reopened")
    then "opened"
    else if action == "closed"
    then "closed"
    else action

unfoldable pub gitlab_action : (action : String) → String
gitlab_action action =
    if (action == "open") || (action == "reopen")
    then "opened"
    else if (action == "close") || (action == "merge")
    then "closed"
    else action

-- `strconv.FormatInt(n, 10)`
unfoldable pub format_int : ℤ → String
format_int (pos n) = itoa n
format_int (negsuc n) = "-" <> itoa (suc n)

unfoldable pub changed_files : List Commit → List String
changed_files [] = []
changed_files (c ∷ commits) = c.added ++ (c.modified ++ (c.removed ++ changed_files commits))

abbrev push_event : Runtime → (url ref before after : String) → List Commit → Event
push_event rt url ref before after commits = push (record {
  url = normalize_url rt url;
  reference = parse_reference ref;
  sha_before = before;
  sha_after = after;
  changes = changed_files commits;
})

abbrev change_event : Runtime → ℤ → (url source action target sha : String) → Event
change_event rt number url source action target sha = pull_request (record {
  id = format_int number;
  url = normalize_url rt url;
  reference = source;
  action = action;
  base = target;
  commit = sha;
})

-- `GetEventFromWebhookPayload` of GitHub and of GitLab.
unfoldable pub github_event : Runtime → Payload → Result (Option Event)
unfolding github_action format_int changed_files
github_event rt (push_payload url ref before after commits) =
    ok (some (push_event rt url ref before after commits))
github_event rt (change_payload number url source action target sha) =
    ok (some (change_event rt number url source (github_action action) target sha))
github_event rt unsupported = err other

unfoldable pub gitlab_event : Runtime → Payload → Result (Option Event)
unfolding gitlab_action format_int changed_files
gitlab_event rt (push_payload url ref before after commits) =
    ok (some (push_event rt url ref before after commits))
gitlab_event rt (change_payload number url source action target sha) =
    ok (some (change_event rt number url source (gitlab_action action) target sha))
gitlab_event rt unsupported = err other

-- By the provider; the mock's gives no event, and a standard one has no webhook.
unfoldable pub get_event_from_webhook_payload : Runtime → Provider → Payload → Result (Option Event)
unfolding github_event gitlab_event
get_event_from_webhook_payload rt github p = github_event rt p
get_event_from_webhook_payload rt gitlab p = gitlab_event rt p
get_event_from_webhook_payload rt standard p = err other
get_event_from_webhook_payload rt mock p = ok none

-- The header without which a provider does not parse a request.
abbrev pub event_header : Provider → String
event_header github = "X-GitHub-Event"
event_header _ = "X-Gitlab-Event"

abbrev pub webhook_secret : Credential → String
webhook_secret c = lookup_or_empty "webhookSecret" c.secrets

module _ (l : Library) where
  open l use {Request, method, header, accepts_secret, parse}

  abbrev pub verified : Parsed → Option Payload
  verified (payload p) = some p
  verified verification_failed = none
  verified parse_error = none

  -- `GetWebhookProvider` and `ParseWebhookPayload` of GitHub or GitLab.
  unfoldable pub parse_webhook_payload :
      Provider → (secret : String) → Effect Request (Option Payload)
  parse_webhook_payload provider secret r =
      let (parsed, r') = parse provider secret r in
      if accepts_secret secret
      then if header (event_header provider) r == "" then (none, r) else (verified parsed, r')
      else (none, r)

  -- One credential of the loops; none where the loop goes on.
  unfoldable pub parse_with : Credential → Effect Request (Option (Provider × Payload))
  unfolding get_provider_from_credentials parse_webhook_payload
  parse_with c r = elim (get_provider_from_credentials c) [
    | none ↦ (none, r)
    | some provider ↦ elim provider [
      | standard ↦ (none, r)
      | mock ↦ (some (mock, unsupported), r)
      | github ↦
          let (parsed, r') = parse_webhook_payload github (webhook_secret c) r in
          (elim parsed [ none ↦ none | some p ↦ some (github, p) ], r')
      | gitlab ↦
          let (parsed, r') = parse_webhook_payload gitlab (webhook_secret c) r in
          (elim parsed [ none ↦ none | some p ↦ some (gitlab, p) ], r')
    ]
  ]

  -- The loops of `tryGetEventFromPayload`.
  unfoldable pub first_parsed : List Credential → Effect Request (Option (Provider × Payload))
  first_parsed [] r = (none, r)
  first_parsed (c ∷ credentials) r =
      let (parsed, r') = parse_with c r in
      let rest = first_parsed credentials r' in elim parsed [ none ↦ rest | some p ↦ (some p, r') ]

  abbrev pub all_credentials : CredentialStore → List Credential
  all_credentials store =
      map (λ c. c.credential) store.shared_credentials
      ++ map (λ c. c.credential) store.repository_credentials

  unfoldable pub try_get_event_from_payload :
      Runtime → CredentialStore → Request → Result (Option Event)
  unfolding first_parsed get_event_from_webhook_payload
  try_get_event_from_payload rt store r = elim (first_parsed (all_credentials store) r).0 [
    | none ↦ ok none
    | some parsed ↦ get_event_from_webhook_payload rt parsed.0 parsed.1
  ]

  module _ (rt : Runtime) (w : World) where
    -- `Handle` of an event, whose error is only logged.
    unfoldable pub handle : Event → w.State → w.State
    unfolding handle_push handle_pull_request
    handle (push e) s = (handle_push e rt w s).1
    handle (pull_request e) s = (handle_pull_request e w rt s).1

    -- `GetHttpHandler`: the status, and the store with its credentials.
    unfoldable pub http_handler : CredentialStore → Request → Effect w.State (ℕ × CredentialStore)
    unfolding get_all_credentials try_get_event_from_payload handle
    http_handler store r s =
        let store' = get_all_credentials w s store in
        elim (try_get_event_from_payload rt store' r) [
          | err e ↦ ((if method r == "POST" then 400 else 405, store'), s)
          | ok event ↦ elim event [
            | none ↦ ((400, store'), s)
            | some e ↦ ((200, store'), handle e s)
          ]
        ]
