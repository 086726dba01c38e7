-- ===== src/Webhook/Verified.antt =====
-- Which requests become events.
use burrito.Base.{
  ℕ, String, ◌≡◌, ◌≢◌, ◌⊎◌, inl, inr, refl, sym, subst, ap, ◌∙◌, Bool, true, false, Option, none,
  some, List, [], ◌∷◌, ◌++◌, ◌==◌, Bool-cases, Option-cases, arith, if◌then◌else◌,
}
use burrito.Base.Dict.{lookup_or_empty}
use burrito.Base.Effect.{ok, Result-cases}
use burrito.World.{World, Runtime, Credential}
use burrito.Credentials.{CredentialStore, get_all_credentials}
use burrito.Webhook.Signed.{ChecksSecrets, signed_if_any}
use burrito.Webhook.Payloads.{
  Payload, Provider, github, gitlab, standard, mock, Parsed, payload, verification_failed,
  parse_error, Library, Event, get_provider_from_credentials, get_event_from_webhook_payload,
  event_header, webhook_secret, verified, parse_webhook_payload, parse_with, first_parsed,
  all_credentials, try_get_event_from_payload, handle, http_handler,
}

not_200 : (b : Bool) → ◌≢◌ {A = ℕ} (if b then 400 else 405) 200
not_200 true h = omega arith
not_200 false h = omega arith

module _ (l : Library) where
  open l use {Request, header, accepts_secret, parse}

  -- The first credential of a list with which a request can be parsed, and what is parsed.
  pub record Found (credentials : List Credential) (r : Request) (parsed : Provider × Payload)
      : Type 0 where
    pub before : List Credential
    pub credential : Credential
    pub after : List Credential
    pub is_split : credentials ≡ before ++ (credential ∷ after)
    pub earlier : (first_parsed l before r).0 ≡ none
    pub here : (parse_with l credential (first_parsed l before r).1).0 ≡ some parsed

  first_parsed-Found :
      (credentials : List Credential) (r : Request) (parsed : Provider × Payload)
      → (first_parsed l credentials r).0 ≡ some parsed
      → Found credentials r parsed
  unfolding first_parsed
  first_parsed-Found [] r parsed h = cc
  first_parsed-Found (c ∷ credentials) r parsed h =
      let r' = (parse_with l c r).1 in
      elim (Option-cases (parse_with l c r).0) [
        | inr (p, now) ↦ record {
          before = [];
          credential = c;
          after = credentials;
          is_split = refl;
          earlier = refl;
          here = now ∙ rw (now, first_parsed) at h;
        }
        | inl later ↦
            let found = first_parsed-Found credentials r' parsed (rw (later, first_parsed) at h) in
            record {
              before = c ∷ found.before;
              credential = found.credential;
              after = found.after;
              is_split = ap (λ (cs : List Credential). c ∷ cs) found.is_split;
              earlier = rw (later, first_parsed) found.earlier;
              here = rw (later, first_parsed) found.here;
            }
      ]

  verified-payload :
      (parsed : Parsed) (p : Payload) → verified l parsed ≡ some p → parsed ≡ payload p
  verified-payload (payload q) p h = cc
  verified-payload verification_failed p h = cc
  verified-payload parse_error p h = cc

  parse_webhook_payload-payload :
      (provider : Provider) (secret : String) (r : Request) (p : Payload)
      → (parse_webhook_payload l provider secret r).0 ≡ some p
      → (parse provider secret r).0 ≡ payload p
  unfolding parse_webhook_payload
  parse_webhook_payload-payload provider secret r p h = elim (Bool-cases (accepts_secret secret)) [
    | inr bad ↦ cc (rw (bad, parse_webhook_payload) at h)
    | inl good ↦ elim (Bool-cases (header (event_header provider) r == "")) [
      | inl absent ↦ cc (rw (good, absent, parse_webhook_payload) at h)
      | inr given ↦
          verified-payload (parse provider secret r).0 p
            (rw (good, given, parse_webhook_payload) at h)
    ]
  ]

  same_payload :
      (provider : Provider) (c : Credential) (r : Request) (q : Payload) (chosen : Provider)
      (p : Payload)
      → (parse_webhook_payload l provider (webhook_secret c) r).0 ≡ some q
      → ◌≡◌ {A = Option (Provider × Payload)} (some (provider, q)) (some (chosen, p))
      → (provider ≡ chosen) × ((parse chosen (webhook_secret c) r).0 ≡ payload p)
  same_payload provider c r q chosen p got h =
      let same : provider ≡ chosen = cc in
      let equal : q ≡ p = cc in
      (
        same,
        subst (λ (x : Provider). (parse x (webhook_secret c) r).0 ≡ payload p) same
            (parse_webhook_payload-payload provider (webhook_secret c) r p (got ∙ ap some equal)),
      )

  -- The part of `parse_with` behind the choice of the provider.
  parsed_by :
      (c : Credential) (provider : Provider) (r : Request)
      → get_provider_from_credentials c ≡ some provider
      → (chosen : Provider) (p : Payload) → (parse_with l c r).0 ≡ some (chosen, p)
      → chosen ≢ mock
      → (provider ≡ chosen) × ((parse chosen (webhook_secret c) r).0 ≡ payload p)
  unfolding parse_with
  parsed_by c standard r which chosen p h real = cc (rw (which, parse_with) at h)
  parsed_by c mock r which chosen p h real =
      let same : mock ≡ chosen = cc (rw (which, parse_with) at h) in absurd (real (sym same))
  parsed_by c github r which chosen p h real =
      elim (Option-cases (parse_webhook_payload l github (webhook_secret c) r).0) [
        | inl nothing ↦ cc (rw (which, parse_with, nothing) at h)
        | inr (q, got) ↦ same_payload github c r q chosen p got (rw (which, parse_with, got) at h)
      ]
  parsed_by c gitlab r which chosen p h real =
      elim (Option-cases (parse_webhook_payload l gitlab (webhook_secret c) r).0) [
        | inl nothing ↦ cc (rw (which, parse_with, nothing) at h)
        | inr (q, got) ↦ same_payload gitlab c r q chosen p got (rw (which, parse_with, got) at h)
      ]

  -- An event is of a request that a credential's provider could parse, and no credential before it;
  -- the request is signed with what the credential has under the key `webhookSecret`, if that is not
  -- empty.
  pub record Verified (laws : ChecksSecrets l) (rt : Runtime) (credentials : List Credential)
      (r : Request) (e : Event) : Type 0 where
    pub before : List Credential
    pub credential : Credential
    pub after : List Credential
    pub is_split : credentials ≡ before ++ (credential ∷ after)
    pub earlier : (first_parsed l before r).0 ≡ none
    pub provider : Provider
    pub is_of : get_provider_from_credentials credential ≡ some provider
    pub is_signed :
        (lookup_or_empty "webhookSecret" credential.secrets ≡ "")
        ⊎ laws.IsSigned provider (lookup_or_empty "webhookSecret" credential.secrets) r
    pub content : Payload
    pub is_parsed :
        (parse provider
          (lookup_or_empty "webhookSecret" credential.secrets)
          (first_parsed l before r).1).0
        ≡ payload content
    pub becomes : get_event_from_webhook_payload rt provider content ≡ ok (some e)

  event-Verified :
      (laws : ChecksSecrets l) (rt : Runtime) (credentials : List Credential) (r : Request)
      (parsed : Provider × Payload) (e : Event)
      → (first_parsed l credentials r).0 ≡ some parsed
      → get_event_from_webhook_payload rt parsed.0 parsed.1 ≡ ok (some e)
      → Verified laws rt credentials r e
  unfolding get_event_from_webhook_payload parse_with
  event-Verified laws rt credentials r (chosen, p) e h event =
      let found = first_parsed-Found credentials r (chosen, p) h in
      let c = found.credential in
      let real : chosen ≢ mock = λ same.
        let silent : ok none ≡ ok (some e) =
          subst (λ (x : Provider). get_event_from_webhook_payload rt x p ≡ ok (some e)) same
            event in
        cc in
      elim (Option-cases (get_provider_from_credentials c)) [
        | inl unknown ↦ cc (rw (unknown, parse_with) at found.here)
        | inr (provider, which) ↦
            let (same, checked) =
              parsed_by c provider (first_parsed l found.before r).1 which chosen p found.here
                real in
            record {
              before = found.before;
              credential = c;
              after = found.after;
              is_split = found.is_split;
              earlier = found.earlier;
              provider = chosen;
              is_of = which ∙ ap some same;
              is_signed = signed_if_any l laws found.before chosen (webhook_secret c) r p checked;
              content = p;
              is_parsed = checked;
              becomes = event;
            }
      ]

  module _ (laws : ChecksSecrets l) (rt : Runtime) (w : World) where
    try_get_event-Verified :
        (store : CredentialStore) (r : Request) (e : Event)
        → try_get_event_from_payload l rt store r ≡ ok (some e)
        → Verified laws rt (all_credentials l store) r e
    unfolding try_get_event_from_payload
    try_get_event-Verified store r e h =
        elim (Option-cases (first_parsed l (all_credentials l store) r).0) [
          | inl nothing ↦ cc (rw (nothing, try_get_event_from_payload) at h)
          | inr (parsed, got) ↦
              event-Verified laws rt (all_credentials l store) r parsed e got
                (rw (got, try_get_event_from_payload) at h)
        ]

    -- Either a request changes nothing and is not answered with 200; or it is answered with 200, the
    -- first stored credential that can parse it has an empty webhook secret, or the request is signed
    -- with that secret for the provider of the credential, and what changes is what the handler of its
    -- event does.
    pub http_handler-Verified :
        (store : CredentialStore) (r : Request) (s : w.State)
        → let (answer, s') = http_handler l rt w store r s in
          ((answer.0 ≢ 200) × (s' ≡ s))
          ⊎ ((e : Event) × Verified laws rt (all_credentials l (get_all_credentials w s store)) r e
              × (answer.0 ≡ 200)
              × (s' ≡ handle l rt w e s))
    unfolding http_handler
    http_handler-Verified store r s =
        let store' = get_all_credentials w s store in
        elim (Result-cases (try_get_event_from_payload l rt store' r)) [
          | inr (e, bad) ↦ inl (rw (bad, http_handler) (not_200 (l.method r == "POST"), refl))
          | inl (event, got) ↦ elim (Option-cases event) [
            | inl nothing ↦ inl (rw (got, nothing, http_handler) (λ h. omega arith, refl))
            | inr (e, some_event) ↦ inr (
              e,
              try_get_event-Verified store' r e (got ∙ ap ok some_event),
              rw (got, some_event, http_handler) refl,
              rw (got, some_event, http_handler) refl,
            )
          ]
        ]
