-- ===== src/Webhook/Unheard.antt =====
-- The credentials that a request is not tried with, since its body has been read.
use burrito.Base.{
  String, ◌≡◌, ◌≢◌, ◌⊎◌, inl, inr, refl, true, false, none, some, List, [], ◌∷◌, ◌==◌, All,
  Bool-cases, Option-cases,
}
use burrito.World.{World, Runtime, Credential}
use burrito.Credentials.{CredentialStore, get_all_credentials}
use burrito.Webhook.Payloads.{
  Payload, Provider, github, gitlab, standard, mock, Parsed, payload, verification_failed,
  parse_error, Library, get_provider_from_credentials, event_header, webhook_secret, verified,
  parse_webhook_payload, parse_with, first_parsed, all_credentials, try_get_event_from_payload,
  http_handler,
}

module _ (l : Library) where
  open l use {Request, header, accepts_secret, parse}

  -- Nothing is left of the body, so no parse gives a payload, whatever else it answers.
  abbrev pub IsRead : Request → Type 0
  IsRead r =
      (provider : Provider) (secret : String) (p : Payload)
      → (parse provider secret r).0 ≢ payload p

  -- A parse reads the body to its end and closes it.
  abbrev pub ReadsBody : Type 0
  ReadsBody =
      (provider : Provider) (secret : String) (r : Request) → IsRead (parse provider secret r).1

  no_payload : (parsed : Parsed) → ((p : Payload) → parsed ≢ payload p) → verified l parsed ≡ none
  no_payload (payload p) h = absurd (h p refl)
  no_payload verification_failed h = refl
  no_payload parse_error h = refl

  abbrev pub IsReal : Credential → Type 0
  IsReal c = get_provider_from_credentials c ≢ some mock

  module _ (reads : ReadsBody) where
    parse_webhook_payload-IsRead :
        (provider : Provider) (secret : String) (r : Request)
        → IsRead r
        → ((parse_webhook_payload l provider secret r).0 ≡ none)
          × IsRead (parse_webhook_payload l provider secret r).1
    unfolding parse_webhook_payload
    parse_webhook_payload-IsRead provider secret r h = elim (Bool-cases (accepts_secret secret)) [
      | inr bad ↦ rw (bad, parse_webhook_payload) (refl, h)
      | inl good ↦ elim (Bool-cases (header (event_header provider) r == "")) [
        | inl absent ↦ rw (good, absent, parse_webhook_payload) (refl, h)
        | inr given ↦ (
          rw (good, given, parse_webhook_payload)
              (no_payload (parse provider secret r).0 (h provider secret)),
          rw (good, given, parse_webhook_payload) (reads provider secret r),
        )
      ]
    ]

    parse_with-IsRead :
        (c : Credential) (r : Request)
        → IsReal c
        → IsRead r
        → ((parse_with l c r).0 ≡ none) × IsRead (parse_with l c r).1
    unfolding parse_with
    parse_with-IsRead c r real h = elim (Option-cases (get_provider_from_credentials c)) [
      | inl unknown ↦ rw (unknown, parse_with) (refl, h)
      | inr (standard, which) ↦ rw (which, parse_with) (refl, h)
      | inr (mock, which) ↦ absurd (real which)
      | inr (github, which) ↦
          let (nothing, read) = parse_webhook_payload-IsRead github (webhook_secret c) r h in
          rw (which, parse_with) (rw nothing refl, read)
      | inr (gitlab, which) ↦
          let (nothing, read) = parse_webhook_payload-IsRead gitlab (webhook_secret c) r h in
          rw (which, parse_with) (rw nothing refl, read)
    ]

    first_parsed-IsRead :
        (credentials : List Credential) (r : Request)
        → All IsReal credentials
        → IsRead r
        → (first_parsed l credentials r).0 ≡ none
    unfolding first_parsed
    first_parsed-IsRead [] r real h = refl
    first_parsed-IsRead (c ∷ credentials) r (here, rest) h =
        let (nothing, read) = parse_with-IsRead c r here h in
        rw (nothing, first_parsed) (first_parsed-IsRead credentials (parse_with l c r).1 rest read)

    refused_parse :
        (provider : Provider) (secret : String) (r : Request)
        → accepts_secret secret ≡ true
        → (header (event_header provider) r == "") ≡ false
        → (parse provider secret r).0 ≡ verification_failed
        → ((parse_webhook_payload l provider secret r).0 ≡ none)
          × IsRead (parse_webhook_payload l provider secret r).1
    unfolding parse_webhook_payload
    refused_parse provider secret r good given bad = (
      rw (good, given, parse_webhook_payload, bad) refl,
      rw (good, given, parse_webhook_payload) (reads provider secret r),
    )

    refused_parse_with :
        (c : Credential) (provider : Provider) (r : Request)
        → (provider ≡ github) ⊎ (provider ≡ gitlab)
        → get_provider_from_credentials c ≡ some provider
        → ((parse_webhook_payload l provider (webhook_secret c) r).0 ≡ none)
          × IsRead (parse_webhook_payload l provider (webhook_secret c) r).1
        → ((parse_with l c r).0 ≡ none) × IsRead (parse_with l c r).1
    unfolding parse_with
    refused_parse_with c standard r hosted which (nothing, read) = elim hosted [
      | inl e ↦ cc
      | inr e ↦ cc
    ]
    refused_parse_with c mock r hosted which (nothing, read) = elim hosted [
      | inl e ↦ cc
      | inr e ↦ cc
    ]
    refused_parse_with c github r hosted which (nothing, read) =
        rw (which, parse_with) (rw nothing refl, read)
    refused_parse_with c gitlab r hosted which (nothing, read) =
        rw (which, parse_with) (rw nothing refl, read)

    -- Where no parse gives a payload of a request that was parsed before: if the first credential is of
    -- GitHub or GitLab, the request has the header of its provider, and its signature does not fit the
    -- credential's secret, then the answer is 400 and nothing changes, whatever the credentials behind
    -- it, mocks apart.
    pub later_credentials_are_unheard :
        (rt : Runtime) (w : World) (store : CredentialStore) (r : Request) (s : w.State)
        (c : Credential) (others : List Credential) (provider : Provider)
        → all_credentials l (get_all_credentials w s store) ≡ c ∷ others
        → All IsReal others
        → (provider ≡ github) ⊎ (provider ≡ gitlab)
        → get_provider_from_credentials c ≡ some provider
        → accepts_secret (webhook_secret c) ≡ true
        → (header (event_header provider) r == "") ≡ false
        → (parse provider (webhook_secret c) r).0 ≡ verification_failed
        → http_handler l rt w store r s ≡ ((400, get_all_credentials w s store), s)
    unfolding http_handler try_get_event_from_payload first_parsed
    later_credentials_are_unheard rt w store r s c others provider listed real hosted which good
          given bad =
        let (nothing, read) =
          refused_parse_with c provider r hosted which
            (refused_parse provider (webhook_secret c) r good given bad) in
        let silent : (first_parsed l (all_credentials l (get_all_credentials w s store)) r).0
            ≡ none =
          rw (listed, nothing, first_parsed)
            (first_parsed-IsRead others (parse_with l c r).1 real read) in
        rw (http_handler, try_get_event_from_payload, silent) refl
