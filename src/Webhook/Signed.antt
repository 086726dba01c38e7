-- ===== src/Webhook/Signed.antt =====
-- What a parsed request says of its signature: the part of the libraries behind
-- internal/repository/providers, and the loops of internal/webhook/webhook.go over the credentials.
use burrito.Base.{
  String, ◌≡◌, ◌⊎◌, inl, inr, false, List, [], ◌∷◌, ◌==◌, Bool-cases, Option-cases, arith,
}
use text.Mathlib.TextEquality.{eq_iff}
use burrito.World.{Credential}
use burrito.Webhook.Payloads.{
  Payload, Provider, github, gitlab, standard, mock, payload, Library,
  get_provider_from_credentials, event_header, webhook_secret, parse_webhook_payload, parse_with,
  first_parsed,
}

-- What the service relies on the libraries for: with a secret that is not empty, a payload is parsed only
-- of a request that carries a signature or a token made with that secret, for the provider; and parsing
-- a request makes no signature.
pub record ChecksSecrets (l : Library) : Type 1 where
  pub IsSigned : Provider → (secret : String) → l.Request → Type 0
  pub checks :
      (provider : Provider) (secret : String) (r : l.Request) (p : Payload)
      → (secret == "") ≡ false
      → (l.parse provider secret r).0 ≡ payload p
      → IsSigned provider secret r
  pub keeps :
      (by provider : Provider) (used secret : String) (r : l.Request)
      → IsSigned provider secret (l.parse by used r).1
      → IsSigned provider secret r

module _ (l : Library) where
  open l use {Request, header, accepts_secret, parse}

  module _ (laws : ChecksSecrets l) where
    open laws use {IsSigned}

    parse_keeps :
        (p : Provider) (c : Credential) (q : Provider) (secret : String) (r : Request)
        → IsSigned q secret (parse_webhook_payload l p (webhook_secret c) r).1
        → IsSigned q secret r
    unfolding parse_webhook_payload
    parse_keeps p c q secret r h = elim (Bool-cases (accepts_secret (webhook_secret c))) [
      | inr bad ↦ rw (bad, parse_webhook_payload) at h
      | inl good ↦ elim (Bool-cases (header (event_header p) r == "")) [
        | inl absent ↦ rw (good, absent, parse_webhook_payload) at h
        | inr given ↦
            laws.keeps p q (webhook_secret c) secret r
              (rw (good, given, parse_webhook_payload) at h)
      ]
    ]

    parse_with_keeps :
        (c : Credential) (q : Provider) (secret : String) (r : Request)
        → IsSigned q secret (parse_with l c r).1
        → IsSigned q secret r
    unfolding parse_with
    parse_with_keeps c q secret r h = elim (Option-cases (get_provider_from_credentials c)) [
      | inl unknown ↦ rw (unknown, parse_with) at h
      | inr (standard, which) ↦ rw (which, parse_with) at h
      | inr (mock, which) ↦ rw (which, parse_with) at h
      | inr (github, which) ↦ parse_keeps github c q secret r (rw (which, parse_with) at h)
      | inr (gitlab, which) ↦ parse_keeps gitlab c q secret r (rw (which, parse_with) at h)
    ]

    -- What the loops leave of a request carries no signature that the request does not.
    loops_keep :
        (credentials : List Credential) (q : Provider) (secret : String) (r : Request)
        → IsSigned q secret (first_parsed l credentials r).1
        → IsSigned q secret r
    unfolding first_parsed
    loops_keep [] q secret r h = h
    loops_keep (c ∷ credentials) q secret r h =
        parse_with_keeps c q secret r (elim (Option-cases (parse_with l c r).0) [
          | inr (p, now) ↦ rw (now, first_parsed) at h
          | inl later ↦
              loops_keep credentials q secret (parse_with l c r).1 (rw (later, first_parsed) at h)
        ])

  -- A payload that is parsed behind other credentials is of a signed request, or the secret is empty.
  pub signed_if_any :
      (laws : ChecksSecrets l) (before : List Credential) (q : Provider) (secret : String)
      (r : Request) (p : Payload)
      → (parse q secret (first_parsed l before r).1).0 ≡ payload p
      → (secret ≡ "") ⊎ laws.IsSigned q secret r
  signed_if_any laws before q secret r p h = elim (Bool-cases (secret == "")) [
    | inl empty ↦ inl (ground (arith, empty, eq_iff secret ""))
    | inr filled ↦ inr (
        loops_keep laws before q secret r
          (laws.checks q secret (first_parsed l before r).1 p filled h))
  ]
