-- ===== src/Datastore/Network.antt =====
-- The datastore's client on a network that carries its requests to the datastore's server and the
-- answers back.
pub mod Plans
pub mod Checked
pub mod Bundles
use burrito.Base.{
  ℕ, String, ◌≡◌, refl, Bool, true, false, Option, none, some, List, arith, eqb, inl, inr, ap,
}
use burrito.Base.Effect.{Result, ok, err, Effect, Result-cases}
use burrito.Encryption.{Bytes, Crypto, Encryptor}
use burrito.Authz.{Authz, Cluster, next, process}
use burrito.Datastore.{Backend}
use burrito.Datastore.Handlers.{Query, Body, blob, Response, answer, no_content, store}
use burrito.Datastore.Client.{
  Route, Method, Request, Received, Transport, stored_if_ok, upload_attempt, fetch, do_request,
}
use burrito.Datastore.Server.{serve, handle}

pub status_of_stored : (r : Received) → stored_if_ok r ≡ ok tt → r.status ≡ 200
status_of_stored r h = ground arith

-- An upload that is answered with 200 was stored.
pub store-stores :
    (b : Backend) (crypto : Crypto b.State) (manager : Option Encryptor) (content : Bytes)
    (put : Bytes → Effect b.State (Result (Unit {0}))) (s : b.State)
    → (store b crypto manager (some content) put s).0.status ≡ 200
    → ((put content s).0 ≡ ok tt)
      × ((store b crypto manager (some content) put s).1 ≡ (put content s).1)
unfolding store
store-stores b crypto manager content put s h = elim (Result-cases (put content s).0) [
  | inr (e, failed) ↦ absurd (omega (arith, rw (failed, store) at h))
  | inl (u, done) ↦ (done, refl)
]

module _ (a : Authz) (c : Cluster) (b : Backend) (crypto : Crypto b.State)
    (manager : Option Encryptor) (token : String) (unmarshal : Body → Result (List Bytes))
    (raw : Body → Bytes) where
  abbrev pub network : Transport
  network = record {
    State = c.State × b.State;
    accepts_url = λ route query. true;
    read_token = λ s. ok token;
    send = λ req s.
        let (resp, s') = serve b crypto manager a c req s in
        (ok (record { status = resp.status; body = some resp.body }), s');
    unmarshal = unmarshal;
    raw = raw;
  }

  -- The token is that of an allowed service account, whenever it is asked.
  abbrev pub IsAccepted : Type 0
  IsAccepted = (sa : c.State) → (user : String) × ((process a c token sa).0 ≡ next user)

  abbrev pub request : Route → Method → Query → Option Bytes → Request
  request route method query upload = record {
    method = method;
    route = route;
    query = query;
    token = token;
    upload = upload;
  }

  abbrev pub received : Response → Received
  received resp = record { status = resp.status; body = some resp.body }

  pub do_request-handle {ℓ} :
      IsAccepted
      → {A : Type ℓ} (f : Received → Result A) (route : Route) (method : Method) (query : Query)
        (upload : Option Bytes) (sa : c.State) (sb : b.State)
      → let req = request route method query upload in
        let handled = handle b crypto manager route method req sb in
        do_request network f req (sa, sb)
        ≡ (f (received handled.0), ((process a c token sa).1, handled.1))
  unfolding do_request serve
  do_request-handle accepted f route method query upload sa sb =
      let (user, passed) = accepted sa in rw (passed, serve) refl

  -- An upload of the client, and the handler that it reaches.
  pub upload_attempt-handle :
      IsAccepted
      → (route : Route) (query : Query) (content : Bytes) (sa : c.State) (sb : b.State)
      → let h =
          handle b crypto manager route Method.put
            (request route Method.put query (some content))
            sb in
        upload_attempt network route query content (sa, sb)
        ≡ (some (stored_if_ok (received h.0)), ((process a c token sa).1, h.1))
  unfolding upload_attempt
  upload_attempt-handle accepted route query content sa sb =
      ap (λ (o : Result (Unit {0}) × (c.State × b.State)). (some o.0, o.1))
        (do_request-handle accepted stored_if_ok route Method.put query (some content) sa sb)

  -- A call of the client for an answer, and the handler that it reaches.
  pub fetch-handle {ℓ} :
      IsAccepted
      → {A : Type ℓ} (route : Route) (query : Query) (method : Method) (f : Received → Result A)
        (sa : c.State) (sb : b.State)
      → let h = handle b crypto manager route method (request route method query none) sb in
        (fetch network route query method f (sa, sb)).0 ≡ f (received h.0)
  unfolding fetch
  fetch-handle accepted {A} route query method f sa sb =
      ap (λ (o : Result A × (c.State × b.State)). o.0)
        (do_request-handle accepted f route method query none sa sb)
