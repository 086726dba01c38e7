-- ===== src/Datastore/Network/Plans.antt =====
-- A plan through the client, the server and the storage.
use burrito.Base.{
  String, ◌≡◌, refl, ◌∙◌, false, ◌||◌, Option, some, List, arith, inl, inr, Bool-cases, ◌==◌,
}
use burrito.Base.Effect.{Result, ok}
use burrito.Encryption.{Bytes, Crypto, Encryptor}
use burrito.Encryption.RoundTrip.{CryptoLaws}
use burrito.Authz.{Authz, Cluster, process}
use burrito.Datastore.{Backend, compute_plan_key}
use burrito.Datastore.Storage.{get_plan, put_plan}
use burrito.Datastore.Stored.{BackendLaws, read-write}
use burrito.Datastore.Handlers.{
  Query, Body, blob, answer, misses_run, plan_format, get_plan_handler, put_plan_handler,
}
use burrito.Datastore.Client.{
  plans, Received, get, put, attempt_query, stored_if_ok, with_status, body_of, do_request,
}
use burrito.Datastore.Client
use burrito.Datastore.Server.{handle}
use burrito.Datastore.Network.{
  network, IsAccepted, upload_attempt-handle, status_of_stored, fetch-handle, store-stores,
  received,
}

module _ (b : Backend) (crypto : Crypto b.State) (manager : Option Encryptor) where
  -- An upload of a plan that is answered with 200 has stored it, and all that names the attempt was given.
  put_handler-stores :
      (q : Query) (content : Bytes) (s : b.State)
      → (put_plan_handler b crypto manager q (some content) s).0.status ≡ 200
      → let put = put_plan b crypto manager q.namespace q.layer q.run q.attempt (plan_format q) in
        (misses_run q ≡ false)
        × ((q.attempt == "") ≡ false)
        × ((put content s).0 ≡ ok tt)
        × ((put_plan_handler b crypto manager q (some content) s).1 ≡ (put content s).1)
  unfolding put_plan_handler
  put_handler-stores q content s h =
      elim (Bool-cases (misses_run q || (q.attempt == "" || plan_format q == ""))) [
        | inl missing ↦ absurd (omega (arith, rw (missing, put_plan_handler) at h))
        | inr given ↦
            let (done, same) =
              store-stores b crypto manager content
                (put_plan b crypto manager q.namespace q.layer q.run q.attempt (plan_format q)) s
                (rw (given, put_plan_handler) at h) in
            (ground (arith, given), ground (arith, given), done, rw (given, put_plan_handler) same)
      ]

  plan_kept :
      BackendLaws b crypto
      → CryptoLaws crypto
      → (n l r attempt format : String) (plan : Bytes) (s : b.State)
      → (put_plan b crypto manager n l r attempt format plan s).0 ≡ ok tt
      → (get_plan b crypto manager n l r attempt format
          (put_plan b crypto manager n l r attempt format plan s).1).0
        ≡ ok plan
  unfolding get_plan put_plan
  plan_kept laws crypto_laws n l r attempt format plan s h =
      read-write b crypto laws crypto_laws manager (compute_plan_key n l r attempt format) plan s h

  get_handler-reads :
      (q : Query) (content : Bytes) (s : b.State)
      → misses_run q ≡ false
      → (q.attempt == "") ≡ false
      → (get_plan b crypto manager q.namespace q.layer q.run q.attempt (plan_format q) s).0
        ≡ ok content
      → (get_plan_handler b crypto manager q s).0 ≡ answer 200 (blob content)
  unfolding get_plan_handler
  get_handler-reads q content s given named found = rw (given, named, found, get_plan_handler) refl

module _ (a : Authz) (c : Cluster) (b : Backend) (crypto : Crypto b.State)
    (manager : Option Encryptor) (token : String) (unmarshal : Body → Result (List Bytes))
    (raw : Body → Bytes) (accepted : IsAccepted a c b crypto manager token unmarshal raw)
    (raw_blob : (bytes : Bytes) → raw (blob bytes) ≡ bytes) where
  abbrev net : Client.Transport
  net = network a c b crypto manager token unmarshal raw

  sent_put :
      (n l r attempt format : String) (plan : Bytes) (sa : c.State) (sb : b.State)
      → let h =
          put_plan_handler b crypto manager (attempt_query n l r attempt format) (some plan) sb in
        Client.put_plan net n l r attempt format plan (sa, sb) ≡ (
          some (stored_if_ok (received a c b crypto manager token unmarshal raw h.0)),
          ((process a c token sa).1, h.1),
        )
  unfolding Client.put_plan handle
  sent_put n l r attempt format plan sa sb =
      upload_attempt-handle a c b crypto manager token unmarshal raw accepted plans
        (attempt_query n l r attempt format) plan sa sb

  sent_get :
      (n l r attempt format : String) (plan : Bytes) (sa : c.State) (sb : b.State)
      → (get_plan_handler b crypto manager (attempt_query n l r attempt format) sb).0
        ≡ answer 200 (blob plan)
      → (Client.get_plan net n l r attempt format (sa, sb)).0 ≡ ok plan
  unfolding Client.get_plan handle body_of
  sent_get n l r attempt format plan sa sb h =
      fetch-handle a c b crypto manager token unmarshal raw accepted plans
        (attempt_query n l r attempt format) get (λ resp. with_status resp (body_of net resp)) sa sb
      ∙ rw (h, raw_blob plan) refl

  -- A plan that the client was told is stored is what the client then gets for the same attempt and format,
  -- through the authorisation, the handlers and the encryption.
  pub get_plan-put_plan :
      BackendLaws b crypto
      → CryptoLaws crypto
      → (n l r attempt format : String) (plan : Bytes) (s : c.State × b.State)
      → (Client.put_plan net n l r attempt format plan s).0 ≡ some (ok tt)
      → (Client.get_plan net n l r attempt format
          (Client.put_plan net n l r attempt format plan s).1).0
        ≡ ok plan
  get_plan-put_plan laws crypto_laws n l r attempt format plan (sa, sb) h =
      let q = attempt_query n l r attempt format in
      let stored = put_plan_handler b crypto manager q (some plan) sb in
      let sent = sent_put n l r attempt format plan sa sb in
      let status =
        status_of_stored (received a c b crypto manager token unmarshal raw stored.0)
          (cc (rw sent at h)) in
      let (given, named, done, same) = put_handler-stores b crypto manager q plan sb status in
      rw sent (
        sent_get n l r attempt format plan (process a c token sa).1 stored.1 (
          get_handler-reads b crypto manager q plan stored.1 given named (
            rw same (
              plan_kept b crypto manager laws crypto_laws n l r attempt (plan_format q) plan sb
                done))))
