-- ===== src/Server/Runs/Downloads.antt =====
-- The logs of an attempt, from the client that uploads them to what the server answers.
use burrito.Base.{
  ℕ, String, ◌≡◌, refl, ap, ◌∙◌, false, ◌||◌, Option, some, List, [], ◌∷◌, arith, eqb, inl, inr,
  Bool-cases, ◌==◌,
}
use burrito.Base.Effect.{Result, ok}
use burrito.Encryption.{Bytes, Crypto, Encryptor}
use burrito.Encryption.RoundTrip.{CryptoLaws}
use burrito.Authz.{Authz, Cluster, process}
use burrito.Datastore.{Backend, compute_logs_key}
use burrito.Datastore.Storage.{get_logs, put_logs}
use burrito.Datastore.Stored.{BackendLaws, read-write}
use burrito.Datastore.Handlers.{
  Query, Body, results, answer, misses_run, split_bytes, get_logs_handler, put_logs_handler,
}
use burrito.Datastore.Client.{
  logs, Received, get, put, attempt_query, stored_if_ok, with_status, lines_of,
}
use burrito.Datastore.Client
use burrito.Datastore.Server.{handle}
use burrito.Datastore.Network.{
  network, IsAccepted, upload_attempt-handle, fetch-handle, store-stores, received,
}
use burrito.Datastore.Network.{status_of_stored}
use burrito.Server.Runs.{
  misses_attempt, join_bytes, get_logs_handler as shown_logs, download_logs_handler,
}

-- The lines that the datastore answers with.
abbrev pub lines : Bytes → List Bytes
lines content = let (first, others) = split_bytes 10 content in first ∷ others

join-cons :
    (c : ℕ) (line : Bytes) (others : List Bytes)
    → join_bytes 10 ((c ∷ line) ∷ others) ≡ c ∷ join_bytes 10 (line ∷ others)
unfolding join_bytes
join-cons c line [] = refl
join-cons c line (next ∷ others) = refl

join-lines : (content : Bytes) → join_bytes 10 (lines content) ≡ content
unfolding join_bytes split_bytes
join-lines [] = refl
join-lines (c ∷ content) =
    let ih = join-lines content in
    let parts = split_bytes 10 content in
    elim (Bool-cases (eqb c 10)) [
      | inl newline ↦
          let is_ten : ◌≡◌ {A = ℕ} 10 c = ground (arith, newline) in
          rw (newline, split_bytes)
            (ap (λ (l : Bytes). 10 ∷ l) ih ∙ ap (λ (x : ℕ). x ∷ content) is_ten)
      | inr plain ↦
          rw (plain, split_bytes) (join-cons c parts.0 parts.1 ∙ ap (λ (l : Bytes). c ∷ l) ih)
    ]

module _ (b : Backend) (crypto : Crypto b.State) (manager : Option Encryptor) where
  -- An upload of logs that is answered with 200 has stored them, and all that names the attempt was given.
  put_handler-stores :
      (q : Query) (content : Bytes) (s : b.State)
      → (put_logs_handler b crypto manager q (some content) s).0.status ≡ 200
      → let put = put_logs b crypto manager q.namespace q.layer q.run q.attempt in
        (misses_run q ≡ false)
        × ((q.attempt == "") ≡ false)
        × ((put content s).0 ≡ ok tt)
        × ((put_logs_handler b crypto manager q (some content) s).1 ≡ (put content s).1)
  unfolding put_logs_handler
  put_handler-stores q content s h = elim (Bool-cases (q.attempt == "" || misses_run q)) [
    | inl missing ↦ absurd (omega (arith, rw (missing, put_logs_handler) at h))
    | inr given ↦
        let (done, same) =
          store-stores b crypto manager content
            (put_logs b crypto manager q.namespace q.layer q.run q.attempt) s
            (rw (given, put_logs_handler) at h) in
        (ground (arith, given), ground (arith, given), done, rw (given, put_logs_handler) same)
  ]

  logs_kept :
      BackendLaws b crypto
      → CryptoLaws crypto
      → (n l r attempt : String) (content : Bytes) (s : b.State)
      → (put_logs b crypto manager n l r attempt content s).0 ≡ ok tt
      → (get_logs b crypto manager n l r attempt
          (put_logs b crypto manager n l r attempt content s).1).0
        ≡ ok content
  unfolding get_logs put_logs
  logs_kept laws crypto_laws n l r attempt content s h =
      read-write b crypto laws crypto_laws manager (compute_logs_key n l r attempt) content s h

  get_handler-reads :
      (q : Query) (content : Bytes) (s : b.State)
      → misses_run q ≡ false
      → (q.attempt == "") ≡ false
      → (get_logs b crypto manager q.namespace q.layer q.run q.attempt s).0 ≡ ok content
      → (get_logs_handler b crypto manager q s).0 ≡ answer 200 (results (lines content))
  unfolding get_logs_handler
  get_handler-reads q content s given named found = rw (given, named, found, get_logs_handler) refl

module _ (a : Authz) (c : Cluster) (b : Backend) (crypto : Crypto b.State)
    (manager : Option Encryptor) (token : String) (unmarshal : Body → Result (List Bytes))
    (raw : Body → Bytes) (accepted : IsAccepted a c b crypto manager token unmarshal raw) where
  abbrev net : Client.Transport
  net = network a c b crypto manager token unmarshal raw

  sent_put :
      (n l r attempt : String) (content : Bytes) (sa : c.State) (sb : b.State)
      → let h =
          put_logs_handler b crypto manager (attempt_query n l r attempt "") (some content) sb in
        Client.put_logs net n l r attempt content (sa, sb) ≡ (
          some (stored_if_ok (received a c b crypto manager token unmarshal raw h.0)),
          ((process a c token sa).1, h.1),
        )
  unfolding Client.put_logs handle
  sent_put n l r attempt content sa sb =
      upload_attempt-handle a c b crypto manager token unmarshal raw accepted logs
        (attempt_query n l r attempt "") content sa sb

  sent_get :
      (n l r attempt : String) (content : Bytes) (sa : c.State) (sb : b.State)
      → unmarshal (results (lines content)) ≡ ok (lines content)
      → (get_logs_handler b crypto manager (attempt_query n l r attempt "") sb).0
        ≡ answer 200 (results (lines content))
      → (Client.get_logs net n l r attempt (sa, sb)).0 ≡ ok (lines content)
  unfolding Client.get_logs handle lines_of
  sent_get n l r attempt content sa sb carried h =
      fetch-handle a c b crypto manager token unmarshal raw accepted logs
        (attempt_query n l r attempt "") get (λ resp. with_status resp (lines_of net resp)) sa sb
      ∙ rw (h, carried) refl

  misses_nothing :
      (n l r attempt : String)
      → misses_run (attempt_query n l r attempt "") ≡ false
      → (attempt == "") ≡ false
      → misses_attempt n l r attempt ≡ false
  unfolding misses_run
  misses_nothing n l r attempt given named = ground (arith, given, named)

  -- Logs that the client was told are stored, and whose lines JSON carries, are what the server then answers
  -- for the same attempt, line by line and as a file byte by byte, through the authorisation, the handlers
  -- and the encryption.
  pub download_logs-put_logs :
      BackendLaws b crypto
      → CryptoLaws crypto
      → (n l r attempt : String) (content : Bytes) (s : c.State × b.State)
      → unmarshal (results (lines content)) ≡ ok (lines content)
      → (Client.put_logs net n l r attempt content s).0 ≡ some (ok tt)
      → let s' = (Client.put_logs net n l r attempt content s).1 in
        ((shown_logs net n l r attempt s').0 ≡ (200, lines content))
        × ((download_logs_handler net n l r attempt s').0 ≡ (200, content))
  unfolding download_logs_handler shown_logs
  download_logs-put_logs laws crypto_laws n l r attempt content (sa, sb) carried h =
      let q = attempt_query n l r attempt "" in
      let stored = put_logs_handler b crypto manager q (some content) sb in
      let sent = sent_put n l r attempt content sa sb in
      let status =
        status_of_stored (received a c b crypto manager token unmarshal raw stored.0)
          (cc (rw sent at h)) in
      let (given, named, done, same) = put_handler-stores b crypto manager q content sb status in
      let kept = logs_kept b crypto manager laws crypto_laws n l r attempt content sb done in
      let got =
        sent_get n l r attempt content (process a c token sa).1 stored.1 carried
          (get_handler-reads b crypto manager q content stored.1 given named (rw same kept)) in
      let all_given = misses_nothing n l r attempt given named in
      (
        rw (sent, shown_logs, all_given, got) refl,
        rw (sent, download_logs_handler, all_given, got)
            (ap (λ (file : Bytes). (200, file)) (join-lines content)),
      )
