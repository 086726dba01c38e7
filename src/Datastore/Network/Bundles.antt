-- ===== src/Datastore/Network/Bundles.antt =====
-- A git bundle through the client, the server and the storage: what the repository controller relies on.
use burrito.Base.{
  String, ◌≡◌, refl, sym, ◌∙◌, true, false, Option, some, List, arith, inl, inr, Bool-cases,
}
use burrito.Base.Effect.{Result, ok}
use burrito.Encryption.{Bytes, Crypto, Encryptor}
use burrito.Authz.{Authz, Cluster, process}
use burrito.Datastore.{Backend, compute_git_bundle_key}
use burrito.Datastore.Storage.{put_git_bundle}
use burrito.Datastore.Handlers.{
  Query, Body, misses_revision, put_git_bundle_handler, head_git_bundle_handler,
}
use burrito.Datastore.Client.{bundles, Received, put, head, revision_query, stored_if_ok, is_there}
use burrito.Datastore.Client
use burrito.Datastore.Server.{handle}
use burrito.Datastore.Network.{
  network, IsAccepted, fetch-handle, do_request-handle, store-stores, received,
}
use burrito.Datastore.Network.{status_of_stored}
use burrito.Datastore.Network.Checked.{
  CheckLaws, IsChecked, head_ok, head-IsChecked, write-IsChecked, put_handler_keeps-IsChecked,
}

status_of_there : (r : Received) → is_there r ≡ ok true → r.status ≡ 200
status_of_there r h = ground arith

there_of_status : (r : Received) → r.status ≡ 200 → is_there r ≡ ok true
there_of_status r h = rw h refl

module _ (a : Authz) (c : Cluster) (b : Backend) (crypto : Crypto b.State)
    (manager : Option Encryptor) (token : String) (unmarshal : Body → Result (List Bytes))
    (raw : Body → Bytes) (accepted : IsAccepted a c b crypto manager token unmarshal raw) where
  abbrev net : Client.Transport
  net = network a c b crypto manager token unmarshal raw

  -- The client is told that the bundle of a revision is there.
  abbrev pub IsThere : c.State × b.State → (namespace name ref revision : String) → Type 0
  IsThere s n p r v = (Client.check_git_bundle net n p r v s).0 ≡ ok true

  abbrev head_of : (n p r v : String) → b.State → Received
  head_of n p r v sb =
      received a c b crypto manager token unmarshal raw
        (head_git_bundle_handler b crypto manager (revision_query n p r v) sb).0

  sent_head :
      (n p r v : String) (sa : c.State) (sb : b.State)
      → (Client.check_git_bundle net n p r v (sa, sb)).0 ≡ is_there (head_of n p r v sb)
  unfolding Client.check_git_bundle handle
  sent_head n p r v sa sb =
      fetch-handle a c b crypto manager token unmarshal raw accepted bundles
        (revision_query n p r v) head is_there sa sb

  sent_put :
      (n p r v : String) (bundle : Bytes) (sa : c.State) (sb : b.State)
      → let h = put_git_bundle_handler b crypto manager (revision_query n p r v) (some bundle) sb in
        Client.put_git_bundle net n p r v bundle (sa, sb) ≡ (
          stored_if_ok (received a c b crypto manager token unmarshal raw h.0),
          ((process a c token sa).1, h.1),
        )
  unfolding Client.put_git_bundle handle
  sent_put n p r v bundle sa sb =
      do_request-handle a c b crypto manager token unmarshal raw accepted stored_if_ok bundles put
        (revision_query n p r v) (some bundle) sa sb

  there :
      (n p r v : String) (sa : c.State) (sb : b.State)
      → IsThere (sa, sb) n p r v
      → (misses_revision (revision_query n p r v) ≡ false)
        × IsChecked b crypto manager (compute_git_bundle_key n p r v) sb
  there n p r v sa sb h =
      head-IsChecked b crypto manager (revision_query n p r v) sb
        (status_of_there (head_of n p r v sb) (sym (sent_head n p r v sa sb) ∙ h))

  checked-IsThere :
      (n p r v : String) (sa : c.State) (sb : b.State)
      → misses_revision (revision_query n p r v) ≡ false
      → IsChecked b crypto manager (compute_git_bundle_key n p r v) sb
      → IsThere (sa, sb) n p r v
  checked-IsThere n p r v sa sb given h =
      sent_head n p r v sa sb
      ∙ there_of_status (head_of n p r v sb)
          (head_ok b crypto manager (revision_query n p r v) sb given h)

  module _ (laws : CheckLaws b crypto) where
    put-IsChecked :
        (q : Query) (bundle : Bytes) (s : b.State)
        → (put_git_bundle_handler b crypto manager q (some bundle) s).0.status ≡ 200
        → (misses_revision q ≡ false)
          × IsChecked b crypto manager
              (compute_git_bundle_key q.namespace q.name q.ref q.revision)
              (put_git_bundle_handler b crypto manager q (some bundle) s).1
    unfolding put_git_bundle_handler put_git_bundle
    put-IsChecked q bundle s h = elim (Bool-cases (misses_revision q)) [
      | inl missing ↦ absurd (omega (arith, rw (missing, put_git_bundle_handler) at h))
      | inr given ↦
          let (done, same) =
            store-stores b crypto manager bundle
              (put_git_bundle b crypto manager q.namespace q.name q.ref q.revision) s
              (rw (given, put_git_bundle_handler) at h) in
          (
            given,
            rw (given, put_git_bundle_handler, same)
                (write-IsChecked b crypto manager laws _ bundle s done),
          )
    ]

    -- Through the client, a bundle that was put without an error is there.
    pub put_git_bundle-IsThere :
        (n p r v : String) (bundle : Bytes) (s : c.State × b.State)
        → (Client.put_git_bundle net n p r v bundle s).0 ≡ ok tt
        → IsThere (Client.put_git_bundle net n p r v bundle s).1 n p r v
    put_git_bundle-IsThere n p r v bundle (sa, sb) h =
        let q = revision_query n p r v in
        let handled = put_git_bundle_handler b crypto manager q (some bundle) sb in
        let sent = sent_put n p r v bundle sa sb in
        let (given, sum) = put-IsChecked q bundle sb (
          status_of_stored (received a c b crypto manager token unmarshal raw handled.0)
            (rw sent at h)) in
        rw sent (checked-IsThere n p r v (process a c token sa).1 handled.1 given sum)

    -- Through the client, a bundle that is there stays when a bundle is put, with an error or without.
    pub put_git_bundle_keeps-IsThere :
        (n p r v n' p' r' v' : String) (bundle : Bytes) (s : c.State × b.State)
        → IsThere s n' p' r' v'
        → IsThere (Client.put_git_bundle net n p r v bundle s).1 n' p' r' v'
    put_git_bundle_keeps-IsThere n p r v n' p' r' v' bundle (sa, sb) h =
        let q = revision_query n p r v in
        let handled = put_git_bundle_handler b crypto manager q (some bundle) sb in
        let (given, sum) = there n' p' r' v' sa sb h in
        rw (sent_put n p r v bundle sa sb) (
          checked-IsThere n' p' r' v' (process a c token sa).1 handled.1 given
            (put_handler_keeps-IsChecked b crypto manager laws _ q bundle sb sum))
