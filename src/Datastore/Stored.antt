-- ===== src/Datastore/Stored.antt =====
-- What is read back from the datastore after a write.
use burrito.Base.{
  String, ◌==◌, ◌≡◌, ◌≢◌, refl, ap, ◌∙◌, Option, none, some, inl, inr, arith, Bool-cases, ◌⊎◌,
  eq_refl, eq_iff, ◌&&◌, if◌then◌else◌,
}
use burrito.Base.Effect.{ok, Result-cases}
use burrito.Encryption.{Bytes, Crypto, Encryptor, protect, encrypt}
use burrito.Encryption.RoundTrip.{CryptoLaws, reveal-protect}
use burrito.Datastore.{Backend, compute_logs_key, compute_git_bundle_key}
use burrito.Datastore.Keys.{IsName, compute_logs_key_inj, compute_git_bundle_key_inj}
use burrito.Datastore.Plain.{IsPlain, logs_key-IsPlain, bundle_key-IsPlain}
use burrito.Datastore.Storage.{read, write, get_logs, put_logs, get_git_bundle, put_git_bundle}

-- What the datastore expects of a backend: a value that is set is what `get` gives for the key,
-- other keys keep theirs, and reading or listing changes nothing. Two keys may name one object, and a
-- `set` that fails may have stored the value all the same.
pub record BackendLaws (b : Backend) (crypto : Crypto b.State) : Type 0 where
  pub get-set :
      (key : String) (value : Bytes) (s : b.State)
      → (b.set key value s).0 ≡ ok tt
      → (b.get key (b.set key value s).1).0 ≡ ok value
  pub get-set_other :
      (at key : String) (value : Bytes) (s : b.State)
      → IsPlain at
      → IsPlain key
      → at ≢ key
      → (b.get at (b.set key value s).1).0 ≡ (b.get at s).0
  pub get-set_cases :
      (at key : String) (value : Bytes) (s : b.State)
      → ((b.get at (b.set key value s).1).0 ≡ (b.get at s).0)
        ⊎ (((b.get at (b.set key value s).1).0 ≡ ok value) × ((b.get at s).0 ≡ (b.get key s).0))
  pub get-get : (at key : String) (s : b.State) → (b.get at (b.get key s).1).0 ≡ (b.get at s).0
  pub get-list_recursive :
      (at prefix : String) (s : b.State)
      → (b.get at (b.list_recursive prefix s).1).0 ≡ (b.get at s).0
  pub get-read_iv : (at : String) (s : b.State) → (b.get at (crypto.read_iv s).1).0 ≡ (b.get at s).0

-- Encryption does nothing to the state but read an IV.
pub protect_keeps {ℓ} :
    {S : Type 0} (P : S → Type ℓ) (crypto : Crypto S)
    → ((s : S) → P s → P (crypto.read_iv s).1)
    → (manager : Option Encryptor) (content : Bytes) (s : S) → P s
    → P (protect crypto manager content s).1
unfolding protect encrypt
protect_keeps P crypto keep none content s h = h
protect_keeps P crypto keep (some e) content s h = elim (Bool-cases (crypto.accepts_key e.key)) [
  | inr bad ↦ rw (encrypt, bad) h
  | inl good ↦ elim (Result-cases (crypto.read_iv s).0) [
    | inr (x, failed) ↦ rw (encrypt, good, failed) (keep s h)
    | inl (iv, got) ↦ rw (encrypt, good, got) (keep s h)
  ]
]

pub get-protect :
    (b : Backend) (crypto : Crypto b.State)
    → BackendLaws b crypto
    → (manager : Option Encryptor) (at : String) (content : Bytes) (s : b.State)
    → (b.get at (protect crypto manager content s).1).0 ≡ (b.get at s).0
get-protect b crypto laws manager at content s =
    protect_keeps (λ s'. (b.get at s').0 ≡ (b.get at s).0) crypto
      (λ s' kept. laws.get-read_iv at s' ∙ kept) manager content s refl

same_logs_key :
    {n n' l l' r r' a a' : String}
    → n ≡ n'
    → l ≡ l'
    → r ≡ r'
    → a ≡ a'
    → compute_logs_key n' l' r' a' ≡ compute_logs_key n l r a
same_logs_key hn hl hr ha = cc

same_bundle_key :
    {n n' p p' c c' r r' : String}
    → n ≡ n'
    → p ≡ p'
    → c ≡ c'
    → r ≡ r'
    → compute_git_bundle_key n' p' c' r' ≡ compute_git_bundle_key n p c r
same_bundle_key hn hp hc hr = cc

module _ (b : Backend) (crypto : Crypto b.State) (laws : BackendLaws b crypto)
    (crypto_laws : CryptoLaws crypto) (manager : Option Encryptor) where
  pub read-write :
      (key : String) (content : Bytes) (s : b.State)
      → (write b crypto manager key content s).0 ≡ ok tt
      → (read b crypto manager key (write b crypto manager key content s).1).0 ≡ ok content
  unfolding read write
  read-write key content s h = elim (Result-cases (protect crypto manager content s).0) [
    | inr (e, failed) ↦ cc (rw (write, failed) at h)
    | inl (stored, sealed) ↦
        elim (Result-cases (b.set key stored (protect crypto manager content s).1).0) [
          | inr (e, failed) ↦ cc (rw (write, sealed, failed) at h)
          | inl (done, kept) ↦
              rw
                (
                  write,
                  read,
                  sealed,
                  laws.get-set key stored (protect crypto manager content s).1 kept,
                )
                (ap ok (reveal-protect crypto crypto_laws manager content stored s sealed))
        ]
  ]

  read-write_other :
      (at key : String) (content : Bytes) (s : b.State)
      → IsPlain at
      → IsPlain key
      → at ≢ key
      → (read b crypto manager at (write b crypto manager key content s).1).0
        ≡ (read b crypto manager at s).0
  unfolding read write
  read-write_other at key content s ha hk other =
      elim (Result-cases (protect crypto manager content s).0) [
        | inr (e, failed) ↦
            rw (write, read, failed, get-protect b crypto laws manager at content s) refl
        | inl (stored, sealed) ↦
            rw
              (
                write,
                read,
                sealed,
                laws.get-set_other at key stored (protect crypto manager content s).1 ha hk other,
                get-protect b crypto laws manager at content s,
              )
              refl
      ]

  -- What `PutLogs` stores is what `GetLogs` then gives for the same attempt, and for every other
  -- attempt it gives what it gave before.
  pub get_logs-put_logs :
      (n n' l l' r r' a a' : String) (logs : Bytes) (s : b.State)
      → IsName n
      → IsName n'
      → IsName l
      → IsName l'
      → IsName r
      → IsName r'
      → (put_logs b crypto manager n l r a logs s).0 ≡ ok tt
      → (get_logs b crypto manager n' l' r' a' (put_logs b crypto manager n l r a logs s).1).0 ≡ (
          if (n == n') && ((l == l') && ((r == r') && (a == a')))
          then ok logs
          else (get_logs b crypto manager n' l' r' a' s).0)
  unfolding get_logs put_logs
  get_logs-put_logs n n' l l' r r' a a' logs s hn hn' hl hl' hr hr' h =
      let key = compute_logs_key n l r a in
      let key' = compute_logs_key n' l' r' a' in
      elim (Bool-cases ((n == n') && ((l == l') && ((r == r') && (a == a'))))) [
        | inl same ↦
            let keys : key' ≡ key =
              same_logs_key (ground (arith, same, eq_iff n n')) (ground (arith, same, eq_iff l l'))
                (ground (arith, same, eq_iff r r')) (ground (arith, same, eq_iff a a')) in
            rw (same, keys) (read-write key logs s h)
        | inr differ ↦
            let keys : key' ≢ key = λ e. ground (
              arith,
              differ,
              compute_logs_key_inj n' n l' l r' r a' a hn' hn hl' hl hr' hr e,
              eq_refl n,
              eq_refl l,
              eq_refl r,
              eq_refl a,
            ) in
            rw differ (
              read-write_other key' key logs s (logs_key-IsPlain n' l' r' a')
                (logs_key-IsPlain n l r a) keys)
      ]

  -- The same for the git bundle of a revision of a branch, whose name may have slashes in it.
  pub get_git_bundle-put_git_bundle :
      (n n' p p' c c' r r' : String) (bundle : Bytes) (s : b.State)
      → IsName n
      → IsName n'
      → IsName p
      → IsName p'
      → IsName r
      → IsName r'
      → (put_git_bundle b crypto manager n p c r bundle s).0 ≡ ok tt
      → (get_git_bundle b crypto manager n' p' c' r'
          (put_git_bundle b crypto manager n p c r bundle s).1).0
        ≡ (if (n == n') && ((p == p') && ((c == c') && (r == r')))
            then ok bundle
            else (get_git_bundle b crypto manager n' p' c' r' s).0)
  unfolding get_git_bundle put_git_bundle
  get_git_bundle-put_git_bundle n n' p p' c c' r r' bundle s hn hn' hp hp' hr hr' h =
      let key = compute_git_bundle_key n p c r in
      let key' = compute_git_bundle_key n' p' c' r' in
      elim (Bool-cases ((n == n') && ((p == p') && ((c == c') && (r == r'))))) [
        | inl same ↦
            let keys : key' ≡ key =
              same_bundle_key (ground (arith, same, eq_iff n n'))
                (ground (arith, same, eq_iff p p')) (ground (arith, same, eq_iff c c'))
                (ground (arith, same, eq_iff r r')) in
            rw (same, keys) (read-write key bundle s h)
        | inr differ ↦
            let keys : key' ≢ key = λ e. ground (
              arith,
              differ,
              compute_git_bundle_key_inj n' n p' p c' c r' r hn' hn hp' hp hr' hr e,
              eq_refl n,
              eq_refl p,
              eq_refl c,
              eq_refl r,
            ) in
            rw differ (
              read-write_other key' key bundle s (bundle_key-IsPlain n' p' c' r')
                (bundle_key-IsPlain n p c r) keys)
      ]
