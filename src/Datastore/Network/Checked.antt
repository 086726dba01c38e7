-- ===== src/Datastore/Network/Checked.antt =====
-- The bundles that a check of the backend finds, through the handlers of the server.
use burrito.Base.{String, ◌≡◌, refl, ◌∙◌, false, Option, some, arith, inl, inr, Bool-cases}
use burrito.Base.Effect.{ok, ApiError, not_found, already_exists, other, Result-cases}
use burrito.Encryption.{Bytes, Crypto, Encryptor, protect}
use burrito.Datastore.{Backend, compute_git_bundle_key}
use burrito.Datastore.Storage.{write, put_git_bundle, check_git_bundle}
use burrito.Datastore.Stored.{protect_keeps}
use burrito.Datastore.Handlers.{
  Query, error_response, misses_revision, put_git_bundle_handler, head_git_bundle_handler,
}

-- What the datastore expects of `Check`: a value that is set has a checksum, and whatever has one keeps
-- having one.
pub record CheckLaws (b : Backend) (crypto : Crypto b.State) : Type 0 where
  pub check-set :
      (key : String) (value : Bytes) (s : b.State)
      → (b.set key value s).0 ≡ ok tt
      → (sum : Bytes) × ((b.check key (b.set key value s).1).0 ≡ ok sum)
  pub check_stays :
      (at key : String) (value : Bytes) (s : b.State)
      → (sum : Bytes) × ((b.check at s).0 ≡ ok sum)
      → (sum : Bytes) × ((b.check at (b.set key value s).1).0 ≡ ok sum)
  pub check-read_iv :
      (at : String) (s : b.State) → (b.check at (crypto.read_iv s).1).0 ≡ (b.check at s).0

error_is_no_ok : (e : ApiError) → (error_response e).status ≡ 200 → ⊥
unfolding error_response
error_is_no_ok not_found h = omega arith
error_is_no_ok already_exists h = omega arith
error_is_no_ok other h = omega arith

module _ (b : Backend) (crypto : Crypto b.State) (manager : Option Encryptor) where
  abbrev pub IsChecked : String → b.State → Type 0
  IsChecked key s = (sum : Bytes) × ((b.check key s).0 ≡ ok sum)

  module _ (laws : CheckLaws b crypto) where
    protect_keeps-IsChecked :
        (at : String) (content : Bytes) (s : b.State)
        → IsChecked at s
        → IsChecked at (protect crypto manager content s).1
    protect_keeps-IsChecked at content s =
        protect_keeps (IsChecked at) crypto (λ s' (sum, h). (sum, laws.check-read_iv at s' ∙ h))
          manager content s

    write_keeps-IsChecked :
        (at key : String) (content : Bytes) (s : b.State)
        → IsChecked at s
        → IsChecked at (write b crypto manager key content s).1
    unfolding write
    write_keeps-IsChecked at key content s h =
        let h' = protect_keeps-IsChecked at content s h in
        elim (Result-cases (protect crypto manager content s).0) [
          | inr (e, failed) ↦ rw (failed, write) h'
          | inl (bytes, sealed) ↦
              rw (sealed, write)
                (laws.check_stays at key bytes (protect crypto manager content s).1 h')
        ]

    pub write-IsChecked :
        (key : String) (content : Bytes) (s : b.State)
        → (write b crypto manager key content s).0 ≡ ok tt
        → IsChecked key (write b crypto manager key content s).1
    unfolding write
    write-IsChecked key content s h =
        let s1 = (protect crypto manager content s).1 in
        elim (Result-cases (protect crypto manager content s).0) [
          | inr (e, failed) ↦ cc (rw (failed, write) at h)
          | inl (bytes, sealed) ↦ elim (Result-cases (b.set key bytes s1).0) [
            | inr (e, failed) ↦ cc (rw (sealed, failed, write) at h)
            | inl (u, done) ↦ rw (sealed, write) (laws.check-set key bytes s1 done)
          ]
        ]

    pub put_handler_keeps-IsChecked :
        (at : String) (q : Query) (bundle : Bytes) (s : b.State)
        → IsChecked at s
        → IsChecked at (put_git_bundle_handler b crypto manager q (some bundle) s).1
    unfolding put_git_bundle_handler put_git_bundle
    put_handler_keeps-IsChecked at q bundle s h = elim (Bool-cases (misses_revision q)) [
      | inl missing ↦ rw (missing, put_git_bundle_handler) h
      | inr given ↦ rw (given, put_git_bundle_handler) (write_keeps-IsChecked at _ bundle s h)
    ]

  -- What `HEAD` answers with 200.
  pub head_ok :
      (q : Query) (s : b.State)
      → misses_revision q ≡ false
      → IsChecked (compute_git_bundle_key q.namespace q.name q.ref q.revision) s
      → (head_git_bundle_handler b crypto manager q s).0.status ≡ 200
  unfolding head_git_bundle_handler check_git_bundle
  head_ok q s given (sum, h) = rw (given, h, head_git_bundle_handler) refl

  pub head-IsChecked :
      (q : Query) (s : b.State)
      → (head_git_bundle_handler b crypto manager q s).0.status ≡ 200
      → (misses_revision q ≡ false)
        × IsChecked (compute_git_bundle_key q.namespace q.name q.ref q.revision) s
  unfolding head_git_bundle_handler check_git_bundle error_response
  head-IsChecked q s h = elim (Bool-cases (misses_revision q)) [
    | inl missing ↦ absurd (omega (arith, rw (missing, head_git_bundle_handler) at h))
    | inr given ↦
        elim (Result-cases
          (b.check (compute_git_bundle_key q.namespace q.name q.ref q.revision) s).0) [
            | inl (sum, there) ↦ (given, (sum, there))
            | inr (e, failed) ↦
                absurd (error_is_no_ok e (rw (given, failed, head_git_bundle_handler) at h))
          ]
  ]
