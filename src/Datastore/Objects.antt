-- ===== src/Datastore/Objects.antt =====
-- A backend that keeps each key as an object under a name: the backends of the datastore differ in how
-- they name it.
use burrito.Base.{String, ◌==◌, ◌≡◌, ◌≢◌, sym, ap, ◌∙◌, ◌⊎◌, inl, inr, arith, Bool-cases, eq_iff}
use burrito.Base.Effect.{Result, ok}
use burrito.Encryption.{Bytes, Crypto}
use burrito.Datastore.{Backend}
use burrito.Datastore.Plain.{IsPlain}
use burrito.Datastore.Stored.{BackendLaws}

-- What is stored under a name: `content` is what `get` answers for each key of that name.
pub record ObjectLaws (b : Backend) (crypto : Crypto b.State) (name : String → String)
    : Type 0 where
  pub content : String → b.State → Result Bytes
  pub get_lem : (key : String) (s : b.State) → (b.get key s).0 ≡ content (name key) s
  pub stored :
      (key : String) (value : Bytes) (s : b.State)
      → (b.set key value s).0 ≡ ok tt
      → content (name key) (b.set key value s).1 ≡ ok value
  -- a `set` that fails may have stored the value all the same
  pub stored_or_not :
      (key : String) (value : Bytes) (s : b.State)
      → (content (name key) (b.set key value s).1 ≡ content (name key) s)
        ⊎ (content (name key) (b.set key value s).1 ≡ ok value)
  pub set_frame :
      (at key : String) (value : Bytes) (s : b.State)
      → at ≢ name key
      → content at (b.set key value s).1 ≡ content at s
  pub get_frame : (at key : String) (s : b.State) → content at (b.get key s).1 ≡ content at s
  pub list_frame :
      (at prefix : String) (s : b.State) → content at (b.list_recursive prefix s).1 ≡ content at s
  pub random_frame : (at : String) (s : b.State) → content at (crypto.read_iv s).1 ≡ content at s
  pub name_inj : (at key : String) → IsPlain at → IsPlain key → name at ≡ name key → at ≡ key

module _ (b : Backend) (crypto : Crypto b.State) (name : String → String)
    (laws : ObjectLaws b crypto name) where
  open laws use {content, get_lem}

  set_cases :
      (at key : String) (value : Bytes) (s : b.State)
      → ((b.get at (b.set key value s).1).0 ≡ (b.get at s).0)
        ⊎ (((b.get at (b.set key value s).1).0 ≡ ok value) × ((b.get at s).0 ≡ (b.get key s).0))
  set_cases at key value s =
      let s' = (b.set key value s).1 in
      elim (Bool-cases (name at == name key)) [
        | inr differ ↦ inl (
            get_lem at s'
            ∙ laws.set_frame (name at) key value s
                (λ e. ground (arith, differ, eq_iff (name at) (name key), e))
            ∙ sym (get_lem at s))
        | inl equal ↦
            let same : name at ≡ name key = (eq_iff (name at) (name key)).0 equal in
            elim (laws.stored_or_not key value s) [
              | inl kept ↦ inl (
                  get_lem at s'
                  ∙ ap (λ n. content n s') same
                  ∙ kept
                  ∙ sym (ap (λ n. content n s) same)
                  ∙ sym (get_lem at s))
              | inr new ↦ inr (
                get_lem at s' ∙ ap (λ n. content n s') same ∙ new,
                get_lem at s ∙ ap (λ n. content n s) same ∙ sym (get_lem key s),
              )
            ]
      ]

  -- Such a backend is one as the datastore expects it.
  pub ObjectLaws-BackendLaws : BackendLaws b crypto
  ObjectLaws-BackendLaws = record {
    get-set = λ key value s h. get_lem key (b.set key value s).1 ∙ laws.stored key value s h;
    get-set_other = λ at key value s ha hk other.
        get_lem at (b.set key value s).1
        ∙ laws.set_frame (name at) key value s (λ e. other (laws.name_inj at key ha hk e))
        ∙ sym (get_lem at s);
    get-set_cases = set_cases;
    get-get = λ at key s.
        get_lem at (b.get key s).1 ∙ laws.get_frame (name at) key s ∙ sym (get_lem at s);
    get-list_recursive = λ at prefix s.
        get_lem at (b.list_recursive prefix s).1
        ∙ laws.list_frame (name at) prefix s
        ∙ sym (get_lem at s);
    get-read_iv = λ at s.
        get_lem at (crypto.read_iv s).1 ∙ laws.random_frame (name at) s ∙ sym (get_lem at s);
  }
