-- ===== src/Datastore/Accounts.antt =====
-- How the encryption of all files counts them.
use burrito.Base.{
  ℕ, suc, ◌+◌, String, ◌≡◌, false, not, Option, none, some, List, [], ◌∷◌, ◌++◌, inl, inr, arith,
  Bool-cases, Option-cases, length, length-append, count,
}
use burrito.Base.Text.{has_suffix}
use burrito.Encryption.{Bytes, Crypto, Encryptor}
use burrito.Datastore.{Backend}
use burrito.Datastore.Migration.{
  FileError, is_already_encrypted, Failure, failed_file, encrypt_content, encrypt_single_file,
  encrypt_files,
}

module _ (b : Backend) (crypto : Crypto b.State) (encryptor : Option Encryptor) where
  abbrev NoSentinel : Option FileError → Type 0
  NoSentinel none = Unit
  NoSentinel (some x) = is_already_encrypted x ≡ false

  encrypt_content-NoSentinel :
      (path : String) (content : Bytes) (s : b.State)
      → NoSentinel (encrypt_content b crypto encryptor path content s).0
  unfolding encrypt_content
  encrypt_content-NoSentinel path content s = ground arith

  encrypt_single_file-NoSentinel :
      (path : String) (s : b.State) → NoSentinel (encrypt_single_file b crypto encryptor path s).0
  unfolding encrypt_single_file
  encrypt_single_file-NoSentinel path s = ground (arith, encrypt_content-NoSentinel path)

  -- Every listed file that is no folder is counted once, as encrypted or as an error. A file that is
  -- encrypted already is thus an error too.
  pub encrypt_files-count :
      (files : List String) (n : ℕ) (errors : List Failure) (s : b.State)
      → (encrypt_files b crypto encryptor files n errors s).0.0
          + length (encrypt_files b crypto encryptor files n errors s).0.1
        ≡ n + length errors + count (λ file. not (has_suffix file "/")) files
  unfolding encrypt_files
  encrypt_files-count [] n errors s = omega arith
  encrypt_files-count (file ∷ files) n errors s =
      let s' = (encrypt_single_file b crypto encryptor file s).1 in
      let sentinel = encrypt_single_file-NoSentinel file s in
      elim (Bool-cases (has_suffix file "/")) [
        | inl folder ↦ rw (encrypt_files, folder) (encrypt_files-count files n errors s)
        | inr plain ↦ elim (Option-cases (encrypt_single_file b crypto encryptor file s).0) [
          | inl done ↦
              rw (encrypt_files, plain, done)
                (omega (arith, encrypt_files-count files (suc n) errors s'))
          | inr (x, failed) ↦
              let other : is_already_encrypted x ≡ false = rw failed at sentinel in
              let more = errors ++ (failed_file file x ∷ []) in
              rw (encrypt_files, plain, failed, other)
                (omega (
                  arith,
                  encrypt_files-count files n more s',
                  length-append errors (failed_file file x ∷ []),
                ))
        ]
      ]
