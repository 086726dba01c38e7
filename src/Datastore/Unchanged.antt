-- ===== src/Datastore/Unchanged.antt =====
-- Encrypting the stored files changes nothing for those who read them.
use burrito.Base.{
  ℕ, suc, String, ◌≡◌, refl, sym, ap, ◌∙◌, some, List, [], ◌∷◌, ◌++◌, ◌⊎◌, inl, inr, Bool-cases,
  Option-cases,
}
use burrito.Base.Effect.{Result, ok, err, Result-cases}
use burrito.Base.Text.{split, trim_prefix, has_suffix}
use burrito.Encryption.{Bytes, Crypto, Encryptor, protect, reveal, encrypt, decrypt}
use burrito.Encryption.RoundTrip.{CryptoLaws, reveal-protect}
use burrito.Datastore.{Backend}
use burrito.Datastore.Storage.{read}
use burrito.Datastore.Stored.{BackendLaws, get-protect}
use burrito.Datastore.Migration.{
  is_already_encrypted, Failure, failed_list, failed_file, encrypt_content, encrypt_single_file,
  encrypt_files, encrypt_prefixes, encrypt_all_files,
}

parts_cases :
    (parts : List String)
    → (parts ≡ []) ⊎ ((part : String) × (rest : List String) × (parts ≡ part ∷ rest))
parts_cases [] = inl refl
parts_cases (part ∷ rest) = inr (part, rest, refl)

module _ (b : Backend) (crypto : Crypto b.State) (laws : BackendLaws b crypto)
    (crypto_laws : CryptoLaws crypto) (e : Encryptor) (at : String) where
  -- Whoever reads `at` gets in the second state what he gets in the first.
  abbrev pub SameRead : b.State → b.State → Type 0
  SameRead s s' = (read b crypto (some e) at s').0 ≡ (read b crypto (some e) at s).0

  abbrev shown : Result Bytes → Result Bytes
  shown (err x) = err x
  shown (ok stored) = ok (reveal crypto (some e) stored)

  read_lem : (s : b.State) → (read b crypto (some e) at s).0 ≡ shown (b.get at s).0
  unfolding read
  read_lem s = elim (Result-cases (b.get at s).0) [
    | inl (stored, found) ↦ rw (read, found) refl
    | inr (x, failed) ↦ rw (read, failed) refl
  ]

  SameRead-get : (s s' : b.State) → (b.get at s').0 ≡ (b.get at s).0 → SameRead s s'
  SameRead-get s s' h = read_lem s' ∙ ap shown h ∙ sym (read_lem s)

  SameRead-trans : (s t u : b.State) → SameRead s t → SameRead t u → SameRead s u
  SameRead-trans s t u h k = k ∙ h

  SameRead-set :
      (path : String) (content sealed : Bytes) (s : b.State)
      → (b.get path s).0 ≡ ok content
      → reveal crypto (some e) content ≡ content
      → reveal crypto (some e) sealed ≡ content
      → SameRead s (b.set path sealed s).1
  SameRead-set path content sealed s found before after =
      elim (laws.get-set_cases at path sealed s) [
        | inl same ↦ SameRead-get s (b.set path sealed s).1 same
        | inr (stored, object) ↦
            read_lem (b.set path sealed s).1
            ∙ ap shown stored
            ∙ ap ok (after ∙ sym before)
            ∙ ap shown (sym found ∙ sym object)
            ∙ sym (read_lem s)
      ]

  encrypt_content-SameRead :
      (path : String) (content : Bytes) (s : b.State)
      → (b.get path s).0 ≡ ok content
      → SameRead s (encrypt_content b crypto (some e) path content s).1
  unfolding encrypt_content reveal protect
  encrypt_content-SameRead path content s found = elim (Result-cases (decrypt crypto e content)) [
    | inl (plain, opened) ↦ rw (encrypt_content, opened) refl
    | inr (x, closed) ↦
        let before : reveal crypto (some e) content ≡ content = rw (reveal, closed) refl in
        let s' = (encrypt crypto e content s).1 in
        let quiet = get-protect b crypto laws (some e) in
        let first = SameRead-get s s' (quiet at content s) in
        elim (Result-cases (encrypt crypto e content s).0) [
          | inr (y, failed) ↦ rw (encrypt_content, closed, failed) first
          | inl (sealed, got) ↦
              let after = reveal-protect crypto crypto_laws (some e) content sealed s got in
              let second =
                SameRead-set path content sealed s' (quiet path content s ∙ found) before after in
              rw (encrypt_content, closed, got)
                (SameRead-trans s s' (b.set path sealed s').1 first second)
        ]
  ]

  encrypt_single_file-SameRead :
      (path : String) (s : b.State) → SameRead s (encrypt_single_file b crypto (some e) path s).1
  unfolding encrypt_single_file
  encrypt_single_file-SameRead path s =
      let s' = (b.get path s).1 in
      let first = SameRead-get s s' (laws.get-get at path s) in
      elim (Result-cases (b.get path s).0) [
        | inr (x, failed) ↦ rw (encrypt_single_file, failed) first
        | inl (content, found) ↦
            let second =
              encrypt_content-SameRead path content s' (laws.get-get path path s ∙ found) in
            elim (parts_cases (split 47 (trim_prefix path "/")).1) [
              | inl one ↦ rw (encrypt_single_file, found, one) first
              | inr (part, parts, more) ↦
                  rw (encrypt_single_file, found, more)
                    (SameRead-trans s s' (encrypt_content b crypto (some e) path content s').1 first
                      second)
            ]
      ]

  encrypt_files-SameRead :
      (files : List String) (n : ℕ) (errors : List Failure) (s : b.State)
      → SameRead s (encrypt_files b crypto (some e) files n errors s).1
  unfolding encrypt_files
  encrypt_files-SameRead [] n errors s = refl
  encrypt_files-SameRead (file ∷ files) n errors s =
      let s' = (encrypt_single_file b crypto (some e) file s).1 in
      let first = encrypt_single_file-SameRead file s in
      let go = λ (k : ℕ) (found : List Failure).
        SameRead-trans s s' (encrypt_files b crypto (some e) files k found s').1 first
          (encrypt_files-SameRead files k found s') in
      elim (Bool-cases (has_suffix file "/")) [
        | inl folder ↦ rw (encrypt_files, folder) (encrypt_files-SameRead files n errors s)
        | inr plain ↦ elim (Option-cases (encrypt_single_file b crypto (some e) file s).0) [
          | inl done ↦ rw (encrypt_files, plain, done) (go (suc n) errors)
          | inr (x, failed) ↦ elim (Bool-cases (is_already_encrypted x)) [
            | inl known ↦ rw (encrypt_files, plain, failed, known) (go n errors)
            | inr other ↦
                rw (encrypt_files, plain, failed, other)
                  (go n (errors ++ (failed_file file x ∷ [])))
          ]
        ]
      ]

  encrypt_prefixes-SameRead :
      (prefixes : List String) (n : ℕ) (errors : List Failure) (s : b.State)
      → SameRead s (encrypt_prefixes b crypto (some e) prefixes n errors s).1
  unfolding encrypt_prefixes
  encrypt_prefixes-SameRead [] n errors s = refl
  encrypt_prefixes-SameRead (prefix ∷ prefixes) n errors s =
      let s' = (b.list_recursive prefix s).1 in
      let first = SameRead-get s s' (laws.get-list_recursive at prefix s) in
      elim (Result-cases (b.list_recursive prefix s).0) [
        | inr (x, failed) ↦
            let more = errors ++ (failed_list prefix ∷ []) in
            rw (encrypt_prefixes, failed)
              (SameRead-trans s s' (encrypt_prefixes b crypto (some e) prefixes n more s').1 first
                (encrypt_prefixes-SameRead prefixes n more s'))
        | inl (files, listed) ↦
            let (so_far, s'') = encrypt_files b crypto (some e) files n errors s' in
            let last = encrypt_prefixes-SameRead prefixes so_far.0 so_far.1 s'' in
            rw (encrypt_prefixes, listed)
              (SameRead-trans s s'
                (encrypt_prefixes b crypto (some e) prefixes so_far.0 so_far.1 s'').1 first
                (SameRead-trans s' s''
                  (encrypt_prefixes b crypto (some e) prefixes so_far.0 so_far.1 s'').1
                  (encrypt_files-SameRead files n errors s') last))
      ]

  -- Whatever calls fail, the encryption of all files leaves unchanged what the datastore reads at
  -- every key: what is encrypted is what could not be decrypted before.
  pub encrypt_all_files-SameRead :
      (s : b.State) → SameRead s (encrypt_all_files b crypto (some e) s).1
  unfolding encrypt_all_files
  encrypt_all_files-SameRead s = encrypt_prefixes-SameRead ("layers" ∷ []) 0 [] s
