-- ===== src/Datastore/Migration.antt =====
-- internal/datastore/api/encrypt.go: encrypting the files that are stored in the clear.
use burrito.Base.{
  ℕ, suc, String, ◌==◌, Bool, true, false, Option, none, some, List, [], ◌∷◌, ◌++◌, ltb, length,
  if◌then◌else◌, not,
}
use burrito.Base.Effect.{ok, err, Effect}
use burrito.Base.Text.{split, trim_prefix, has_suffix}
use burrito.Encryption.{Bytes, Crypto, Encryptor, encrypt, decrypt}
use burrito.Datastore.{Backend}

-- The errors of `encryptSingleFile`. `err_file_already_encrypted` is the package's sentinel;
-- `already_encrypted` is the error that the code makes anew, with the same text.
pub data FileError : Type 0 where
  failed_get : FileError
  invalid_path : FileError
  no_encryptor : FileError
  already_encrypted : FileError
  err_file_already_encrypted : FileError
  failed_encrypt : FileError
  failed_store : FileError

-- `errors.Is(err, ErrFileAlreadyEncrypted)`
abbrev pub is_already_encrypted : FileError → Bool
is_already_encrypted err_file_already_encrypted = true
is_already_encrypted _ = false

-- An entry of the response's `errors`.
pub data Failure : Type 0 where
  failed_list : (prefix : String) → Failure
  failed_file : (path : String) (e : FileError) → Failure

module _ (b : Backend) (crypto : Crypto b.State) (encryptor : Option Encryptor) where
  -- What `encryptSingleFile` does with a file's content; none for no error.
  unfoldable pub encrypt_content :
      (path : String) (content : Bytes) → Effect b.State (Option FileError)
  encrypt_content path content s = elim encryptor [
    | none ↦ (some no_encryptor, s)
    | some e ↦ elim (decrypt crypto e content) [
      | ok plain ↦ (some already_encrypted, s)
      | err x ↦
          let (cipher, s') = encrypt crypto e content s in
          elim cipher [
            | err x ↦ (some failed_encrypt, s')
            | ok sealed ↦
                let (stored, s'') = b.set path sealed s' in
                (elim stored [ err x ↦ some failed_store | ok u ↦ none ], s'')
          ]
    ]
  ]

  unfoldable pub encrypt_single_file : (path : String) → Effect b.State (Option FileError)
  unfolding encrypt_content
  encrypt_single_file path s =
      let (found, s') = b.get path s in
      elim found [
        | err x ↦ (some failed_get, s')
        | ok content ↦ elim (split 47 (trim_prefix path "/")).1 [
          | [] ↦ (some invalid_path, s')
          | part ∷ parts ↦ encrypt_content path content s'
        ]
      ]

  -- The loop over the files of a prefix, with the number of encrypted files and the errors so far.
  unfoldable pub encrypt_files :
      (files : List String) (encrypted : ℕ) (errors : List Failure)
      → Effect b.State (ℕ × List Failure)
  unfolding encrypt_single_file
  encrypt_files [] encrypted errors s = ((encrypted, errors), s)
  encrypt_files (file ∷ files) encrypted errors s =
      let (failure, s') = encrypt_single_file file s in
      let skipped = encrypt_files files encrypted errors in
      let succeeded = encrypt_files files (suc encrypted) errors s' in
      if has_suffix file "/" then skipped s else elim failure [
        | none ↦ succeeded
        | some e ↦
            let failed = encrypt_files files encrypted (errors ++ (failed_file file e ∷ [])) s' in
            if is_already_encrypted e then skipped s' else failed
      ]

  unfoldable pub encrypt_prefixes :
      (prefixes : List String) (encrypted : ℕ) (errors : List Failure)
      → Effect b.State (ℕ × List Failure)
  unfolding encrypt_files
  encrypt_prefixes [] encrypted errors s = ((encrypted, errors), s)
  encrypt_prefixes (prefix ∷ prefixes) encrypted errors s =
      let (files, s') = b.list_recursive prefix s in
      elim files [
        | err x ↦ encrypt_prefixes prefixes encrypted (errors ++ (failed_list prefix ∷ [])) s'
        | ok found ↦
            let (so_far, s'') = encrypt_files found encrypted errors s' in
            encrypt_prefixes prefixes so_far.0 so_far.1 s''
      ]

  unfoldable pub encrypt_all_files : Effect b.State (ℕ × List Failure)
  unfolding encrypt_prefixes
  encrypt_all_files = encrypt_prefixes ("layers" ∷ []) 0 []

  -- `EncryptAllFilesHandler`: the status, and the result once the files were gone through. The body
  -- is none when it cannot be read, and the key in it none when it is no JSON.
  unfoldable pub encrypt_all_files_handler :
      (body : Option (Option String)) (configured_key : String) (enabled : Bool)
      → Effect b.State (ℕ × Option (ℕ × List Failure))
  unfolding encrypt_all_files
  encrypt_all_files_handler none configured_key enabled s = ((400, none), s)
  encrypt_all_files_handler (some none) configured_key enabled s = ((400, none), s)
  encrypt_all_files_handler (some (some key)) configured_key enabled s =
      let (done, s') = encrypt_all_files s in
      if key == ""
      then ((400, none), s)
      else if configured_key == ""
      then ((500, none), s)
      else if not (key == configured_key)
      then ((401, none), s)
      else if not enabled
      then ((400, none), s)
      else if ltb 0 (length done.1)
      then ((206, some done), s')
      else ((200, some done), s')
