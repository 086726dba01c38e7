-- ===== src/Datastore/Azure.antt =====
-- internal/datastore/storage/azure/azure.go: the backend on Azure Blob Storage. The clients of the Azure
-- SDK are a parameter.
pub mod Kept
pub mod Unlisted
use burrito.Base.{
  ℕ, zero, suc, String, ◌<>◌, Bool, true, false, ◌||◌, Option, none, some, List, [], ◌∷◌, ◌++◌, map,
  if◌then◌else◌,
}
use burrito.Base.Effect.{Result, ok, err, ApiError, not_found, already_exists, other, Effect}
use burrito.Base.Text.{trim_suffix}
use burrito.Encryption.{Bytes}
use burrito.Datastore.{Backend}
use burrito.Datastore.Mock.{sanitize_prefix}

pub record Properties : Type 0 where
  pub content_length : ℕ
  pub content_md5 : Bytes

-- A page of a pager: blobs, the prefixes of a hierarchy, and whether `More` holds behind it.
pub record BlobPage : Type 0 where
  pub blob_items : List String
  pub blob_prefixes : List String
  pub more : Bool

-- The clients, for one container. The error `not_found` is `BlobNotFound`. A pager is at a number of
-- pages that were read.
pub record AzureClient : Type 1 where
  pub State : Type 0
  pub get_properties : (key : String) → Effect State (Result Properties)
  -- into a buffer of that length
  pub download_buffer : (key : String) (length : ℕ) → Effect State (Result Bytes)
  pub upload_buffer : (key : String) (value : Bytes) → Effect State (Result (Unit {0}))
  pub delete_blob : (key : String) → Effect State (Result (Unit {0}))
  pub hierarchy_page : (prefix : String) (read : ℕ) → Effect State (Result BlobPage)
  pub flat_page : (prefix : String) (read : ℕ) → Effect State (Result BlobPage)

abbrev pub blob_error : ApiError → ApiError
blob_error not_found = not_found
blob_error already_exists = other
blob_error other = other

module _ (c : AzureClient) where
  open c use {
    State, get_properties, download_buffer, upload_buffer, delete_blob, hierarchy_page, flat_page,
  }

  unfoldable pub get : (key : String) → Effect State (Result Bytes)
  get key s =
      let (props, s') = get_properties key s in
      elim props [
        | err e ↦ (err (blob_error e), s')
        | ok found ↦
            let (content, s'') = download_buffer key found.content_length s' in
            (elim content [ err e ↦ err other | ok bytes ↦ ok bytes ], s'')
      ]

  unfoldable pub check : (key : String) → Effect State (Result Bytes)
  check key s =
      let (props, s') = get_properties key s in
      (elim props [ err e ↦ err (blob_error e) | ok found ↦ ok found.content_md5 ], s')

  unfoldable pub set : (key : String) (value : Bytes) → Effect State (Result (Unit {0}))
  set key value s =
      let (stored, s') = upload_buffer key value s in
      (elim stored [ err e ↦ err other | ok u ↦ ok u ], s')

  unfoldable pub delete : (key : String) → Effect State (Result (Unit {0}))
  delete key s =
      let (deleted, s') = delete_blob key s in
      (elim deleted [ err e ↦ err (blob_error e) | ok u ↦ ok u ], s')

  unfoldable pub list_prefix : (prefix : String) → String
  list_prefix prefix = "/" <> sanitize_prefix prefix

  -- The loop over the pages of a pager that gives `names` of each, on fuel; none when it has run out.
  -- `keys` are the names so far and `found` is `foundItems`.
  unfoldable pub read_pages :
      (ℕ → Effect State (Result BlobPage))
      → (BlobPage → List String)
      → ℕ
      → (read : ℕ) (keys : List String) → Effect State (Option (Result (List String)))
  read_pages next names zero read keys s = (none, s)
  read_pages next names (suc fuel) read keys s =
      let (answer, s') = next read s in
      elim answer [
        | err e ↦ (some (err other), s')
        | ok page ↦
            let all = keys ++ names page in
            elim page.more [
              | false ↦ (some (ok all), s')
              | true ↦ read_pages next names fuel (suc read) all s'
            ]
      ]

  -- An item was found exactly where there is a name.
  abbrev pub unless_empty : Option (Result (List String)) → Result (List String)
  unless_empty none = err other
  unless_empty (some (err e)) = err e
  unless_empty (some (ok [])) = err not_found
  unless_empty (some (ok (k ∷ ks))) = ok (k ∷ ks)

  unfoldable pub hierarchy_names : BlobPage → List String
  hierarchy_names page = page.blob_items ++ map (λ p. trim_suffix p "/") page.blob_prefixes

  unfoldable pub list : (fuel : ℕ) (prefix : String) → Effect State (Result (List String))
  unfolding read_pages list_prefix hierarchy_names
  list fuel prefix s =
      let (keys, s') =
        read_pages (hierarchy_page (list_prefix prefix)) hierarchy_names fuel 0 [] s in
      (unless_empty keys, s')

  unfoldable pub list_recursive : (fuel : ℕ) (prefix : String) → Effect State (Result (List String))
  unfolding read_pages list_prefix
  list_recursive fuel prefix s =
      let (keys, s') =
        read_pages (flat_page (list_prefix prefix)) (λ page. page.blob_items) fuel 0 [] s in
      (unless_empty keys, s')

  -- The backend, with the fuel of its listings.
  abbrev pub azure : ((prefix : String) → State → ℕ) → Backend
  azure fuel = record {
    State = State;
    get = get;
    check = check;
    set = set;
    delete = delete;
    list = λ prefix s. list (fuel prefix s) prefix s;
    list_recursive = λ prefix s. list_recursive (fuel prefix s) prefix s;
  }
