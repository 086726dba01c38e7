-- ===== src/Datastore/Azure/Kept.antt =====
-- The backend on Azure keeps what the datastore expects of a backend.
use burrito.Base.{
  ℕ, zero, suc, String, ◌≡◌, ◌≢◌, refl, ap, ◌∙◌, true, ◌⊎◌, inl, inr, List, [], ◌++◌, length,
  Bool-cases,
}
use burrito.Base.Effect.{Result, ok, err, not_found, Effect, Result-cases}
use burrito.Base.Text.{has_prefix}
use burrito.Encryption.{Bytes, Crypto}
use burrito.Datastore.Stored.{BackendLaws}
use burrito.Datastore.Objects.{ObjectLaws, ObjectLaws-BackendLaws}
use burrito.Datastore.Azure.{
  AzureClient, Properties, BlobPage, blob_error, get, set, read_pages, list_recursive, list_prefix,
  azure,
}

-- What Azure documents, of the blob that is stored under a key or the error that its properties give:
-- an upload stores the blob, no other call changes one, and a listing has only blobs with its prefix.
pub record AzureLaws (c : AzureClient) (crypto : Crypto c.State) : Type 0 where
  pub blob : (key : String) → c.State → Result Bytes
  pub properties_err :
      (key : String) (s : c.State) (e : _) → blob key s ≡ err e → (c.get_properties key s).0 ≡ err e
  pub properties_ok :
      (key : String) (s : c.State) (value : Bytes)
      → blob key s ≡ ok value
      → (p : Properties) × ((c.get_properties key s).0 ≡ ok p) × (p.content_length ≡ length value)
  pub download :
      (key : String) (s : c.State) (value : Bytes)
      → blob key s ≡ ok value
      → (c.download_buffer key (length value) s).0 ≡ ok value
  pub upload :
      (key : String) (value : Bytes) (s : c.State)
      → (c.upload_buffer key value s).0 ≡ ok tt
      → blob key (c.upload_buffer key value s).1 ≡ ok value
  pub upload_or_not :
      (key : String) (value : Bytes) (s : c.State)
      → (blob key (c.upload_buffer key value s).1 ≡ blob key s)
        ⊎ (blob key (c.upload_buffer key value s).1 ≡ ok value)
  pub upload_frame :
      (at key : String) (value : Bytes) (s : c.State)
      → at ≢ key
      → blob at (c.upload_buffer key value s).1 ≡ blob at s
  pub properties_frame :
      (at key : String) (s : c.State) → blob at (c.get_properties key s).1 ≡ blob at s
  pub download_frame :
      (at key : String) (n : ℕ) (s : c.State) → blob at (c.download_buffer key n s).1 ≡ blob at s
  pub hierarchy_frame :
      (at prefix : String) (n : ℕ) (s : c.State)
      → blob at (c.hierarchy_page prefix n s).1 ≡ blob at s
  pub flat_frame :
      (at prefix : String) (n : ℕ) (s : c.State) → blob at (c.flat_page prefix n s).1 ≡ blob at s
  pub random_frame : (at : String) (s : c.State) → blob at (crypto.read_iv s).1 ≡ blob at s
  pub hierarchy_listed :
      (prefix : String) (n : ℕ) (s : c.State) (page : BlobPage)
      → (c.hierarchy_page prefix n s).0 ≡ ok page
      → ((page.blob_items ≡ []) × (page.blob_prefixes ≡ []))
        ⊎ ((key : String) × (has_prefix key prefix ≡ true) × (blob key s ≢ err not_found))

-- What reading one page keeps, reading all of them keeps.
pub read_pages_keeps :
    (c : AzureClient) (P : c.State → Type 0) (next : ℕ → Effect c.State (Result BlobPage))
    (names : BlobPage → List String)
    → ((n : ℕ) (s : c.State) → P s → P (next n s).1)
    → (fuel n : ℕ) (keys : List String) (s : c.State) → P s
    → P (read_pages c next names fuel n keys s).1
unfolding read_pages
read_pages_keeps c P next names keep zero n keys s h = h
read_pages_keeps c P next names keep (suc fuel) n keys s h =
    let after = keep n s h in
    elim (Result-cases (next n s).0) [
      | inr (e, bad) ↦ rw (bad, read_pages) after
      | inl (page, got) ↦ elim (Bool-cases page.more) [
        | inr last ↦ rw (got, last, read_pages) after
        | inl more ↦
            rw (got, more, read_pages)
              (read_pages_keeps c P next names keep fuel (suc n) (keys ++ names page) (next n s).1
                after)
      ]
    ]

module _ (c : AzureClient) (crypto : Crypto c.State) (laws : AzureLaws c crypto)
    (fuel : (prefix : String) → c.State → ℕ) where
  open laws use {blob}

  abbrev read_blob : Result Bytes → Result Bytes
  read_blob (err e) = err (blob_error e)
  read_blob (ok value) = ok value

  get_blob : (key : String) (s : c.State) → (get c key s).0 ≡ read_blob (blob key s)
  unfolding get
  get_blob key s = elim (Result-cases (blob key s)) [
    | inr (e, missing) ↦ rw (laws.properties_err key s e missing, get, missing) refl
    | inl (value, there) ↦
        let (p, got, size) = laws.properties_ok key s value there in
        let s' = (c.get_properties key s).1 in
        let body = laws.download key s' value (laws.properties_frame key key s ∙ there) in
        rw (got, get, size, body, there) refl
  ]

  get_frame : (at key : String) (s : c.State) → blob at (get c key s).1 ≡ blob at s
  unfolding get
  get_frame at key s = elim (Result-cases (c.get_properties key s).0) [
    | inr (e, bad) ↦ rw (bad, get) (laws.properties_frame at key s)
    | inl (p, got) ↦
        rw (got, get)
          (laws.download_frame at key p.content_length (c.get_properties key s).1
            ∙ laws.properties_frame at key s)
  ]

  set_stores :
      (key : String) (value : Bytes) (s : c.State)
      → (set c key value s).0 ≡ ok tt
      → read_blob (blob key (set c key value s).1) ≡ ok value
  unfolding set
  set_stores key value s h = elim (Result-cases (c.upload_buffer key value s).0) [
    | inr (e, bad) ↦ cc (rw (bad, set) at h)
    | inl (u, done) ↦ ap read_blob (laws.upload key value s done)
  ]

  azure-ObjectLaws : ObjectLaws (azure c fuel) crypto (λ key. key)
  unfolding set list_recursive
  azure-ObjectLaws = record {
    content = λ name s. read_blob (blob name s);
    get_lem = get_blob;
    stored = set_stores;
    stored_or_not = λ key value s. elim (laws.upload_or_not key value s) [
      | inl e ↦ inl (ap read_blob e)
      | inr e ↦ inr (ap read_blob e)
    ];
    set_frame = λ at key value s other. ap read_blob (laws.upload_frame at key value s other);
    get_frame = λ at key s. ap read_blob (get_frame at key s);
    list_frame = λ at prefix s. ap read_blob (
        read_pages_keeps c (λ s'. blob at s' ≡ blob at s) (c.flat_page (list_prefix c prefix))
          (λ page. page.blob_items)
          (λ n s' kept. laws.flat_frame at (list_prefix c prefix) n s' ∙ kept) (fuel prefix s) 0 []
          s refl);
    random_frame = λ at s. ap read_blob (laws.random_frame at s);
    name_inj = λ at key ha hk same. same;
  }

  -- The backend on Azure is a backend as the datastore expects it, if Azure does what it documents.
  pub azure-BackendLaws : BackendLaws (azure c fuel) crypto
  azure-BackendLaws = ObjectLaws-BackendLaws (azure c fuel) crypto (λ key. key) azure-ObjectLaws
