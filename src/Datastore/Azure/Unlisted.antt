-- ===== src/Datastore/Azure/Unlisted.antt =====
-- The datastore's blobs on Azure, which a listing does not find: a listing is of names with a slash in
-- front, and the datastore's keys have none.
use burrito.Base.{
  ℕ, zero, suc, String, ◌<>◌, ◌≡◌, ◌≢◌, refl, subst, ◌∙◌, true, inl, inr, Option, [], arith,
  Bool-cases,
}
use text.Mathlib.TextLemmas.{cons-append}
use burrito.Base.Effect.{ok, err, ApiError, not_found, other, Result-cases}
use burrito.Base.Text.{has_prefix, cut_prefix}
use burrito.Encryption.{Bytes, Crypto, Encryptor, protect}
use burrito.Datastore.{compute_logs_key, run_key}
use burrito.Datastore.Plain.{IsPlain, logs_key-IsPlain}
use burrito.Datastore.Stored.{protect_keeps}
use burrito.Datastore.Storage.{write, put_logs, get_attempts, get_latest_attempt}
use burrito.Datastore.Azure.{
  AzureClient, BlobPage, set, read_pages, hierarchy_names, list, list_prefix, unless_empty, azure,
}
use burrito.Datastore.Azure.Kept.{AzureLaws}

slash_first : (key rest : String) → has_prefix key ("/" <> rest) ≡ true → has_prefix key "/" ≡ true
unfolding has_prefix cut_prefix
slash_first String.[] rest h = cc (rw (cons-append _ "" rest) at h)
slash_first (String.◌∷◌ c key) rest h =
    let first = rw (cons-append _ "" rest) at h in ground (arith, first)

slash_is_no_key : (at key : String) → IsPlain key → has_prefix at "/" ≡ true → at ≢ key
slash_is_no_key at key plain h same =
    let key_slash : has_prefix key "/" ≡ true = subst (λ k. has_prefix k "/" ≡ true) same h in
    ground (arith, plain, key_slash)

module _ (c : AzureClient) (crypto : Crypto c.State) (laws : AzureLaws c crypto) where
  open laws use {blob}

  -- No blob has a slash in front of its name.
  abbrev pub NoSlash : c.State → Type 0
  NoSlash s = (key : String) → has_prefix key "/" ≡ true → blob key s ≡ err not_found

  page_is_empty :
      (prefix : String) (n : ℕ) (s : c.State) (page : BlobPage)
      → NoSlash s
      → (c.hierarchy_page (list_prefix c prefix) n s).0 ≡ ok page
      → hierarchy_names c page ≡ []
  unfolding hierarchy_names list_prefix
  page_is_empty prefix n s page bare h =
      elim (laws.hierarchy_listed (list_prefix c prefix) n s page h) [
        | inl (items, prefixes) ↦ rw (items, prefixes) refl
        | inr (key, under, there) ↦ absurd (there (bare key (slash_first key _ under)))
      ]

  page_keeps :
      (prefix : String) (n : ℕ) (s : c.State) → NoSlash s → NoSlash (c.hierarchy_page prefix n s).1
  page_keeps prefix n s bare key h = laws.hierarchy_frame key prefix n s ∙ bare key h

  pages_are_empty :
      (prefix : String) (fuel n : ℕ) (s : c.State)
      → NoSlash s
      → (e : ApiError) × (unless_empty c
            (read_pages c
              (c.hierarchy_page (list_prefix c prefix))
              (hierarchy_names c)
              fuel
              n
              []
              s).0
          ≡ err e)
  unfolding read_pages
  pages_are_empty prefix zero n s bare = (other, refl)
  pages_are_empty prefix (suc fuel) n s bare =
      elim (Result-cases (c.hierarchy_page (list_prefix c prefix) n s).0) [
        | inr (e, bad) ↦ (other, rw (bad, read_pages) refl)
        | inl (page, got) ↦
            let empty = page_is_empty prefix n s page bare got in
            elim (Bool-cases page.more) [
              | inr last ↦ (not_found, rw (got, last, read_pages, empty) refl)
              | inl more ↦
                  let (e, rest) =
                    pages_are_empty prefix fuel (suc n)
                      (c.hierarchy_page (list_prefix c prefix) n s).1
                      (page_keeps (list_prefix c prefix) n s bare) in
                  (e, rw (got, more, read_pages, empty) rest)
            ]
      ]

  latest_is_not_found :
      (fuel : (prefix : String) → c.State → ℕ) (n l r : String) (s : c.State)
      → NoSlash s
      → (e : ApiError) × ((get_latest_attempt (azure c fuel) n l r s).0 ≡ err e)
  unfolding get_latest_attempt get_attempts list
  latest_is_not_found fuel n l r s bare =
      let (e, none_found) = pages_are_empty (run_key n l r) (fuel (run_key n l r) s) 0 s bare in
      (e, rw (get_latest_attempt, get_attempts, list, none_found) refl)

  write_keeps :
      (fuel : (prefix : String) → c.State → ℕ) (manager : Option Encryptor) (key : String)
      (content : Bytes) (s : c.State)
      → IsPlain key
      → NoSlash s
      → NoSlash (write (azure c fuel) crypto manager key content s).1
  unfolding write set
  write_keeps fuel manager key content s plain bare =
      let s1 = (protect crypto manager content s).1 in
      let sealed_bare : NoSlash s1 =
        protect_keeps NoSlash crypto (λ s' k at h. laws.random_frame at s' ∙ k at h) manager content
          s bare in
      elim (Result-cases (protect crypto manager content s).0) [
        | inr (e, failed) ↦ rw (write, failed) sealed_bare
        | inl (bytes, sealed) ↦
            rw (write, set, sealed)
              (λ at h.
                laws.upload_frame at key bytes s1 (slash_is_no_key at key plain h)
                ∙ sealed_bare at h)
      ]

  -- Where no blob has a slash in front of its name, as in an empty container, and after an attempt's logs
  -- are put, that is so again, and the latest attempt of a run cannot be found.
  pub put_logs-unlisted :
      (fuel : (prefix : String) → c.State → ℕ) (manager : Option Encryptor)
      (n l r a n' l' r' : String) (logs : Bytes) (s : c.State)
      → NoSlash s
      → let s' = (put_logs (azure c fuel) crypto manager n l r a logs s).1 in
        NoSlash s' × ((e : ApiError) × ((get_latest_attempt (azure c fuel) n' l' r' s').0 ≡ err e))
  unfolding put_logs
  put_logs-unlisted fuel manager n l r a n' l' r' logs s bare =
      let s' = (put_logs (azure c fuel) crypto manager n l r a logs s).1 in
      let still : NoSlash s' =
        write_keeps fuel manager (compute_logs_key n l r a) logs s (logs_key-IsPlain n l r a)
          bare in
      (still, latest_is_not_found fuel n' l' r' s' still)
