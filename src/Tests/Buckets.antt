-- ===== src/Tests/Buckets.antt =====
-- The theorems on the cloud backends, at concrete inputs.
use burrito.Base.{
  ℕ, ◌<◌, String, ◌≡◌, ◌≢◌, ◌⊎◌, inl, inr, refl, sym, ap, true, false, Option, none, some, List, [],
  ◌∷◌, length, ◌==◌, eq_refl, arith, Bool-cases,
}
use burrito.Base.Dict.{Dict, lookup, insert, lookup-insert_same, lookup-insert_other}
use burrito.Base.Effect.{Result, ok, err, ApiError, not_found, other}
use burrito.Base.Text.{has_prefix}
use burrito.Encryption.{Bytes}
use burrito.Datastore.{Backend}
use burrito.Datastore.Storage.{put_logs, get_latest_attempt}
use burrito.Datastore.Mock.{under, sanitize_prefix}
use burrito.Datastore.S3.{S3Client, Page, list_recursive}
use burrito.Datastore.S3.Pages.{PagesEnd, Pages, Answers, list_recursive-Pages}
use burrito.Datastore.Azure.{AzureClient, Properties, BlobPage, azure}
use burrito.Datastore.Azure.Kept.{AzureLaws}
use burrito.Datastore.Azure.Unlisted.{NoSlash, put_logs-unlisted}
use burrito.Tests.Storage.{source}

-- A bucket on S3 with a listing of two pages.
abbrev first_page : Page
first_page = record {
  contents = "layers/team/network/run/0/run.log" ∷ [];
  common_prefixes = [];
  is_truncated = true;
  next_token = some "1";
}

abbrev second_page : Page
second_page = record {
  contents = "layers/team/network/run/1/run.log" ∷ [];
  common_prefixes = [];
  is_truncated = false;
  next_token = none;
}

abbrev page_at : Option String → Page
page_at none = first_page
page_at (some token) = second_page

abbrev paged : S3Client
paged = record {
  State = Unit {0};
  get_object = λ key s. (err not_found, s);
  head_object = λ key s. (err not_found, s);
  put_object = λ key value s. (err other, s);
  delete_object = λ key s. (err not_found, s);
  list_objects = λ input s. (ok (page_at input.continuation_token), s);
}

abbrev pages_left : Option String → Unit {0} → ℕ
pages_left none s = 1
pages_left (some token) s = 0

page_of : (p q : Page) → ok p ≡ ok q → p ≡ q
page_of p q e = cc

fewer_left :
    (token : Option String) (s : Unit {0}) (page : Page)
    → ok (page_at token) ≡ ok page
    → page.is_truncated ≡ true
    → pages_left page.next_token s < pages_left token s
fewer_left none s page got more = rw (sym (page_of first_page page got)) (omega arith)
fewer_left (some token) s page got more =
    let stopped : false ≡ page.is_truncated =
      ap (λ (p : Page). p.is_truncated) (page_of second_page page got) in
    cc

paged-PagesEnd : PagesEnd paged (sanitize_prefix "layers")
paged-PagesEnd = record { left = pages_left; decreases = fewer_left }

list_recursive-Pages_example :
    (pages : Result (List String)) × Pages paged (sanitize_prefix "layers") none tt pages
    × ((answer : Result (List String)) × ((list_recursive paged 2 "layers" tt).0 ≡ some answer)
        × Answers pages answer)
unfolding paged-PagesEnd
list_recursive-Pages_example = list_recursive-Pages paged "layers" 2 tt paged-PagesEnd (omega arith)

-- A container on Azure that lists every blob under the prefix on one page.
abbrev blob_of : Option Bytes → Result Bytes
blob_of none = err not_found
blob_of (some value) = ok value

abbrev one_page : String → Dict Bytes → BlobPage
one_page prefix s = record { blob_items = under prefix s; blob_prefixes = []; more = false }

abbrev properties_of : Result Bytes → Result Properties
properties_of (err e) = err e
properties_of (ok value) = ok (record { content_length = length value; content_md5 = [] })

abbrev container : AzureClient
container = record {
  State = Dict Bytes × Unit {0};
  get_properties = λ key s. (properties_of (blob_of (lookup key s.0)), s);
  download_buffer = λ key n s. (blob_of (lookup key s.0), s);
  upload_buffer = λ key value s. (ok tt, (insert key value s.0, s.1));
  delete_blob = λ key s. (err other, s);
  hierarchy_page = λ prefix n s. (ok (one_page prefix s.0), s);
  flat_page = λ prefix n s. (ok (one_page prefix s.0), s);
}

under_has :
    (prefix : String) (s : Dict Bytes)
    → (under prefix s ≡ [])
      ⊎ ((key : String) × (has_prefix key prefix ≡ true) × (blob_of (lookup key s) ≢ err not_found))
unfolding under lookup
under_has prefix [] = inl refl
under_has prefix (entry ∷ s) = elim (Bool-cases (has_prefix entry.0 prefix)) [
  | inl here ↦ inr (entry.0, here, rw (eq_refl entry.0, lookup) (λ e. cc))
  | inr elsewhere ↦ elim (under_has prefix s) [
    | inl nothing ↦ inl (rw (elsewhere, under) nothing)
    | inr (key, below, there) ↦ inr (
      key,
      below,
      elim (Bool-cases (entry.0 == key)) [
        | inl same ↦ rw (same, lookup) (λ e. cc)
        | inr differs ↦ rw (differs, lookup) there
      ],
    )
  ]
]

container_page :
    (prefix : String) (s : Dict Bytes) (page : BlobPage)
    → ok (one_page prefix s) ≡ ok page
    → ((page.blob_items ≡ []) × (page.blob_prefixes ≡ []))
      ⊎ ((key : String) × (has_prefix key prefix ≡ true) × (blob_of (lookup key s) ≢ err not_found))
container_page prefix s page got =
    let same : one_page prefix s ≡ page = cc in
    elim (under_has prefix s) [
      | inl nothing ↦ inl (rw (sym same) (nothing, refl))
      | inr found ↦ inr found
    ]

container-AzureLaws : AzureLaws container source
container-AzureLaws = record {
  blob = λ key s. blob_of (lookup key s.0);
  properties_err = λ key s e h. ap properties_of h;
  properties_ok = λ key s value h.
      (record { content_length = length value; content_md5 = [] }, ap properties_of h, refl);
  download = λ key s value h. h;
  upload = λ key value s h. ap blob_of (lookup-insert_same key value s.0);
  upload_or_not = λ key value s. inr (ap blob_of (lookup-insert_same key value s.0));
  upload_frame = λ at key value s other'.
      ap blob_of (lookup-insert_other key at value s.0 (λ e. other' (sym e)));
  properties_frame = λ at key s. refl;
  download_frame = λ at key n s. refl;
  hierarchy_frame = λ at prefix n s. refl;
  flat_frame = λ at prefix n s. refl;
  random_frame = λ at s. refl;
  hierarchy_listed = λ prefix n s page got. container_page prefix s.0 page got;
}

abbrev on_azure : Backend
on_azure = azure container (λ prefix s. 1)

put_logs-unlisted_example :
    let s' = (put_logs on_azure source none "team" "network" "run" "0" (72 ∷ []) ([], tt)).1 in
    NoSlash container source container-AzureLaws s'
    × ((e : ApiError) × ((get_latest_attempt on_azure "team" "network" "run" s').0 ≡ err e))
unfolding container-AzureLaws lookup
put_logs-unlisted_example =
    put_logs-unlisted container source container-AzureLaws (λ prefix s. 1) none "team" "network"
      "run" "0" "team" "network" "run" (72 ∷ []) ([], tt) (λ key h. refl)
