-- ===== src/Datastore/S3/Kept.antt =====
-- The backend on S3 keeps what the datastore expects of a backend.
use burrito.Base.{
  String, ◌≡◌, ◌≢◌, refl, sym, ap, ◌∙◌, ◌⊎◌, inl, inr, Option, none, some, arith, ℕ, zero, suc,
  List, [], ◌∷◌, ◌++◌, Bool-cases, Option-cases,
}
use burrito.Base.Effect.{Result, ok, err, Result-cases}
use burrito.Base.Text.{trim_prefix}
use burrito.Encryption.{Bytes, Crypto}
use burrito.Datastore.Plain.{trim_prefix_none}
use burrito.Datastore.Stored.{BackendLaws}
use burrito.Datastore.Objects.{ObjectLaws, ObjectLaws-BackendLaws}
use burrito.Datastore.Mock.{sanitize_prefix}
use burrito.Datastore.S3.Pages.{keys_of}
use burrito.Datastore.S3.{
  S3Client, ListInput, object_read, next_input, get, set, list_pages, settle_pages, check_prefix,
  list_recursive, s3,
}

module _ (c : S3Client) (crypto : Crypto c.State) where
  -- What S3 documents: an object that was put is what is then got, and what a failed put leaves is the
  -- old object or the new one; other calls and puts under other keys change no object.
  pub record S3Laws : Type 0 where
    pub put :
        (key : String) (value : Bytes) (s : c.State)
        → (c.put_object key value s).0 ≡ ok tt
        → (c.get_object key (c.put_object key value s).1).0 ≡ ok (some value)
    pub put_or_not :
        (key : String) (value : Bytes) (s : c.State)
        → ((c.get_object key (c.put_object key value s).1).0 ≡ (c.get_object key s).0)
          ⊎ ((c.get_object key (c.put_object key value s).1).0 ≡ ok (some value))
    pub put_frame :
        (at key : String) (value : Bytes) (s : c.State)
        → at ≢ key
        → (c.get_object at (c.put_object key value s).1).0 ≡ (c.get_object at s).0
    pub get_frame :
        (at key : String) (s : c.State)
        → (c.get_object at (c.get_object key s).1).0 ≡ (c.get_object at s).0
    pub list_frame :
        (at : String) (input : ListInput) (s : c.State)
        → (c.get_object at (c.list_objects input s).1).0 ≡ (c.get_object at s).0
    pub random_frame :
        (at : String) (s : c.State)
        → (c.get_object at (crypto.read_iv s).1).0 ≡ (c.get_object at s).0

module _ (c : S3Client) (crypto : Crypto c.State) (laws : S3Laws c crypto)
    (fuel : (prefix : String) → c.State → ℕ) where
  abbrev content : String → c.State → Result Bytes
  content name s = object_read (c.get_object name s).0

  pages_frame :
      (at : String) (n : ℕ) (prefix : String) (token : Option String) (found : List String)
      (s : c.State)
      → content at (list_pages c n prefix token found s).1 ≡ content at s
  unfolding list_pages
  pages_frame at zero prefix token found s = refl
  pages_frame at (suc n) prefix token found s =
      let input = next_input c prefix token in
      let here = ap object_read (laws.list_frame at input s) in
      elim (Result-cases (c.list_objects input s).0) [
        | inr (e, bad) ↦ rw (bad, list_pages) here
        | inl (page, got) ↦ elim (Bool-cases page.is_truncated) [
          | inr last ↦ rw (got, last, list_pages) here
          | inl more ↦
              rw (got, more, list_pages)
                (pages_frame at n prefix page.next_token (found ++ keys_of page)
                    (c.list_objects input s).1
                  ∙ here)
        ]
      ]

  settle_frame :
      (at prefix : String) (pages : Result (List String)) (s : c.State)
      → content at (settle_pages c prefix pages s).1 ≡ content at s
  unfolding settle_pages check_prefix
  settle_frame at prefix (err e) s = refl
  settle_frame at prefix (ok []) s = ap object_read (laws.list_frame at _ s)
  settle_frame at prefix (ok (k ∷ ks)) s = refl

  recursive_frame :
      (at prefix : String) (n : ℕ) (s : c.State)
      → content at (list_recursive c n prefix s).1 ≡ content at s
  unfolding list_recursive
  recursive_frame at prefix n s =
      let listed = sanitize_prefix prefix in
      let first = pages_frame at n listed none [] s in
      let s' = (list_pages c n listed none [] s).1 in
      elim (Option-cases (list_pages c n listed none [] s).0) [
        | inl out ↦ rw (out, list_recursive) first
        | inr (found, got) ↦ rw (got, list_recursive) (settle_frame at listed found s' ∙ first)
      ]

  set_stores :
      (key : String) (value : Bytes) (s : c.State)
      → (set c key value s).0 ≡ ok tt
      → content (trim_prefix key "/") (set c key value s).1 ≡ ok value
  unfolding set object_read
  set_stores key value s h = elim (Result-cases (c.put_object (trim_prefix key "/") value s).0) [
    | inr (e, bad) ↦ cc (rw (bad, set) at h)
    | inl (u, done) ↦ ap object_read (laws.put (trim_prefix key "/") value s done)
  ]

  set_stores_or_not :
      (key : String) (value : Bytes) (s : c.State)
      → (content (trim_prefix key "/") (set c key value s).1 ≡ content (trim_prefix key "/") s)
        ⊎ (content (trim_prefix key "/") (set c key value s).1 ≡ ok value)
  unfolding set object_read
  set_stores_or_not key value s = elim (laws.put_or_not (trim_prefix key "/") value s) [
    | inl e ↦ inl (ap object_read e)
    | inr e ↦ inr (ap object_read e)
  ]

  s3-ObjectLaws : ObjectLaws (s3 c fuel) crypto (λ key. trim_prefix key "/")
  unfolding get set
  s3-ObjectLaws = record {
    content = content;
    get_lem = λ key s. refl;
    stored = set_stores;
    stored_or_not = set_stores_or_not;
    set_frame = λ at key value s other. ap object_read (laws.put_frame at _ value s other);
    get_frame = λ at key s. ap object_read (laws.get_frame at _ s);
    list_frame = λ at prefix s. recursive_frame at prefix (fuel prefix s) s;
    random_frame = λ at s. ap object_read (laws.random_frame at s);
    name_inj = λ at key ha hk same.
        sym (trim_prefix_none at (ground (arith, ha)))
        ∙ same
        ∙ trim_prefix_none key (ground (arith, hk));
  }

  -- The backend on S3 is a backend as the datastore expects it, if S3 does what it documents.
  pub s3-BackendLaws : BackendLaws (s3 c fuel) crypto
  s3-BackendLaws =
      ObjectLaws-BackendLaws (s3 c fuel) crypto (λ key. trim_prefix key "/") s3-ObjectLaws
