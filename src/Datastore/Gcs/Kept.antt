-- ===== src/Datastore/Gcs/Kept.antt =====
-- What the backend on GCS keeps.
use burrito.Base.{
  ℕ, zero, suc, String, ◌≡◌, ◌≢◌, refl, sym, ap, ◌∙◌, ◌⊎◌, inl, inr, some, List, [], ◌++◌, arith,
  Option-cases,
}
use burrito.Base.Effect.{Result, ok, err, ApiError, Result-cases}
use burrito.Base.Text.{trim_prefix}
use burrito.Encryption.{Bytes, Crypto}
use burrito.Datastore.Plain.{trim_prefix_none}
use burrito.Datastore.Stored.{BackendLaws}
use burrito.Datastore.Objects.{ObjectLaws, ObjectLaws-BackendLaws}
use burrito.Datastore.Gcs.{GcsClient, Attrs, object_read, get, set, read_items, list_recursive, gcs}

-- What GCS documents: an object is stored when its writer is closed without an error, and not before;
-- after an error it is the old one or the new one; other calls and other keys change no object.
pub record GcsLaws (c : GcsClient) (crypto : Crypto c.State) : Type 0 where
  pub closed :
      (key : String) (value : Bytes) (s : c.State)
      → (c.close key value s).0 ≡ ok tt
      → (c.read_all key (c.close key value s).1).0 ≡ ok (some value)
  pub not_closed :
      (key : String) (value : Bytes) (s : c.State) (e : ApiError)
      → (c.close key value s).0 ≡ err e
      → ((c.read_all key (c.close key value s).1).0 ≡ (c.read_all key s).0)
        ⊎ ((c.read_all key (c.close key value s).1).0 ≡ ok (some value))
  pub close_frame :
      (at key : String) (value : Bytes) (s : c.State)
      → at ≢ key
      → (c.read_all at (c.close key value s).1).0 ≡ (c.read_all at s).0
  pub write_frame :
      (at key : String) (value : Bytes) (s : c.State)
      → (c.read_all at (c.write key value s).1).0 ≡ (c.read_all at s).0
  pub read_frame :
      (at key : String) (s : c.State) → (c.read_all at (c.read_all key s).1).0 ≡ (c.read_all at s).0
  pub next_frame :
      (at prefix delimiter : String) (n : ℕ) (s : c.State)
      → (c.read_all at (c.next prefix delimiter n s).1).0 ≡ (c.read_all at s).0
  pub random_frame :
      (at : String) (s : c.State) → (c.read_all at (crypto.read_iv s).1).0 ≡ (c.read_all at s).0

module _ (c : GcsClient) (crypto : Crypto c.State) (laws : GcsLaws c crypto) where
  abbrev content : String → c.State → Result Bytes
  content name s = object_read (c.read_all name s).0

  items_frame :
      (at prefix delimiter : String) (names : Attrs → List String) (fuel n : ℕ)
      (objects : List String) (s : c.State)
      → content at (read_items c prefix delimiter names fuel n objects s).1 ≡ content at s
  unfolding read_items
  items_frame at prefix delimiter names zero n objects s = refl
  items_frame at prefix delimiter names (suc fuel) n objects s =
      let here = ap object_read (laws.next_frame at prefix delimiter n s) in
      let s' = (c.next prefix delimiter n s).1 in
      elim (Result-cases (c.next prefix delimiter n s).0) [
        | inr (e, bad) ↦ rw (bad, read_items) here
        | inl (item, got) ↦ elim (Option-cases item) [
          | inl ended ↦ rw (got, ended, read_items) here
          | inr (a, more) ↦
              rw (got, more, read_items)
                (items_frame at prefix delimiter names fuel (suc n) (objects ++ names a) s' ∙ here)
        ]
      ]

  set_stores_or_not :
      (key : String) (value : Bytes) (s : c.State)
      → (content (trim_prefix key "/") (set c key value s).1 ≡ content (trim_prefix key "/") s)
        ⊎ (content (trim_prefix key "/") (set c key value s).1 ≡ ok value)
  unfolding set object_read
  set_stores_or_not key value s =
      let name = trim_prefix key "/" in
      let s1 = (c.write name value s).1 in
      elim (Result-cases (c.close name value s1).0) [
        | inl (u, done) ↦ inr (ap object_read (laws.closed name value s1 done))
        | inr (e, bad) ↦ elim (laws.not_closed name value s1 e bad) [
          | inl old ↦ inl (ap object_read (old ∙ laws.write_frame name name value s))
          | inr new ↦ inr (ap object_read new)
        ]
      ]

  module _ (fuel : (prefix : String) → c.State → ℕ)
      (closes : (key : String) (value : Bytes) (s : c.State)
        → (c.write key value s).0 ≡ ok tt
        → (c.close key value (c.write key value s).1).0 ≡ ok tt) where
    set_stores :
        (key : String) (value : Bytes) (s : c.State)
        → (set c key value s).0 ≡ ok tt
        → content (trim_prefix key "/") (set c key value s).1 ≡ ok value
    unfolding set object_read
    set_stores key value s h =
        let name = trim_prefix key "/" in
        let s1 = (c.write name value s).1 in
        elim (Result-cases (c.write name value s).0) [
          | inr (e, bad) ↦ cc (rw (bad, set) at h)
          | inl (u, taken) ↦ ap object_read (laws.closed name value s1 (closes name value s taken))
        ]

    gcs-ObjectLaws : ObjectLaws (gcs c fuel) crypto (λ key. trim_prefix key "/")
    unfolding get set list_recursive
    gcs-ObjectLaws = record {
      content = content;
      get_lem = λ key s. refl;
      stored = set_stores;
      stored_or_not = set_stores_or_not;
      set_frame = λ at key value s other'. ap object_read (
          laws.close_frame at _ value (c.write (trim_prefix key "/") value s).1 other'
          ∙ laws.write_frame at _ value s);
      get_frame = λ at key s. ap object_read (laws.read_frame at _ s);
      list_frame = λ at prefix s. items_frame at _ _ _ (fuel prefix s) 0 [] s;
      random_frame = λ at s. ap object_read (laws.random_frame at s);
      name_inj = λ at key ha hk same.
          sym (trim_prefix_none at (ground (arith, ha)))
          ∙ same
          ∙ trim_prefix_none key (ground (arith, hk));
    }

    -- The backend on GCS is a backend as the datastore expects it, if GCS does what it documents and no
    -- writer that took a value fails to close.
    pub gcs-BackendLaws : BackendLaws (gcs c fuel) crypto
    gcs-BackendLaws =
        ObjectLaws-BackendLaws (gcs c fuel) crypto (λ key. trim_prefix key "/") gcs-ObjectLaws
