-- ===== src/Datastore/Gcs.antt =====
-- internal/datastore/storage/gcs/gcs.go: the backend on Google Cloud Storage. The client of its SDK is a
-- parameter.
pub mod Kept
use burrito.Base.{
  ℕ, zero, suc, String, ◌<>◌, Option, none, some, List, [], ◌∷◌, ◌++◌, ◌==◌, if◌then◌else◌,
}
use burrito.Base.Effect.{Result, ok, err, ApiError, not_found, already_exists, other, Effect}
use burrito.Base.Text.{trim_prefix, trim_suffix}
use burrito.Encryption.{Bytes}
use burrito.Datastore.{Backend}
use burrito.Datastore.Mock.{sanitize_prefix}

-- `ObjectAttrs` of a listing: an object has a name, a folder only a prefix.
pub record Attrs : Type 0 where
  pub name : String
  pub prefix : String

-- The client, for one bucket. The error `not_found` is `ErrObjectNotExist`; a reader that cannot be read
-- to its end is none. A writer is written to once and then closed; an iterator is at a number of items.
pub record GcsClient : Type 1 where
  pub State : Type 0
  pub read_all : (key : String) → Effect State (Result (Option Bytes))
  pub write : (key : String) (value : Bytes) → Effect State (Result (Unit {0}))
  pub close : (key : String) (value : Bytes) → Effect State (Result (Unit {0}))
  pub attrs : (key : String) → Effect State (Result Bytes)
  pub delete_object : (key : String) → Effect State (Result (Unit {0}))
  -- none is `iterator.Done`
  pub next : (prefix delimiter : String) (read : ℕ) → Effect State (Result (Option Attrs))

abbrev pub object_error : ApiError → ApiError
object_error not_found = not_found
object_error already_exists = other
object_error other = other

unfoldable pub object_read : Result (Option Bytes) → Result Bytes
object_read (err e) = err (object_error e)
object_read (ok none) = err other
object_read (ok (some value)) = ok value

module _ (c : GcsClient) where
  open c use {State, read_all, write, close, attrs, delete_object, next}

  unfoldable pub get : (key : String) → Effect State (Result Bytes)
  unfolding object_read
  get key s = let (found, s') = read_all (trim_prefix key "/") s in (object_read found, s')

  -- The writer is closed behind the `return`, whose value stays.
  unfoldable pub set : (key : String) (value : Bytes) → Effect State (Result (Unit {0}))
  set key value s =
      let (written, s') = write (trim_prefix key "/") value s in
      let (_, s'') = close (trim_prefix key "/") value s' in
      (elim written [ err e ↦ err other | ok u ↦ ok u ], s'')

  unfoldable pub check : (key : String) → Effect State (Result Bytes)
  check key s =
      let (found, s') = attrs (trim_prefix key "/") s in
      (elim found [ err e ↦ err (object_error e) | ok md5 ↦ ok md5 ], s')

  unfoldable pub delete : (key : String) → Effect State (Result (Unit {0}))
  delete key s =
      let (deleted, s') = delete_object (trim_prefix key "/") s in
      (elim deleted [ err e ↦ err (object_error e) | ok u ↦ ok u ], s')

  -- What the loops add for one item.
  unfoldable pub listed : Attrs → List String
  listed a =
      (if a.prefix == "" then [] else ("/" <> trim_suffix a.prefix "/") ∷ [])
      ++ (if a.name == "" then [] else ("/" <> a.name) ∷ [])

  unfoldable pub listed_object : Attrs → List String
  listed_object a = if a.name == "" then [] else ("/" <> a.name) ∷ []

  -- The loop over the items of an iterator, on fuel; none when it has run out.
  unfoldable pub read_items :
      (prefix delimiter : String)
      → (Attrs → List String)
      → ℕ
      → (read : ℕ) (objects : List String) → Effect State (Option (Result (List String)))
  read_items prefix delimiter names zero read objects s = (none, s)
  read_items prefix delimiter names (suc fuel) read objects s =
      let (answer, s') = next prefix delimiter read s in
      elim answer [
        | err e ↦ (some (err other), s')
        | ok item ↦ elim item [
          | none ↦ (some (ok objects), s')
          | some a ↦ read_items prefix delimiter names fuel (suc read) (objects ++ names a) s'
        ]
      ]

  -- An item was found exactly where there is an object in the list.
  abbrev pub unless_empty : Option (Result (List String)) → Result (List String)
  unless_empty none = err other
  unless_empty (some (err e)) = err e
  unless_empty (some (ok [])) = err not_found
  unless_empty (some (ok (k ∷ ks))) = ok (k ∷ ks)

  unfoldable pub list : (fuel : ℕ) (prefix : String) → Effect State (Result (List String))
  unfolding read_items listed
  list fuel prefix s =
      let (objects, s') = read_items (sanitize_prefix prefix) "/" listed fuel 0 [] s in
      (unless_empty objects, s')

  unfoldable pub list_recursive : (fuel : ℕ) (prefix : String) → Effect State (Result (List String))
  unfolding read_items listed_object
  list_recursive fuel prefix s =
      let (objects, s') = read_items (sanitize_prefix prefix) "" listed_object fuel 0 [] s in
      (unless_empty objects, s')

  -- The backend, with the fuel of its listings.
  abbrev pub gcs : ((prefix : String) → State → ℕ) → Backend
  gcs fuel = record {
    State = State;
    get = get;
    check = check;
    set = set;
    delete = delete;
    list = λ prefix s. list (fuel prefix s) prefix s;
    list_recursive = λ prefix s. list_recursive (fuel prefix s) prefix s;
  }
