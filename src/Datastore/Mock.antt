-- ===== src/Datastore/Mock.antt =====
-- internal/datastore/storage/mock/mock.go: the backend in memory. Its map is an association list;
-- the source's iterates in an order of its own.
use burrito.Base.{String, ◌<>◌, none, some, List, [], ◌∷◌, if◌then◌else◌, contains}
use burrito.Base.Dict.{Dict, lookup, insert, remove}
use burrito.Base.Effect.{Result, ok, err, not_found, Effect}
use burrito.Base.Text.{split, trim_prefix, trim_suffix, has_prefix}
use burrito.Encryption.{Bytes, Crypto}
use burrito.Datastore.{Backend}

-- `utils.SanitizePrefix`
unfoldable pub sanitize_prefix : (prefix : String) → String
sanitize_prefix prefix = trim_suffix (trim_prefix prefix "/") "/" <> "/"

-- The key under which an object is.
unfoldable pub object_key : (key : String) → String
unfolding sanitize_prefix
object_key key = trim_suffix ("/" <> sanitize_prefix key) "/"

unfoldable pub list_prefix : (prefix : String) → String
unfolding sanitize_prefix
list_prefix prefix = "/" <> sanitize_prefix prefix

-- The keys with the prefix.
unfoldable pub under : (prefix : String) (entries : Dict Bytes) → List String
under prefix [] = []
under prefix (entry ∷ entries) =
    let others = under prefix entries in
    if has_prefix entry.0 prefix then entry.0 ∷ others else others

-- The folders one level below the prefix, each once.
unfoldable pub folders : (prefix : String) (keys : List String) → List String
folders prefix [] = []
folders prefix (key ∷ keys) =
    let folder = prefix <> (split 47 (trim_prefix key prefix)).0 in
    let others = folders prefix keys in if contains others folder then others else folder ∷ others

-- `data` and, beside it, what the process's random source is at.
module _ {E : Type 0} where
  unfoldable pub get : (key : String) → Effect (Dict Bytes × E) (Result Bytes)
  unfolding object_key
  get key s = elim (lookup (object_key key) s.0) [
    | none ↦ (err not_found, s)
    | some value ↦ (ok value, s)
  ]

  unfoldable pub check : (key : String) → Effect (Dict Bytes × E) (Result Bytes)
  unfolding object_key
  check key s = elim (lookup (object_key key) s.0) [
    | none ↦ (err not_found, s)
    | some value ↦ (ok value, s)
  ]

  unfoldable pub set : (key : String) (value : Bytes) → Effect (Dict Bytes × E) (Result (Unit {0}))
  unfolding object_key
  set key value s = (ok tt, (insert (object_key key) value s.0, s.1))

  unfoldable pub delete : (key : String) → Effect (Dict Bytes × E) (Result (Unit {0}))
  unfolding object_key
  delete key s = elim (lookup (object_key key) s.0) [
    | none ↦ (err not_found, s)
    | some value ↦ (ok tt, (remove (object_key key) s.0, s.1))
  ]

  unfoldable pub list : (prefix : String) → Effect (Dict Bytes × E) (Result (List String))
  unfolding list_prefix under folders
  list prefix s = elim (under (list_prefix prefix) s.0) [
    | [] ↦ (err not_found, s)
    | key ∷ keys ↦ (ok (folders (list_prefix prefix) (key ∷ keys)), s)
  ]

  unfoldable pub list_recursive : (prefix : String) → Effect (Dict Bytes × E) (Result (List String))
  unfolding list_prefix under
  list_recursive prefix s = elim (under (list_prefix prefix) s.0) [
    | [] ↦ (err not_found, s)
    | key ∷ keys ↦ (ok (key ∷ keys), s)
  ]

abbrev pub mock : (E : Type 0) → Backend
mock E = record {
  State = Dict Bytes × E;
  get = get;
  check = check;
  set = set;
  delete = delete;
  list = list;
  list_recursive = list_recursive;
}

-- A random source beside the stored data.
abbrev pub beside : {E : Type 0} → Crypto E → Crypto (Dict Bytes × E)
beside crypto = record {
  sum256 = crypto.sum256;
  accepts_key = crypto.accepts_key;
  encrypt_blocks = crypto.encrypt_blocks;
  decrypt_blocks = crypto.decrypt_blocks;
  read_iv = λ s. let (iv, e) = crypto.read_iv s.1 in (iv, (s.0, e));
}
