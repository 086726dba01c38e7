-- ===== src/Datastore/S3.antt =====
-- internal/datastore/storage/s3/s3.go: the backend on S3. The client of the AWS SDK is a parameter.
pub mod Pages
pub mod Kept
use burrito.Base.{
  ℕ, zero, suc, String, ◌<>◌, Bool, true, false, not, ◌&&◌, Option, none, some, List, [], ◌∷◌, ◌++◌,
  map, eqb, ◌==◌, if◌then◌else◌,
}
use Prim.Native.Char.{code}
use burrito.Base.Effect.{Result, ok, err, ApiError, not_found, already_exists, other, Effect}
use burrito.Base.Text.{trim_prefix, trim_suffix, bytes}
use burrito.Encryption.{Bytes}
use burrito.Datastore.{Backend}
use burrito.Datastore.Mock.{sanitize_prefix}

-- The checksums of `HeadObjectOutput`, where it has them.
pub record Head : Type 0 where
  pub checksum_sha256 : Option String
  pub etag : Option String

-- `ListObjectsV2Input`
pub record ListInput : Type 0 where
  pub prefix : String
  pub delimiter : Option String
  pub continuation_token : Option String
  pub max_keys : Option ℕ

-- `ListObjectsV2Output`: the keys and the common prefixes, and the token of the next page. `IsTruncated`
-- is in every answer of S3.
pub record Page : Type 0 where
  pub contents : List String
  pub common_prefixes : List String
  pub is_truncated : Bool
  pub next_token : Option String

-- The client, for one bucket. The error `not_found` is `NoSuchKey` of `GetObject` and `NotFound` of
-- `HeadObject`; a body that cannot be read is none.
pub record S3Client : Type 1 where
  pub State : Type 0
  pub get_object : (key : String) → Effect State (Result (Option Bytes))
  pub head_object : (key : String) → Effect State (Result Head)
  pub put_object : (key : String) (value : Bytes) → Effect State (Result (Unit {0}))
  pub delete_object : (key : String) → Effect State (Result (Unit {0}))
  pub list_objects : ListInput → Effect State (Result Page)

-- Only `NoSuchKey` and `NotFound` are told apart.
abbrev pub wrapped : ApiError → ApiError
wrapped not_found = not_found
wrapped already_exists = other
wrapped other = other

unfoldable pub quotes_behind : (s : String) → String
quotes_behind String.[] = ""
quotes_behind (String.◌∷◌ c s) =
    let rest = quotes_behind s in if eqb (code c) 34 && (rest == "") then "" else String.◌∷◌ c rest

unfoldable pub quotes_before : (s : String) → String
quotes_before String.[] = ""
quotes_before (String.◌∷◌ c s) = if eqb (code c) 34 then quotes_before s else String.◌∷◌ c s

-- `strings.Trim(s, "\"")`
unfoldable pub trim_quotes : (s : String) → String
unfolding quotes_behind quotes_before
trim_quotes s = quotes_behind (quotes_before s)

-- The checksum, or else the ETag without its quotes, or else nothing.
unfoldable pub checksum : Head → Bytes
unfolding trim_quotes
checksum head = elim head.checksum_sha256 [
  | some sum ↦ bytes sum
  | none ↦ elim head.etag [ some etag ↦ bytes (trim_quotes etag) | none ↦ [] ]
]

unfoldable pub object_read : Result (Option Bytes) → Result Bytes
object_read (err e) = err (wrapped e)
object_read (ok none) = err other
object_read (ok (some value)) = ok value

module _ (c : S3Client) where
  open c use {State, get_object, head_object, put_object, delete_object, list_objects}

  unfoldable pub get : (key : String) → Effect State (Result Bytes)
  unfolding object_read
  get key s = let (found, s') = get_object (trim_prefix key "/") s in (object_read found, s')

  unfoldable pub check : (key : String) → Effect State (Result Bytes)
  unfolding checksum
  check key s =
      let (found, s') = head_object (trim_prefix key "/") s in
      (elim found [ err e ↦ err (wrapped e) | ok head ↦ ok (checksum head) ], s')

  unfoldable pub set : (key : String) (value : Bytes) → Effect State (Result (Unit {0}))
  set key value s =
      let (stored, s') = put_object (trim_prefix key "/") value s in
      (elim stored [ err e ↦ err other | ok u ↦ ok u ], s')

  unfoldable pub delete : (key : String) → Effect State (Result (Unit {0}))
  delete key s =
      let (found, s') = head_object (trim_prefix key "/") s in
      elim found [
        | err e ↦ (err (wrapped e), s')
        | ok head ↦
            let (deleted, s'') = delete_object (trim_prefix key "/") s' in
            (elim deleted [ err e ↦ err other | ok u ↦ ok u ], s'')
      ]

  -- The names of one page, folders without the slash at their end.
  unfoldable pub names : Page → List String
  names page =
      map (λ p. "/" <> trim_suffix p "/") page.common_prefixes ++ map (λ k. "/" <> k) page.contents

  unfoldable pub is_empty : Page → Bool
  is_empty page = elim page.common_prefixes [
    | [] ↦ elim page.contents [ [] ↦ true | k ∷ ks ↦ false ]
    | p ∷ ps ↦ false
  ]

  -- Only the first page is read.
  unfoldable pub list : (prefix : String) → Effect State (Result (List String))
  unfolding names is_empty
  list prefix s =
      let (answer, s') =
        list_objects
          (record {
            prefix = sanitize_prefix prefix;
            delimiter = some "/";
            continuation_token = none;
            max_keys = none;
          })
          s in
      (
        elim answer [
          | err e ↦ err other
          | ok page ↦ if is_empty page then err not_found else ok (names page)
        ],
        s',
      )

  abbrev pub next_input : String → Option String → ListInput
  next_input prefix token = record {
    prefix = prefix;
    delimiter = none;
    continuation_token = token;
    max_keys = none;
  }

  -- The loop over the pages from a token on; none when the fuel has run out.
  unfoldable pub list_pages :
      ℕ
      → (prefix : String) → Option String
      → (found : List String) → Effect State (Option (Result (List String)))
  list_pages zero prefix token found s = (none, s)
  list_pages (suc fuel) prefix token found s =
      let (answer, s') = list_objects (next_input prefix token) s in
      elim answer [
        | err e ↦ (some (err other), s')
        | ok page ↦
            let all = found ++ map (λ k. "/" <> k) page.contents in
            elim page.is_truncated [
              | false ↦ (some (ok all), s')
              | true ↦ list_pages fuel prefix page.next_token all s'
            ]
      ]

  -- With no file found: whether there is anything under the prefix.
  unfoldable pub check_prefix : (prefix : String) → Effect State (Result (List String))
  unfolding is_empty
  check_prefix prefix s =
      let (answer, s') =
        list_objects
          (record {
            prefix = prefix;
            delimiter = some "/";
            continuation_token = none;
            max_keys = some 1;
          })
          s in
      (
        elim answer [
          | err e ↦ err other
          | ok page ↦ if is_empty page then err not_found else ok []
        ],
        s',
      )

  unfoldable pub settle_pages :
      (prefix : String) → Result (List String) → Effect State (Result (List String))
  unfolding check_prefix
  settle_pages prefix (err e) s = (err e, s)
  settle_pages prefix (ok []) s = check_prefix prefix s
  settle_pages prefix (ok (k ∷ ks)) s = (ok (k ∷ ks), s)

  -- `ListRecursive`; none when the fuel has run out.
  unfoldable pub list_recursive :
      ℕ → (prefix : String) → Effect State (Option (Result (List String)))
  unfolding list_pages settle_pages
  list_recursive fuel prefix s =
      let listed = sanitize_prefix prefix in
      let (keys, s') = list_pages fuel listed none [] s in
      elim keys [
        | none ↦ (none, s')
        | some found ↦ let (settled, s'') = settle_pages listed found s' in (some settled, s'')
      ]

  -- The backend, with the fuel of its listings.
  abbrev pub s3 : ((prefix : String) → State → ℕ) → Backend
  s3 fuel = record {
    State = State;
    get = get;
    check = check;
    set = set;
    delete = delete;
    list = list;
    list_recursive = λ prefix s.
        let (settled, s') = list_recursive (fuel prefix s) prefix s in
        (elim settled [ none ↦ err other | some found ↦ found ], s');
  }
