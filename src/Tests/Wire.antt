-- ===== src/Tests/Wire.antt =====
-- The theorems on the datastore's client and server, at concrete inputs.
use burrito.Base.{
  String, ◌≡◌, inl, inr, refl, sym, ap, ◌∙◌, true, Option, none, some, List, [], ◌∷◌, ◌==◌,
  Bool-cases, Option-cases,
}
use burrito.Base.Dict.{Dict, lookup, lookup-insert_same, lookup-insert}
use burrito.Base.Effect.{Result, ok, err, not_found, other}
use burrito.Encryption.{Bytes, protect}
use burrito.Authz.{Authz, Cluster, add_service_account, process}
use burrito.Datastore.{Backend}
use burrito.Server.Runs.{get_logs_handler, download_logs_handler}
use burrito.Server.Runs.Downloads.{download_logs-put_logs}
use burrito.Datastore.Storage.{put_logs, put_plan, put_git_bundle}
use burrito.Datastore.Mock.{mock, object_key, set, check}
use burrito.Datastore.Memory.{mock-BackendLaws}
use burrito.Datastore.Handlers.{
  Body, no_content, results, blob, store, put_plan_handler, put_logs_handler, split_bytes,
  put_git_bundle_handler,
}
use burrito.Datastore.Server.{serve}
use burrito.Datastore.Client
use burrito.Datastore.Network.{network, IsAccepted}
use burrito.Datastore.Network.Plans.{get_plan-put_plan}
use burrito.Datastore.Network.Checked.{CheckLaws}
use burrito.Datastore.Network.Bundles.{
  IsThere, put_git_bundle-IsThere, put_git_bundle_keeps-IsThere,
}
use burrito.Tests.Storage.{crypto, source, source-CryptoLaws}

-- The client of a runner's pod on a datastore in memory, which reviews every token anew.
abbrev runner : String
runner = "system:serviceaccount:team:burrito-runner"

abbrev authz : Authz
authz =
    add_service_account "team" "burrito-runner"
      (record { audience = "burrito"; service_accounts = [] })

abbrev reviews : Cluster
reviews = record {
  State = Unit {0};
  get = λ s token. none;
  set = λ token user s. s;
  review = λ s token audience. ok (true, token);
}

abbrev bytes_of : Body → Bytes
bytes_of no_content = []
bytes_of (results lines) = []
bytes_of (blob bytes) = bytes

abbrev decoded : Body → Result (List Bytes)
decoded no_content = err other
decoded (results lines) = ok lines
decoded (blob bytes) = err other

abbrev memory : Backend
memory = mock (Unit {0})

runner-IsAccepted : IsAccepted authz reviews memory source none runner decoded bytes_of
unfolding process add_service_account
runner-IsAccepted = λ s. (runner, refl)

abbrev Checked : String → Dict Bytes × Unit {0} → Type 0
Checked key s = (sum : Bytes) × ((memory.check key s).0 ≡ ok sum)

abbrev blob_of : Option Bytes → Result Bytes
blob_of none = err not_found
blob_of (some value) = ok value

check_lem :
    (key : String) (s : Dict Bytes × Unit {0})
    → (memory.check key s).0 ≡ blob_of (lookup (object_key key) s.0)
unfolding check
check_lem key s = elim (Option-cases (lookup (object_key key) s.0)) [
  | inl missing ↦ rw (check, missing) refl
  | inr (value, there) ↦ rw (check, there) refl
]

check-set :
    (key : String) (value : Bytes) (s : Dict Bytes × Unit {0})
    → (memory.set key value s).0 ≡ ok tt
    → Checked key (memory.set key value s).1
unfolding set
check-set key value s h = (
  value,
  check_lem key (memory.set key value s).1
      ∙ ap blob_of (lookup-insert_same (object_key key) value s.0),
)

check_stays :
    (at key : String) (value : Bytes) (s : Dict Bytes × Unit {0})
    → Checked at s
    → Checked at (memory.set key value s).1
unfolding set
check_stays at key value s (sum, h) =
    let found = lookup-insert (object_key key) (object_key at) value s.0 in
    let before = check_lem at (memory.set key value s).1 in
    elim (Bool-cases (object_key key == object_key at)) [
      | inl same ↦ (value, before ∙ ap blob_of (rw same at found))
      | inr differs ↦
          (sum, before ∙ (ap blob_of (rw differs at found) ∙ (sym (check_lem at s) ∙ h)))
    ]

memory-CheckLaws : CheckLaws memory source
memory-CheckLaws = record {
  check-set = check-set;
  check_stays = check_stays;
  check-read_iv = λ at s. check_lem at (source.read_iv s).1 ∙ sym (check_lem at s);
}

abbrev wire : Client.Transport
wire = network authz reviews memory source none runner decoded bytes_of

abbrev empty : Unit {0} × (Dict Bytes × Unit {0})
empty = (tt, ([], tt))

get_plan-put_plan_example :
    (Client.get_plan wire "team" "network" "run" "0" "json"
      (Client.put_plan wire "team" "network" "run" "0" "json" (123 ∷ 125 ∷ []) empty).1).0
    ≡ ok (123 ∷ 125 ∷ [])
unfolding Client.put_plan serve put_plan_handler store put_plan set process add_service_account
    protect
get_plan-put_plan_example =
    get_plan-put_plan authz reviews memory source none runner decoded bytes_of runner-IsAccepted
      (λ bytes. refl) (mock-BackendLaws crypto) source-CryptoLaws "team" "network" "run" "0" "json"
      (123 ∷ 125 ∷ []) empty refl

download_logs-put_logs_example :
    let s' = (Client.put_logs wire "team" "network" "run" "0" (72 ∷ 105 ∷ 10 ∷ 33 ∷ []) empty).1 in
    ((get_logs_handler wire "team" "network" "run" "0" s').0
      ≡ (200, (72 ∷ 105 ∷ []) ∷ (33 ∷ []) ∷ []))
    × ((download_logs_handler wire "team" "network" "run" "0" s').0
        ≡ (200, 72 ∷ 105 ∷ 10 ∷ 33 ∷ []))
unfolding Client.put_logs serve put_logs_handler store put_logs set process add_service_account
    protect split_bytes
download_logs-put_logs_example =
    download_logs-put_logs authz reviews memory source none runner decoded bytes_of
      runner-IsAccepted (mock-BackendLaws crypto) source-CryptoLaws "team" "network" "run" "0"
      (72 ∷ 105 ∷ 10 ∷ 33 ∷ []) empty refl refl

abbrev with_bundle : Unit {0} × (Dict Bytes × Unit {0})
with_bundle = (Client.put_git_bundle wire "team" "code" "main" "abc" (7 ∷ []) empty).1

put_git_bundle-IsThere_example :
    IsThere authz reviews memory source none runner decoded bytes_of runner-IsAccepted with_bundle
      "team" "code" "main" "abc"
unfolding Client.put_git_bundle serve put_git_bundle_handler store put_git_bundle set process
    add_service_account protect
put_git_bundle-IsThere_example =
    put_git_bundle-IsThere authz reviews memory source none runner decoded bytes_of
      runner-IsAccepted memory-CheckLaws "team" "code" "main" "abc" (7 ∷ []) empty refl

put_git_bundle_keeps-IsThere_example :
    IsThere authz reviews memory source none runner decoded bytes_of runner-IsAccepted
      (Client.put_git_bundle wire "team" "code" "main" "def" (8 ∷ []) with_bundle).1
      "team"
      "code"
      "main"
      "abc"
unfolding Client.put_git_bundle serve put_git_bundle_handler store put_git_bundle set process
    add_service_account protect
put_git_bundle_keeps-IsThere_example =
    put_git_bundle_keeps-IsThere authz reviews memory source none runner decoded bytes_of
      runner-IsAccepted memory-CheckLaws "team" "code" "main" "def" "team" "code" "main" "abc"
      (8 ∷ []) with_bundle
      (put_git_bundle-IsThere authz reviews memory source none runner decoded bytes_of
        runner-IsAccepted memory-CheckLaws "team" "code" "main" "abc" (7 ∷ []) empty refl)
