-- ===== src/Tests/Cluster.antt =====
-- A cluster in memory: leases by key, runs in a list, and pods that are all in one phase.
use burrito.Base.{
  ap, eq_iff, String, ◌<>◌, ◌≡◌, refl, Bool, true, false, ◌&&◌, Option, none, some, List, [], ◌∷◌,
  arith, ◌==◌, eq_refl, if◌then◌else◌,
}
use burrito.Base.Int.{pos, ◌+ℤ◌}
use burrito.Base.Effect.{Result, ok, err, not_found, already_exists}
use burrito.Api.{
  Time, NamespacedName, TerraformLayer, TerraformRepository, TerraformRun, TerraformPullRequest,
}
use burrito.World.{World, Runtime, Lease, Pod, PodPhase}
use burrito.Lock.Server.{KeepsLeases, key_of}
use burrito.Layer.Cleanup.{KeepsRuns}
use burrito.Server.Requests.{KeepsPatches}
use burrito.Repository.Bundles.{KeepsBundles}
use burrito.Runner.{Machine}
use burrito.Runner.Sums.{KeepsPlans}

abbrev pub same : NamespacedName → NamespacedName → Bool
same a b = a.namespace == b.namespace && a.name == b.name

pub record Store : Type 0 where
  pub time : Time
  pub layer : TerraformLayer
  pub repository : TerraformRepository
  pub leases : NamespacedName → Option Lease
  pub runs : List TerraformRun
  pub pull_request : Option TerraformPullRequest
  pub plans : NamespacedName → (run attempt format : String) → Option String

abbrev option_to_list : {A : Type 0} → Option A → List A
option_to_list none = []
option_to_list (some a) = a ∷ []

abbrev pub key_of_run : TerraformRun → NamespacedName
key_of_run run = record { namespace = run.metadata.namespace; name = run.metadata.name }

unfoldable pub find : NamespacedName → List TerraformRun → Option TerraformRun
find k [] = none
find k (run ∷ runs) = if same k (key_of_run run) then some run else find k runs

unfoldable pub drop_run : NamespacedName → List TerraformRun → List TerraformRun
drop_run k [] = []
drop_run k (run ∷ runs) =
    let rest = drop_run k runs in if same (key_of_run run) k then rest else run ∷ rest

abbrev pub found : {A : Type 0} → Option A → Result A
found none = err not_found
found (some a) = ok a

abbrev put_lease : NamespacedName → Option Lease → Store → Store
put_lease k l s = record s { leases = λ j. if same k j then l else s.leases j }

abbrev create_lease_at : Lease → Option Lease → Store → Result (Unit {0}) × Store
create_lease_at l (some held) s = (err already_exists, s)
create_lease_at l none s = (ok tt, put_lease (key_of l) (some l) s)

abbrev named_pod : Pod → Pod
named_pod p = record p { metadata = record p.metadata { name = "runner-pod" } }

abbrev pub named_run : TerraformRun → TerraformRun
named_run r = record r { metadata = record r.metadata { name = "new-run" } }

abbrev pub a_pod : PodPhase → Pod
a_pod phase = record {
  metadata = record {
    name = "runner-pod";
    generate_name = "";
    namespace = "team";
    uid = "";
    generation = 1;
    creation_timestamp = pos 0;
    labels = [];
    annotations = [];
    owner_references = [];
  };
  service_account_name = "burrito-runner";
  node_selector = [];
  mounted_cas = [];
  container = record { image = ""; image_pull_policy = ""; args = []; command = []; env = [] };
  phase = phase;
}

abbrev pub cluster : PodPhase → World
cluster phase = record {
  State = Store;
  now = λ s. s.time;
  get_layer = λ s k. ok s.layer;
  get_repository = λ s k. ok s.repository;
  get_run = λ s k. found (find k s.runs);
  get_pod = λ s k. ok (a_pod phase);
  get_lease = λ s k. found (s.leases k);
  get_secret = λ s k. err not_found;
  list_runs = λ s namespace labels. ok s.runs;
  list_layers = λ s. ok (s.layer ∷ []);
  list_all_runs = λ s. ok s.runs;
  list_pods = λ s labels. ok (a_pod phase ∷ []);
  create_run = λ run s. (ok (named_run run), record s { runs = named_run run ∷ s.runs });
  delete_run = λ run s. (ok tt, record s { runs = drop_run (key_of_run run) s.runs });
  create_pod = λ p s. (ok (named_pod p), s);
  create_lease = λ l s. create_lease_at l (s.leases (key_of l)) s;
  delete_lease = λ l s. (ok tt, put_lease (key_of l) none s);
  create_secret = λ x s. (ok tt, s);
  update_secret = λ x s. (ok tt, s);
  patch_layer = λ layer s. (ok layer, record s { layer = layer });
  update_layer_status = λ layer s. (ok layer, record s { layer = layer });
  update_run_status = λ run s. (ok run, s);
  check_git_bundle = λ s k branch revision. ok true;
  put_git_bundle = λ k branch revision bytes s. (ok tt, s);
  update_repository_status = λ repo s. (ok repo, record s { repository = repo });
  get_git_provider = λ s repo. ok tt;
  latest_revision = λ s repo ref. ok "def";
  bundle = λ s repo ref. ok "bytes";
  get_changes = λ s repo before after. "network/main.tf" ∷ [];
  get_pull_request = λ s k. found s.pull_request;
  list_repositories = λ s. ok (s.repository ∷ []);
  list_pull_requests = λ s. ok (option_to_list s.pull_request);
  list_labelled_layers = λ s key value. ok (s.layer ∷ []);
  create_layer = λ layer s. (ok layer, record s { layer = layer });
  delete_layers = λ namespace key value s. (ok tt, s);
  create_pull_request = λ pr s. (ok pr, record s { pull_request = some pr });
  delete_pull_request = λ pr s. (ok tt, record s { pull_request = none });
  patch_repository = λ repo s. (ok repo, record s { repository = repo });
  patch_pull_request = λ pr s. (ok pr, record s { pull_request = some pr });
  update_pull_request_status = λ pr s. (ok pr, record s { pull_request = some pr });
  get_api_provider = λ s repo. ok tt;
  pull_request_changes = λ s repo pr. ok ("network/main.tf" ∷ []);
  comment = λ repo pr layers s. (ok tt, s);
  list_credential_secrets = λ s type. ok [];
  get_plan = λ s k run attempt format. found (s.plans k run attempt format);
  pod_logs = λ s k. ok "";
  put_logs = λ k run attempt logs s. (ok tt, s);
}

same_refl : (k : NamespacedName) → same k k ≡ true
same_refl k = rw (eq_refl k.namespace, eq_refl k.name)

pub cluster-KeepsLeases : (phase : PodPhase) → KeepsLeases (cluster phase)
cluster-KeepsLeases phase = record {
  taken = λ s l held h. lease_taken (s.leases (key_of l)) l held s h;
  created = λ s l h. lease_created (s.leases (key_of l)) l s h;
  deleted = λ s l h. rw (same_refl (key_of l));
  create_pod_frame = λ s p k. refl;
  create_secret_frame = λ s x k. refl;
  update_secret_frame = λ s x k. refl;
}
  where
    lease_taken :
        (at : Option Lease) (l held : Lease) (s : Store)
        → found at ≡ ok held
        → create_lease_at l at s ≡ (err already_exists, s)
    lease_taken none l held s h = cc h
    lease_taken (some x) l held s h = refl

    lease_created :
        (at : Option Lease) (l : Lease) (s : Store)
        → (create_lease_at l at s).0 ≡ ok tt
        → found ((create_lease_at l at s).1.leases (key_of l)) ≡ ok l
    lease_created none l s h = rw (same_refl (key_of l))
    lease_created (some x) l s h = cc h

find-drop_run :
    (k j : NamespacedName) (runs : List TerraformRun)
    → (k.name == j.name) ≡ false
    → find k (drop_run j runs) ≡ find k runs
unfolding find drop_run
find-drop_run k j [] h = refl
find-drop_run k j (run ∷ runs) h = ground (
  arith,
  find-drop_run k j runs h,
  eq_iff k.name j.name,
  eq_iff k.name run.metadata.name,
  eq_iff run.metadata.name j.name,
)

pub cluster-KeepsRuns : (phase : PodPhase) → KeepsRuns (cluster phase)
cluster-KeepsRuns phase = record {
  deleted_frame = λ s run k h. ap found (find-drop_run k (key_of_run run) s.runs h);
}

-- The times that the parser reads are the one thing the examples vary.
abbrev pub runtime : (String → Option Time) → Runtime
runtime times = record {
  parse_time = times;
  format_time = λ t. "then";
  parse_duration = λ d. some (pos 10);
  cron_next = λ c. some (λ t. t +ℤ pos 1);
  glob_match = λ pattern name. some (pattern == name);
  exp_int32 = λ n. pos 1;
  parse_url = λ u. none;
  clean_path = λ p. p;
}

abbrev pub no_times : Runtime
no_times = runtime (λ t. none)

abbrev pub all_at_zero : Runtime
all_at_zero = runtime (λ t. some (pos 0))

pub ok_injective : {A : Type 0} (a b : A) → ok a ≡ ok b → a ≡ b
ok_injective a b h = cc h

pub cluster-KeepsPatches : (phase : PodPhase) → KeepsPatches (cluster phase)
cluster-KeepsPatches phase = record {
  stored = λ s sent answer h. h;
  annotated = λ s sent answer k v h found. cc (ok_injective sent answer h, found);
}

-- The bundles of this cluster are always there.
pub cluster-KeepsBundles : (phase : PodPhase) → KeepsBundles (cluster phase)
cluster-KeepsBundles phase = record {
  put = λ s key branch revision bytes h. refl;
  put_keeps = λ s key at branch revision bytes b r h. refl;
  patch_keeps = λ s layer at b r h. refl;
}

abbrev store_plan :
    NamespacedName → (run attempt format bytes : String) → Store → Result (Unit {0}) × Store
store_plan key run attempt format bytes s = (
  ok tt,
  record s {
    plans = λ k r a f.
        if same key k && (run == r && (attempt == a && format == f))
        then some bytes
        else s.plans k r a f;
  },
)

-- A runner's machine whose plans are all alike.
abbrev pub machine : (phase : PodPhase) → Machine (cluster phase)
machine phase = record {
  init = λ working_dir s. (ok tt, s);
  plan = λ artifact s. (ok tt, s);
  show = λ artifact mode s. (ok mode, s);
  apply = λ artifact s. (ok tt, s);
  read_file = λ path s. ok "binary";
  write_file = λ path bytes s. (ok tt, s);
  put_plan = store_plan;
  digest = λ bytes. bytes <> "=";
  resource_changes = λ json. some [];
}

pub machine-KeepsPlans : (phase : PodPhase) → KeepsPlans (cluster phase) (machine phase)
machine-KeepsPlans phase s key run attempt format bytes h =
    rw (same_refl key, eq_refl run, eq_refl attempt, eq_refl format) refl
