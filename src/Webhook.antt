-- ===== src/Webhook.antt =====
-- internal/webhook/event: what a push or a pull request event changes in the cluster. How a request
-- becomes an event is in Payloads.
pub mod Url
pub mod Normal
pub mod Pushed
pub mod Payloads
pub mod Signed
pub mod Verified
pub mod Unheard
use burrito.Base.{
  String, ◌<>◌, Bool, true, false, ◌&&◌, Option, none, some, List, [], ◌∷◌, ◌++◌, ◌==◌, any, filter,
  map, if◌then◌else◌,
}
use burrito.Base.Int.{pos}
use burrito.Base.Dict.{Dict, insert_all, remove}
use burrito.Base.Effect.{Result, ok, err, ApiError, other, Effect}
use burrito.Base.Text.{cut_at}
use burrito.Api.{TerraformRepository, TerraformPullRequest}
use burrito.Annotations.{
  last_branch_commit, last_branch_commit_date, compute_key_for_sync_branch_now,
}
use burrito.World.{World, Runtime}
use Url.{normalize_url}

pub record PushEvent : Type 0 where
  pub url : String
  pub reference : String
  pub sha_before : String
  pub sha_after : String
  pub changes : List String

pub record PullRequestEvent : Type 0 where
  pub url : String
  pub reference : String
  pub base : String
  pub action : String
  pub id : String
  pub commit : String

-- The part behind the second slash, or the last part if there are fewer slashes.
unfoldable pub parse_reference : (ref : String) → String
parse_reference ref = elim (cut_at 47 ref) [
  | none ↦ ref
  | some (first, rest) ↦ elim (cut_at 47 rest) [ none ↦ rest | some (second, last) ↦ last ]
]

unfoldable pub is_pr_linked_to_any_repositories :
    List TerraformRepository → TerraformPullRequest → Bool
is_pr_linked_to_any_repositories repos pr =
    any
      (λ r.
        (r.metadata.name == pr.spec.repository.name)
        && (r.metadata.namespace == pr.spec.repository.namespace))
      repos

abbrev set_repository_annotations : Dict String → TerraformRepository → TerraformRepository
set_repository_annotations a repo = record repo {
  metadata = record repo.metadata { annotations = a };
}

abbrev set_pull_request_annotations : Dict String → TerraformPullRequest → TerraformPullRequest
set_pull_request_annotations a pr = record pr { metadata = record pr.metadata { annotations = a } }

-- `getAffectedRepositories` of both events.
unfoldable pub get_affected_repositories :
    Runtime → (url : String) → List TerraformRepository → List TerraformRepository
get_affected_repositories rt url repositories =
    filter (λ repo. url == normalize_url rt repo.spec.url) repositories

module _ (e : PushEvent) where
  unfoldable pub get_affected_pull_requests :
      List TerraformPullRequest → List TerraformRepository → List TerraformPullRequest
  unfolding is_pr_linked_to_any_repositories
  get_affected_pull_requests prs repos =
      filter (λ pr. is_pr_linked_to_any_repositories repos pr && (pr.spec.branch == e.reference))
        prs

  module _ (rt : Runtime) (w : World) where
    -- The loops of `Handle`: the first error ends them.
    unfoldable pub annotate_repositories :
        List TerraformRepository → Effect w.State (Result (Unit {0}))
    annotate_repositories [] s = (ok tt, s)
    annotate_repositories (repo ∷ repos) s =
        let date = rt.format_time (w.now s) in
        let changes = (compute_key_for_sync_branch_now e.reference, date) ∷ [] in
        let sent = set_repository_annotations (insert_all changes repo.metadata.annotations) repo in
        let (patched, s') = w.patch_repository sent s in
        let rest = annotate_repositories repos s' in
        elim patched [ err x ↦ (err x, s') | ok answer ↦ rest ]

    unfoldable pub annotate_pull_requests :
        (date : String) → List TerraformPullRequest → Effect w.State (Result (Unit {0}))
    annotate_pull_requests date [] s = (ok tt, s)
    annotate_pull_requests date (pr ∷ prs) s =
        let changes = (last_branch_commit, e.sha_after) ∷ (last_branch_commit_date, date) ∷ [] in
        let sent = set_pull_request_annotations (insert_all changes pr.metadata.annotations) pr in
        let (patched, s') = w.patch_pull_request sent s in
        let rest = annotate_pull_requests date prs s' in
        elim patched [ err x ↦ (err x, s') | ok answer ↦ rest ]

    unfoldable pub handle_push : Effect w.State (Result (Unit {0}))
    unfolding get_affected_repositories get_affected_pull_requests annotate_repositories
        annotate_pull_requests
    handle_push s =
        let date = rt.format_time (w.now s) in
        elim (w.list_repositories s) [
          | err x ↦ (err x, s)
          | ok repositories ↦ elim (w.list_pull_requests s) [
            | err x ↦ (err x, s)
            | ok prs ↦
                let affected = get_affected_repositories rt e.url repositories in
                let (done, s') = annotate_repositories affected s in
                elim done [
                  | err x ↦ (err x, s')
                  | ok u ↦ annotate_pull_requests date (get_affected_pull_requests prs affected) s'
                ]
          ]
        ]

module _ (e : PullRequestEvent) where
  -- One pull request of `generateTerraformPullRequests`.
  unfoldable pub generate_pull_request : TerraformRepository → TerraformPullRequest
  generate_pull_request repository = record {
    api_version = "";
    kind = "";
    metadata = record {
      name = repository.metadata.name <> ("-" <> e.id);
      generate_name = "";
      namespace = repository.metadata.namespace;
      uid = "";
      generation = 0;
      creation_timestamp = pos 0;
      labels = [];
      annotations = (last_branch_commit, e.commit) ∷ [];
      owner_references = [];
    };
    spec = record {
      branch = e.reference;
      base = e.base;
      id = e.id;
      repository = record {
        name = repository.metadata.name;
        namespace = repository.metadata.namespace;
      };
    };
    status = record {
      conditions = [];
      state = "";
      last_discovered_commit = "";
      last_commented_commit = "";
    };
  }

  module _ (w : World) where
    -- Both batches go on after an error; the answer is the errors.
    unfoldable pub batch_create_pull_requests :
        List TerraformPullRequest → (errors : List ApiError) → Effect w.State (List ApiError)
    batch_create_pull_requests [] errors s = (errors, s)
    batch_create_pull_requests (pr ∷ prs) errors s =
        let (created, s') = w.create_pull_request pr s in
        batch_create_pull_requests prs
          (elim created [ ok answer ↦ errors | err x ↦ errors ++ (x ∷ []) ]) s'

    unfoldable pub batch_delete_pull_requests :
        List TerraformPullRequest → (errors : List ApiError) → Effect w.State (List ApiError)
    batch_delete_pull_requests [] errors s = (errors, s)
    batch_delete_pull_requests (pr ∷ prs) errors s =
        let (deleted, s') = w.delete_pull_request pr s in
        batch_delete_pull_requests prs (elim deleted [ ok u ↦ errors | err x ↦ errors ++ (x ∷ []) ])
          s'

    -- The loop over the annotations of a closed pull request's branch, whose errors are only logged.
    unfoldable pub remove_annotations : List TerraformRepository → Effect w.State (Unit {0})
    remove_annotations [] s = (tt, s)
    remove_annotations (repo ∷ repos) s =
        let key = compute_key_for_sync_branch_now e.reference in
        let sent = set_repository_annotations (remove key repo.metadata.annotations) repo in
        let (_, s') = w.patch_repository sent s in remove_annotations repos s'

    unfoldable pub handle_affected : List TerraformRepository → Effect w.State (List ApiError)
    unfolding generate_pull_request batch_create_pull_requests batch_delete_pull_requests
        remove_annotations
    handle_affected [] s = ([], s)
    handle_affected (repo ∷ repos) s =
        let prs = map generate_pull_request (repo ∷ repos) in
        let opened = batch_create_pull_requests prs [] s in
        let (_, s') = remove_annotations (repo ∷ repos) s in
        let closed = batch_delete_pull_requests prs [] s' in
        if e.action == "opened" then opened else if e.action == "closed" then closed else ([], s)

    unfoldable pub handle_pull_request : (rt : Runtime) → Effect w.State (List ApiError)
    unfolding get_affected_repositories handle_affected
    handle_pull_request rt s = elim (w.list_repositories s) [
      | err x ↦ (x ∷ [], s)
      | ok repositories ↦ handle_affected (get_affected_repositories rt e.url repositories) s
    ]
