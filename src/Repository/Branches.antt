-- ===== src/Repository/Branches.antt =====
-- internal/controllers/terraformrepository/polling.go, and the functions on branch states in
-- conditions.go and states.go.
use burrito.Base.{
  String, Bool, true, false, none, some, List, [], ◌∷◌, ◌++◌, map, ◌==◌, if◌then◌else◌, any, filter,
  contains,
}
use burrito.Base.Dict.{lookup}
use burrito.Api.{BranchState, get_branch_state, TerraformLayer, TerraformRepository}
use burrito.Annotations.{last_branch_commit}

-- The filter of `retrieveManagedLayers`: it does not compare namespaces.
unfoldable pub managed_layers : TerraformRepository → List TerraformLayer → List TerraformLayer
managed_layers repo layers = filter (λ l. l.spec.repository.name == repo.metadata.name) layers

unfoldable pub retrieve_all_layer_refs : List TerraformLayer → List String
retrieve_all_layer_refs layers = map (λ l. l.spec.branch) layers

unfoldable pub retrieve_layers_for_ref : String → List TerraformLayer → List TerraformLayer
retrieve_layers_for_ref ref layers = filter (λ l. l.spec.branch == ref) layers

abbrev is_new : TerraformLayer → Bool
is_new l = elim (lookup last_branch_commit l.metadata.annotations) [ none ↦ true | some _ ↦ false ]

unfoldable pub is_there_a_new_layer : List TerraformLayer → Bool
is_there_a_new_layer layers = any is_new layers

-- `BranchState{Name: branch}`
abbrev pub untracked : String → BranchState
untracked name = record { name = name; latest_rev = ""; last_sync_date = ""; last_sync_status = "" }

-- The first loop of `mergeBranchesWithBranchState`.
unfoldable pub add_found : List String → List BranchState → List BranchState
add_found [] states = states
add_found (branch ∷ found) states = elim (get_branch_state branch states) [
  | some _ ↦ add_found found states
  | none ↦ add_found found (states ++ untracked branch ∷ [])
]

unfoldable pub merge_branches_with_branch_state : List String → List BranchState → List BranchState
unfolding add_found
merge_branches_with_branch_state found states =
    filter (λ b. contains found b.name) (add_found found states)

-- `updateBranchState`: the first entry of that name.
unfoldable pub update_branch_state :
    String → String → String → String → List BranchState → List BranchState
update_branch_state date branch rev status [] = []
update_branch_state date branch rev status (b ∷ states) =
    let rest = update_branch_state date branch rev status states in
    if b.name == branch
    then record b { last_sync_date = date; latest_rev = rev; last_sync_status = status } ∷ states
    else b ∷ rest
