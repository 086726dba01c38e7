-- ===== src/Repository/Merged.antt =====
-- What the merge of found branches with the tracked ones has for each name.
use burrito.Base.{
  String, ◌≡◌, refl, Option, none, some, List, [], ◌∷◌, ◌++◌, arith, ◌==◌, eq_iff, if◌then◌else◌,
  filter, contains,
}
use burrito.Api.{BranchState, get_branch_state}
use burrito.Repository.Branches.{
  untracked, add_found, merge_branches_with_branch_state, update_branch_state,
}

-- The entry of a name: as it was, or a new one.
abbrev pub known_or_new : String → Option BranchState → Option BranchState
known_or_new name (some b) = some b
known_or_new name none = some (untracked name)

get_branch_state-append :
    (name : String) (states : List BranchState) (b : BranchState)
    → get_branch_state name (states ++ b ∷ []) ≡ elim (get_branch_state name states) [
      | some a ↦ some a
      | none ↦ if b.name == name then some b else none
    ]
unfolding get_branch_state
get_branch_state-append name [] b = refl
get_branch_state-append name (a ∷ states) b = ground (arith, get_branch_state-append name states b)

get_branch_state-filter :
    (name : String) (found : List String) (states : List BranchState)
    → get_branch_state name (filter (λ b. contains found b.name) states)
      ≡ (if contains found name then get_branch_state name states else none)
unfolding get_branch_state
get_branch_state-filter name found [] = ground arith
get_branch_state-filter name found (b ∷ states) =
    ground (arith, get_branch_state-filter name found states, eq_iff b.name name)

get_branch_state-add_found :
    (name : String) (found : List String) (states : List BranchState)
    → get_branch_state name (add_found found states) ≡ (
        if contains found name
        then known_or_new name (get_branch_state name states)
        else get_branch_state name states)
unfolding add_found
get_branch_state-add_found name [] states = refl
get_branch_state-add_found name (branch ∷ found) states = ground (
  arith,
  get_branch_state-add_found name found states,
  get_branch_state-add_found name found (states ++ untracked branch ∷ []),
  get_branch_state-append name states (untracked branch),
  eq_iff name branch,
  eq_iff branch name,
)

-- After the merge there is an entry for exactly the branches that were found: the one that was
-- tracked for it, or else a new one with no sync.
pub get_branch_state-merge :
    (name : String) (found : List String) (states : List BranchState)
    → get_branch_state name (merge_branches_with_branch_state found states)
      ≡ (if contains found name then known_or_new name (get_branch_state name states) else none)
unfolding merge_branches_with_branch_state
get_branch_state-merge name found states = ground (
  arith,
  get_branch_state-filter name found (add_found found states),
  get_branch_state-add_found name found states,
)

-- An update of a branch changes the first entry of that name and no entry of another.
pub get_branch_state-update :
    (name date branch rev status : String) (states : List BranchState)
    → get_branch_state name (update_branch_state date branch rev status states)
      ≡ elim (get_branch_state name states) [
        | none ↦ none
        | some b ↦
            if name == branch
            then some
                (record b { last_sync_date = date; latest_rev = rev; last_sync_status = status })
            else some b
      ]
unfolding get_branch_state update_branch_state
get_branch_state-update name date branch rev status [] = refl
get_branch_state-update name date branch rev status (b ∷ states) = ground (
  arith,
  get_branch_state-update name date branch rev status states,
  eq_iff b.name branch,
  eq_iff b.name name,
  eq_iff name branch,
)
