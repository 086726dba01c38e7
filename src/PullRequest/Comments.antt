-- ===== src/PullRequest/Comments.antt =====
-- When the controller comments a pull request, and that it does so once.
use burrito.Base.{
  String, ◌≡◌, refl, sym, subst, Bool, true, false, some, List, [], ◌∷◌, ◌==◌, All, eq_iff, eq_refl,
  Bool-cases, Option-cases, inl, inr,
}
use burrito.Base.Dict.{lookup, lookup_or_empty}
use burrito.Base.Effect.{ok}
use burrito.Api.{
  TerraformLayer, TerraformRepository, TerraformPullRequest, TerraformPullRequestStatus,
}
use burrito.Annotations.{last_relevant_commit, last_plan_commit}
use burrito.World.{World, Runtime, Config}
use burrito.PullRequest.Conditions.{
  get_linked_layers, branch_commit, is_last_commit_discovered, first_planning, planning_among,
  are_layers_still_planning, is_comment_up_to_date,
}
use burrito.PullRequest.Layers.{commit_of}
use burrito.PullRequest.States.{
  comment_needed, idle, choose_state, get_state, comment_needed_handler,
}

-- The layer was planned at its last relevant commit.
abbrev pub IsPlanned : TerraformLayer → Type 0
IsPlanned layer =
    (c : String) × (lookup last_plan_commit layer.metadata.annotations ≡ some c)
    × (lookup last_relevant_commit layer.metadata.annotations ≡ some c)

-- The last commit of the pull request's branch is the one whose layers were discovered.
abbrev pub IsDiscovered : TerraformPullRequest → Type 0
IsDiscovered pr = branch_commit pr ≡ some pr.status.last_discovered_commit

first_planning-IsPlanned :
    (pr : TerraformPullRequest) (layers : List TerraformLayer)
    → (first_planning pr layers).1 ≡ false
    → All IsPlanned layers
unfolding first_planning
first_planning-IsPlanned pr [] h = tt
first_planning-IsPlanned pr (layer ∷ layers) h =
    elim (Option-cases (lookup last_plan_commit layer.metadata.annotations)) [
      | inl unplanned ↦ cc (rw (first_planning, unplanned) at h)
      | inr (plan, planned) ↦
          elim (Option-cases (lookup last_relevant_commit layer.metadata.annotations)) [
            | inl missing ↦ cc (rw (first_planning, planned, missing) at h)
            | inr (relevant, found) ↦ elim (Bool-cases (plan == relevant)) [
              | inr behind ↦ cc (rw (first_planning, planned, found, behind) at h)
              | inl same ↦
                  let commits : plan ≡ relevant = (eq_iff plan relevant).0 same in
                  (
                    (plan, planned, rw (sym commits) at found),
                    first_planning-IsPlanned pr layers
                        (rw (first_planning, planned, found, same) at h),
                  )
            ]
          ]
    ]

discovered_lem :
    (pr : TerraformPullRequest)
    → (is_last_commit_discovered pr).1 ≡ true
    → IsDiscovered pr × ((pr.status.last_discovered_commit == "") ≡ false)
unfolding is_last_commit_discovered
discovered_lem pr h = elim (Bool-cases (pr.status.last_discovered_commit == "")) [
  | inl nothing ↦ cc (rw (is_last_commit_discovered, nothing) at h)
  | inr some_commit ↦ elim (Option-cases (branch_commit pr)) [
    | inl unknown ↦ cc (rw (is_last_commit_discovered, some_commit, unknown) at h)
    | inr (commit, found) ↦ elim (Bool-cases (pr.status.last_discovered_commit == commit)) [
      | inr other ↦ cc (rw (is_last_commit_discovered, some_commit, found, other) at h)
      | inl same ↦
          let commits : pr.status.last_discovered_commit ≡ commit =
            (eq_iff pr.status.last_discovered_commit commit).0 same in
          (rw (sym commits) at found, some_commit)
    ]
  ]
]

still_planning_lem :
    (w : World) (s : w.State) (pr : TerraformPullRequest) (layers : List TerraformLayer)
    → get_linked_layers w s pr ≡ ok layers
    → IsDiscovered pr
    → (pr.status.last_discovered_commit == "") ≡ false
    → (are_layers_still_planning w s pr).1 ≡ false
    → (first_planning pr layers).1 ≡ false
unfolding are_layers_still_planning planning_among
still_planning_lem w s pr layers linked found some_commit h =
    rw
      (
        are_layers_still_planning,
        planning_among,
        found,
        some_commit,
        eq_refl pr.status.last_discovered_commit,
        linked,
      )
      at h

choose_lem :
    (discovered still up : Bool)
    → choose_state discovered still up ≡ comment_needed
    → (discovered ≡ true) × ((still ≡ false) × (up ≡ false))
unfolding choose_state
choose_lem true true true h = cc
choose_lem true true false h = cc
choose_lem true false true h = cc
choose_lem true false false h = (refl, (refl, refl))
choose_lem false still up h = cc

up_to_date_lem :
    (pr : TerraformPullRequest) (status : TerraformPullRequestStatus)
    → (pr.status.last_discovered_commit == "") ≡ false
    → status.last_discovered_commit ≡ pr.status.last_discovered_commit
    → status.last_commented_commit ≡ pr.status.last_discovered_commit
    → (is_comment_up_to_date (record pr { status = status })).1 ≡ true
unfolding is_comment_up_to_date
up_to_date_lem pr status h discovered sent =
    rw (is_comment_up_to_date, discovered, sent, h, eq_refl pr.status.last_discovered_commit) refl

still_discovered :
    (pr : TerraformPullRequest) (status : TerraformPullRequestStatus)
    → status.last_discovered_commit ≡ pr.status.last_discovered_commit
    → IsDiscovered pr
    → (pr.status.last_discovered_commit == "") ≡ false
    → (is_last_commit_discovered (record pr { status = status })).1 ≡ true
unfolding is_last_commit_discovered
still_discovered pr status same found h =
    rw (is_last_commit_discovered, same, h, found, same, eq_refl pr.status.last_discovered_commit)
      refl

idle_lem :
    (w : World) (pr : TerraformPullRequest) (s : w.State)
    → (is_last_commit_discovered pr).1 ≡ true
    → (is_comment_up_to_date pr).1 ≡ true
    → (get_state w pr s).0 ≡ idle
unfolding get_state choose_state
idle_lem w pr s h k = rw (get_state, choose_state, h, k) refl

commit_lem :
    (pr : TerraformPullRequest) → IsDiscovered pr → commit_of pr ≡ pr.status.last_discovered_commit
unfolding lookup_or_empty
commit_lem pr h = rw (lookup_or_empty, h) refl

module _ (cfg : Config) (rt : Runtime) (w : World) (repo : TerraformRepository)
    (pr : TerraformPullRequest) (s : w.State) (layers : List TerraformLayer) where
  -- The status that the comment leaves.
  abbrev pub status_after : TerraformPullRequestStatus
  status_after = (comment_needed_handler w cfg rt repo pr (get_state w pr s).1 s).0.1

  status_lem :
      (status : TerraformPullRequestStatus)
      → get_linked_layers w s pr ≡ ok layers
      → w.get_api_provider s repo ≡ ok tt
      → (w.comment repo pr layers s).0 ≡ ok tt
      → (comment_needed_handler w cfg rt repo pr status s).0.1
        ≡ record status { last_commented_commit = commit_of pr }
  unfolding comment_needed_handler
  status_lem status linked provider sent = rw (comment_needed_handler, linked, provider, sent) refl

  -- A comment that is posted is about the last commit of the branch, whose layers were discovered, and
  -- every linked layer was then planned at its last relevant commit. With the status that is
  -- recorded the pull request is idle, so the comment is not posted again for this commit.
  pub posted_comment-IsPlanned :
      (get_state w pr s).0 ≡ comment_needed
      → get_linked_layers w s pr ≡ ok layers
      → w.get_api_provider s repo ≡ ok tt
      → (w.comment repo pr layers s).0 ≡ ok tt
      → IsDiscovered pr
        × (All IsPlanned layers
            × ((get_state w
                  (record pr { status = status_after })
                  (comment_needed_handler w cfg rt repo pr (get_state w pr s).1 s).1).0
                ≡ idle))
  unfolding get_state comment_needed_handler
  posted_comment-IsPlanned chosen linked provider sent =
      let (known, (still, up)) = choose_lem _ _ _ chosen in
      let (discovered, some_commit) = discovered_lem pr known in
      let after = record (get_state w pr s).1 { last_commented_commit = commit_of pr } in
      let s' = (comment_needed_handler w cfg rt repo pr (get_state w pr s).1 s).1 in
      (
        discovered,
        (
          first_planning-IsPlanned pr layers
              (still_planning_lem w s pr layers linked discovered some_commit still),
          subst (λ status. (get_state w (record pr { status = status }) s').0 ≡ idle)
              (sym (status_lem (get_state w pr s).1 linked provider sent))
              (idle_lem w (record pr { status = after }) s'
                (still_discovered pr after refl discovered some_commit)
                (up_to_date_lem pr after some_commit refl (commit_lem pr discovered))),
        ),
      )
