-- ===== src/Repository/Bundles.antt =====
-- A branch that is recorded as synced has its bundle in the datastore.
use burrito.Base.{
  String, ◌≡◌, subst, sym, Bool, true, List, [], ◌∷◌, ◌++◌, ◌==◌, All, filter, eq_iff, Bool-cases,
  Option-cases, inl, inr, All-append,
}
use burrito.Base.Effect.{ok}
use burrito.Api.{NamespacedName, BranchState, get_branch_state, TerraformLayer}
use burrito.World.{World}
use burrito.Repository.Branches.{untracked, add_found, update_branch_state}

module _ (w : World) where
  abbrev pub IsStored : w.State → NamespacedName → (branch revision : String) → Type 0
  IsStored s key branch revision = w.check_git_bundle s key branch revision ≡ ok true

  -- What is documented of the datastore: a bundle that is put is there, and the bundles that are
  -- there stay, whatever else is put and whichever layers are patched.
  pub record KeepsBundles : Type 0 where
    pub put :
        (s : w.State) (key : NamespacedName) (branch revision bytes : String)
        → (w.put_git_bundle key branch revision bytes s).0 ≡ ok tt
        → IsStored (w.put_git_bundle key branch revision bytes s).1 key branch revision
    pub put_keeps :
        (s : w.State) (key at : NamespacedName) (branch revision bytes b r : String)
        → IsStored s at b r
        → IsStored (w.put_git_bundle key branch revision bytes s).1 at b r
    pub patch_keeps :
        (s : w.State) (layer : TerraformLayer) (at : NamespacedName) (b r : String)
        → IsStored s at b r
        → IsStored (w.patch_layer layer s).1 at b r

  -- The branch is recorded as synced only if the bundle of its revision is stored.
  abbrev pub IsBacked : w.State → NamespacedName → BranchState → Type 0
  IsBacked s key b = b.last_sync_status ≡ "success" → IsStored s key b.name b.latest_rev

  abbrev pub AllBacked : w.State → NamespacedName → List BranchState → Type 0
  AllBacked s key states = All (IsBacked s key) states

  -- The bundles of the first state are in the second.
  abbrev pub Keeps : w.State → w.State → Type 0
  Keeps s s' = (at : NamespacedName) (b r : String) → IsStored s at b r → IsStored s' at b r

  pub AllBacked-Keeps :
      (s s' : w.State) (key : NamespacedName) (states : List BranchState)
      → Keeps s s'
      → AllBacked s key states
      → AllBacked s' key states
  AllBacked-Keeps s s' key [] k h = tt
  AllBacked-Keeps s s' key (b ∷ states) k (h, hs) =
      ((λ e. k key b.name b.latest_rev (h e)), AllBacked-Keeps s s' key states k hs)

  pub AllBacked-update_failed :
      (s : w.State) (key : NamespacedName) (date branch rev : String) (states : List BranchState)
      → AllBacked s key states
      → AllBacked s key (update_branch_state date branch rev "failed" states)
  unfolding update_branch_state
  AllBacked-update_failed s key date branch rev [] h = tt
  AllBacked-update_failed s key date branch rev (b ∷ states) (h, hs) =
      elim (Bool-cases (b.name == branch)) [
        | inl same ↦ rw (update_branch_state, same) ((λ e. cc), hs)
        | inr other ↦
            rw (update_branch_state, other)
              (h, AllBacked-update_failed s key date branch rev states hs)
      ]

  pub AllBacked-update_success :
      (s : w.State) (key : NamespacedName) (date branch rev : String) (states : List BranchState)
      → IsStored s key branch rev
      → AllBacked s key states
      → AllBacked s key (update_branch_state date branch rev "success" states)
  unfolding update_branch_state
  AllBacked-update_success s key date branch rev [] stored h = tt
  AllBacked-update_success s key date branch rev (b ∷ states) stored (h, hs) =
      elim (Bool-cases (b.name == branch)) [
        | inl same ↦
            let names : branch ≡ b.name = sym ((eq_iff b.name branch).0 same) in
            rw (update_branch_state, same)
              ((λ e. subst (λ n. IsStored s key n rev) names stored), hs)
        | inr other ↦
            rw (update_branch_state, other)
              (h, AllBacked-update_success s key date branch rev states stored hs)
      ]

  pub AllBacked-add_found :
      (s : w.State) (key : NamespacedName) (found : List String) (states : List BranchState)
      → AllBacked s key states
      → AllBacked s key (add_found found states)
  unfolding add_found
  AllBacked-add_found s key [] states h = h
  AllBacked-add_found s key (branch ∷ found) states h =
      elim (Option-cases (get_branch_state branch states)) [
        | inl new ↦
            rw (add_found, new)
              (AllBacked-add_found s key found (states ++ (untracked branch ∷ []))
                (All-append (IsBacked s key) states (untracked branch ∷ []) h ((λ e. cc), tt)))
        | inr (b, known) ↦ rw (add_found, known) (AllBacked-add_found s key found states h)
      ]

  pub AllBacked-filter :
      (s : w.State) (key : NamespacedName) (p : BranchState → Bool) (states : List BranchState)
      → AllBacked s key states
      → AllBacked s key (filter p states)
  AllBacked-filter s key p [] h = tt
  AllBacked-filter s key p (b ∷ states) (h, hs) = elim (Bool-cases (p b)) [
    | inl kept ↦ rw kept (h, AllBacked-filter s key p states hs)
    | inr dropped ↦ rw dropped (AllBacked-filter s key p states hs)
  ]
