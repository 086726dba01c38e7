-- ===== src/Runner/Sums.antt =====
-- The sums by which the layer controller compares a plan with what was applied.
use burrito.Base.{String, ◌≡◌, sym, ◌∙◌, inl, inr, arith, Option-cases}
use burrito.Base.Effect.{ok, Result-cases}
use burrito.Base.Text.{itoa}
use burrito.Api.{NamespacedName, TerraformLayer, TerraformRepository, TerraformRun}
use burrito.World.{World}
use burrito.Runner.{
  Machine, plan_artifact, upload, store_binary, store_renderings, exec_plan, apply_plan, exec_apply,
}

-- What is documented of the datastore: a plan that is put is what is got.
abbrev pub KeepsPlans : (w : World) → Machine w → Type 0
KeepsPlans w m =
    (s : w.State) (key : NamespacedName) (run attempt format bytes : String)
    → (m.put_plan key run attempt format bytes s).0 ≡ ok tt
    → w.get_plan (m.put_plan key run attempt format bytes s).1 key run attempt format ≡ ok bytes

abbrev pub key_of_layer : TerraformLayer → NamespacedName
key_of_layer layer = record { namespace = layer.metadata.namespace; name = layer.metadata.name }

ok_injective : {A : Type 0} {a b : A} → ok a ≡ ok b → a ≡ b
ok_injective e = cc

module _ (w : World) (m : Machine w) (layer : TerraformLayer)
    (repository : TerraformRepository) where
  -- The plan binary with that sum is stored for the attempt of the run.
  abbrev pub IsKept : (run : TerraformRun) (sum : String) → w.State → Type 0
  IsKept run sum s =
      (binary : String) × (w.get_plan s (key_of_layer layer) run.metadata.name
          (itoa run.status.retries) "bin"
        ≡ ok binary)
      × (sum ≡ m.digest binary)

  store_binary-IsKept :
      (laws : KeepsPlans w m) (run : TerraformRun) (s : w.State) (sum : String)
      → (store_binary w m layer repository run s).0 ≡ ok sum
      → IsKept run sum (store_binary w m layer repository run s).1
  unfolding store_binary upload
  store_binary-IsKept laws run s sum h = elim (Result-cases (m.read_file plan_artifact s)) [
    | inr (e, failed) ↦ cc (rw (store_binary, failed) at h)
    | inl (binary, read) ↦
        let key = key_of_layer layer in
        let attempt = itoa run.status.retries in
        elim (Result-cases (m.put_plan key run.metadata.name attempt "bin" binary s).0) [
          | inr (e, failed) ↦ cc (rw (store_binary, read, upload, failed) at h)
          | inl (u, stored) ↦
              let sums : m.digest binary ≡ sum =
                ok_injective (rw (store_binary, read, upload, stored) at h) in
              rw (store_binary, read, upload)
                (binary, laws s key run.metadata.name attempt "bin" binary stored, sym sums)
        ]
  ]

  store_renderings-IsKept :
      (laws : KeepsPlans w m) (run : TerraformRun) (json pretty : String) (s : w.State)
      (sum : String)
      → (store_renderings w m layer repository run json pretty s).0 ≡ ok sum
      → IsKept run sum (store_renderings w m layer repository run json pretty s).1
  unfolding store_renderings
  store_renderings-IsKept laws run json pretty s sum h =
      elim (Option-cases (m.resource_changes json)) [
        | inl broken ↦ cc (rw (store_renderings, broken) at h)
        | inr (changes, parsed) ↦
            rw (store_renderings, parsed)
              (store_binary-IsKept laws run _ sum (rw (store_renderings, parsed) at h))
      ]

  -- A plan that ends well has its binary stored for the attempt, and returns the sum of that binary.
  exec_plan-IsKept :
      (laws : KeepsPlans w m) (run : TerraformRun) (s : w.State) (sum : String)
      → (exec_plan w m layer repository run s).0 ≡ ok sum
      → IsKept run sum (exec_plan w m layer repository run s).1
  unfolding exec_plan
  exec_plan-IsKept laws run s sum h = elim (Result-cases (m.plan plan_artifact s).0) [
    | inr (e, failed) ↦ cc (rw (exec_plan, failed) at h)
    | inl (u, planned) ↦
        let s1 = (m.plan plan_artifact s).1 in
        elim (Result-cases (m.show plan_artifact "json" s1).0) [
          | inr (e, failed) ↦ cc (rw (exec_plan, planned, failed) at h)
          | inl (json, shown) ↦
              let s2 = (m.show plan_artifact "json" s1).1 in
              elim (Result-cases (m.show plan_artifact "pretty" s2).0) [
                | inr (e, failed) ↦ cc (rw (exec_plan, planned, shown, failed) at h)
                | inl (pretty, printed) ↦
                    rw (exec_plan, planned, shown, printed)
                      (store_renderings-IsKept laws run json pretty _ sum
                        (rw (exec_plan, planned, shown, printed) at h))
              ]
        ]
  ]

  exec_apply-sum :
      (run : TerraformRun) (s : w.State) (plan sum : String)
      → w.get_plan s (key_of_layer layer) run.spec.artifact.run run.spec.artifact.attempt "bin"
        ≡ ok plan
      → (exec_apply w m layer repository run s).0 ≡ ok sum
      → sum ≡ m.digest plan
  unfolding exec_apply apply_plan
  exec_apply-sum run s plan sum found h =
      elim (Result-cases (m.write_file plan_artifact plan s).0) [
        | inr (e, failed) ↦ cc (rw (exec_apply, found, failed) at h)
        | inl (u, written) ↦ ground (arith, rw (exec_apply, apply_plan, found, written) at h)
      ]

  -- An apply that ends well returns the sum that the plan run of its artifact returned, as long as the
  -- datastore then gives for that artifact what it gave when the plan ended.
  pub applied_sum-planned_sum :
      (laws : KeepsPlans w m) (planning applying : TerraformRun) (s t : w.State)
      (planned applied : String)
      → (exec_plan w m layer repository planning s).0 ≡ ok planned
      → applying.spec.artifact.run ≡ planning.metadata.name
      → applying.spec.artifact.attempt ≡ itoa planning.status.retries
      → w.get_plan t
          (key_of_layer layer)
          planning.metadata.name
          (itoa planning.status.retries)
          "bin"
        ≡ w.get_plan
            (exec_plan w m layer repository planning s).1
            (key_of_layer layer)
            planning.metadata.name
            (itoa planning.status.retries)
            "bin"
      → (exec_apply w m layer repository applying t).0 ≡ ok applied
      → applied ≡ planned
  applied_sum-planned_sum laws planning applying s t planned applied plan_ok run attempt kept
        apply_ok =
      let (binary, stored, sum) = exec_plan-IsKept laws planning s planned plan_ok in
      let found : w.get_plan t (key_of_layer layer) applying.spec.artifact.run
            applying.spec.artifact.attempt "bin"
          ≡ ok binary =
        rw (run, attempt) (kept ∙ stored) in
      exec_apply-sum applying t binary applied found apply_ok ∙ sym sum
