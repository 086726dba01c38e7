-- ===== src/Lock.antt =====
-- internal/lock/lock.go: one lease per layer, held while a run of the layer is active.
pub mod Server
pub mod Tests
use Prim.Native.Nat.{bit_xor}
use burrito.Base.{ℕ, ◌*◌, ◌%◌, ◌^◌, String, ◌<>◌, Bool, true, false, List, [], ◌∷◌}
use burrito.Base.Effect.{Result, ok, err, ApiError, not_found, already_exists, other, Effect}
use burrito.Base.Text.{bytes, itoa}
use burrito.Api.{
  TerraformLayer, TerraformRun, NamespacedName, OwnerReference, api_version_or_default, run_kind,
}
use burrito.World.{World, Lease}

-- `fnv.New32a`: the FNV-1a hash of 32 bits.
fnv_from : ℕ → List ℕ → ℕ
fnv_from h [] = h
fnv_from h (b ∷ bs) = fnv_from (bit_xor h b * 16777619 % 2 ^ 32) bs

unfoldable pub hash : String → ℕ
unfolding fnv_from bytes
hash s = fnv_from 2166136261 (bytes s)

unfoldable pub get_lease_name : TerraformLayer → String
unfolding hash itoa
get_lease_name layer =
    "burrito-layer-lock-"
    <> itoa
        (hash (layer.spec.repository.name <> layer.spec.repository.namespace <> layer.spec.path))

abbrev pub lease_key : TerraformLayer → NamespacedName
lease_key layer = record { namespace = layer.metadata.namespace; name = get_lease_name layer }

abbrev pub run_owner : TerraformRun → OwnerReference
run_owner run = record {
  api_version = api_version_or_default run.api_version;
  kind = run_kind run;
  name = run.metadata.name;
  uid = run.metadata.uid;
}

unfoldable pub get_lease_lock : TerraformLayer → TerraformRun → Lease
get_lease_lock layer run = record {
  name = get_lease_name layer;
  namespace = layer.metadata.namespace;
  holder_identity = "burrito-controller";
  owner_references = run_owner run ∷ [];
}

locked_of : {A : Type 0} → Result A → Result Bool
locked_of (ok lease) = ok true
locked_of (err not_found) = ok false
locked_of (err already_exists) = err already_exists
locked_of (err other) = err other

module _ (w : World) where
  open w use {State, get_lease, create_lease, delete_lease}

  unfoldable pub is_layer_locked : State → TerraformLayer → Result Bool
  unfolding locked_of
  is_layer_locked s layer = locked_of (get_lease s (lease_key layer))

  unfoldable pub create_lock : TerraformLayer → TerraformRun → Effect State (Result (Unit {0}))
  create_lock layer run = create_lease (get_lease_lock layer run)

  unfoldable pub delete_lock : TerraformLayer → TerraformRun → Effect State (Result (Unit {0}))
  delete_lock layer run = delete_lease (get_lease_lock layer run)
