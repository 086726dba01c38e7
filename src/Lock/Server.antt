-- ===== src/Lock/Server.antt =====
-- What the lock relies on the API server for. `lease_key` and the lease of `getLeaseLock` agree.
use burrito.Base.{◌≡◌, refl}
use burrito.Base.Effect.{ok, err, not_found, already_exists}
use burrito.Api.{NamespacedName, TerraformLayer, TerraformRun}
use burrito.Lock.{lease_key, get_lease_lock}
use burrito.World.{World, Lease, Pod, Secret}

abbrev pub key_of : Lease → NamespacedName
key_of lease = record { namespace = lease.namespace; name = lease.name }

-- A name is taken once: a create of a taken name is refused and changes nothing. What is created is
-- there, what is deleted is gone, and writes to pods and secrets leave leases alone.
pub record KeepsLeases (w : World) : Type 0 where
  pub taken :
      (s : w.State) (l held : Lease)
      → w.get_lease s (key_of l) ≡ ok held
      → w.create_lease l s ≡ (err already_exists, s)
  pub created :
      (s : w.State) (l : Lease)
      → (w.create_lease l s).0 ≡ ok tt
      → w.get_lease (w.create_lease l s).1 (key_of l) ≡ ok l
  pub deleted :
      (s : w.State) (l : Lease)
      → (w.delete_lease l s).0 ≡ ok tt
      → w.get_lease (w.delete_lease l s).1 (key_of l) ≡ err not_found
  pub create_pod_frame :
      (s : w.State) (p : Pod) (k : NamespacedName)
      → w.get_lease (w.create_pod p s).1 k ≡ w.get_lease s k
  pub create_secret_frame :
      (s : w.State) (x : Secret) (k : NamespacedName)
      → w.get_lease (w.create_secret x s).1 k ≡ w.get_lease s k
  pub update_secret_frame :
      (s : w.State) (x : Secret) (k : NamespacedName)
      → w.get_lease (w.update_secret x s).1 k ≡ w.get_lease s k

pub key-lease_lock :
    (layer : TerraformLayer) (run : TerraformRun)
    → key_of (get_lease_lock layer run) ≡ lease_key layer
unfolding get_lease_lock
key-lease_lock layer run = refl
