-- ===== src/Api/Merge.antt =====
-- The merges of runner settings in api/v1alpha1/common.go. A Go map is ranged over in no fixed
-- order; here it is ranged over in the order of its first insertions.
use burrito.Base.{
  String, Option, some, none, List, [], ◌∷◌, ◌++◌, map, ◌≡◌, refl, arith, ◌==◌, not, if◌then◌else◌,
  any, filter,
}
use burrito.Base.Dict.{Dict, lookup, insert, insert_all, lookup-insert}

unfoldable pub merge_maps {ℓ} : {V : Type ℓ} → Dict V → Dict V → Dict V
merge_maps a b = insert_all b (insert_all a [])

module _ {ℓ} {V : Type ℓ} (name : V → String) where
  -- `for _, elt := range a { tempMap[elt.Name] = elt }`
  unfoldable pub index : List V → Dict V → Dict V
  index [] m = m
  index (elt ∷ a) m = index a (insert (name elt) elt m)

  -- `mergeVolumes` and `MergeInitContainers`
  unfoldable pub merge_by_name : List V → List V → List V
  unfolding index
  merge_by_name a b = map (λ e. e.1) (index b (index a []))

  -- `mergeVolumeMounts`: a name may stand several times.
  unfoldable pub merge_volume_mounts : List V → List V → List V
  merge_volume_mounts a b = filter (λ elt. not (any (λ m. name m == name elt) b)) a ++ b

  -- The last item of a name, if there is one.
  unfoldable pub last_named : String → List V → Option V
  last_named k [] = none
  last_named k (elt ∷ a) = elim (last_named k a) [
    | some v ↦ some v
    | none ↦ if name elt == k then some elt else none
  ]

  lookup-index :
      (k : String) (a : List V) (m : Dict V)
      → lookup k (index a m) ≡ elim (last_named k a) [ some v ↦ some v | none ↦ lookup k m ]
  unfolding index last_named
  lookup-index k [] m = refl
  lookup-index k (elt ∷ a) m =
      ground (arith, lookup-index k a (insert (name elt) elt m), lookup-insert (name elt) k elt m)

  -- In the merged map the layer's last item of a name hides the repository's items of it, and the
  -- repository's last one is there where the layer has none.
  pub lookup-index-index :
      (k : String) (a b : List V)
      → lookup k (index b (index a []))
        ≡ elim (last_named k b) [ some v ↦ some v | none ↦ last_named k a ]
  unfolding lookup
  lookup-index-index k a b = ground (arith, lookup-index k b (index a []), lookup-index k a [])
