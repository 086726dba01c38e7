-- ===== src/Base/Dict.antt =====
-- Go's `map[string]V` as an association list. A nil map reads like an empty one.
use burrito.Base.Tests.{if◌then◌else◌}
use Prim.Native.String.{String}
use mathlib.Core.Path.{◌≡◌, refl}
use mathlib.Core.Option.{Option, none, some}
use mathlib.Core.List.{List, [], ◌∷◌}
use native.Mathlib.Omega.{arith}
use text.Mathlib.Text.{◌==◌}
use mathlib.Core.Logic.{◌≢◌}
use text.Mathlib.TextEquality.{eq_iff}
use text.Mathlib.TextPositions.{eq_refl}

abbrev pub Dict {ℓ} : Type ℓ → Type ℓ
Dict V = List (String × V)

module _ {ℓ} {V : Type ℓ} where
  -- `v, ok := m[key]`
  unfoldable pub lookup : (key : String) (entries : Dict V) → Option V
  lookup key [] = none
  lookup key (entry ∷ entries) = if entry.0 == key then some entry.1 else lookup key entries

  -- `m[key] = value`
  unfoldable pub insert : (key : String) (value : V) (entries : Dict V) → Dict V
  insert key value [] = (key, value) ∷ []
  insert key value (entry ∷ entries) =
      let others = insert key value entries in
      if entry.0 == key then (key, value) ∷ entries else entry ∷ others

  -- `delete(m, key)`
  unfoldable pub remove : (key : String) (entries : Dict V) → Dict V
  remove key [] = []
  remove key (entry ∷ entries) =
      let others = remove key entries in if entry.0 == key then others else entry ∷ others

  -- `for k, v := range changes { m[k] = v }`
  unfoldable pub insert_all : (changes entries : Dict V) → Dict V
  insert_all [] entries = entries
  insert_all (change ∷ changes) entries = insert_all changes (insert change.0 change.1 entries)

  pub lookup-insert :
      (at key : String) (value : V) (entries : Dict V)
      → lookup key (insert at value entries)
        ≡ (if at == key then some value else lookup key entries)
  unfolding insert lookup
  lookup-insert at key value [] = refl
  lookup-insert at key value (entry ∷ entries) =
      let ih = lookup-insert at key value entries in
      ground (ih, arith, eq_iff entry.0 key, eq_iff entry.0 at, eq_iff at key)

  pub lookup-insert_same :
      (key : String) (value : V) (entries : Dict V)
      → lookup key (insert key value entries) ≡ some value
  lookup-insert_same key value entries =
      ground (arith, lookup-insert key key value entries, eq_refl key)

  pub lookup-insert_other :
      (at key : String) (value : V) (entries : Dict V)
      → at ≢ key
      → lookup key (insert at value entries) ≡ lookup key entries
  lookup-insert_other at key value entries other =
      ground (arith, lookup-insert at key value entries, eq_iff at key, other)

  pub lookup-remove :
      (at key : String) (entries : Dict V)
      → lookup key (remove at entries) ≡ (if at == key then none else lookup key entries)
  unfolding remove lookup
  lookup-remove at key [] = ground arith
  lookup-remove at key (entry ∷ entries) =
      let ih = lookup-remove at key entries in
      ground (ih, arith, eq_iff entry.0 key, eq_iff entry.0 at, eq_iff at key)

-- `m[k]` on a `map[string]string`: the empty string for a missing key.
unfoldable pub lookup_or_empty : String → Dict String → String
lookup_or_empty k m = elim (lookup k m) [ none ↦ "" | some v ↦ v ]

pub ruleset dict_laws = (lookup-insert, lookup-remove)
