-- ===== src/Datastore/Attempts.antt =====
-- The latest attempt of a run.
use burrito.Base.{
  ℕ, ◌^◌, ◌<◌, ◌≤◌, String, ◌≡◌, refl, subst, inl, inr, List, [], ◌∷◌, map, All, last, contains,
  leb, arith, none, some, true, Bool-cases, Option-cases, eq_refl,
}
use burrito.Base.Int.{pos, pos_part, neg_part, ◌-ℤ◌, wrap64, leb_ℤ}
use burrito.Base.Effect.{ok}
use burrito.Base.Text.{atoi}
use burrito.Datastore.{Backend, run_key}
use burrito.Datastore.Storage.{
  compare_attempts, insert_attempt, sort_attempts, attempt_of, get_attempts, get_latest_attempt,
}

-- The number an attempt is sorted by, where it is not negative.
abbrev pub number : String → ℕ
number a = pos_part (atoi a)

abbrev pub IsNumbered : String → Type 0
IsNumbered a = neg_part (atoi a) ≡ 0

number_bound : (a : String) → number a < 2 ^ 63
unfolding atoi
number_bound String.[] = omega arith
number_bound (String.◌∷◌ c s) = ground arith

compare_lem :
    (a b : String)
    → IsNumbered a
    → IsNumbered b
    → leb_ℤ (pos 0) (compare_attempts a b) ≡ leb (number b) (number a)
unfolding compare_attempts wrap64 ◌-ℤ◌
compare_lem a b ha hb = ground (arith, ha, hb, number_bound a, number_bound b)

module _ {κ} (P : String → Type κ) where
  insert_attempt-All :
      (a : String) (xs : List String) → P a → All P xs → All P (insert_attempt a xs)
  unfolding insert_attempt
  insert_attempt-All a [] h hs = (h, tt)
  insert_attempt-All a (b ∷ xs) h (hb, hs) =
      elim (Bool-cases (leb_ℤ (pos 0) (compare_attempts a b))) [
        | inl e ↦ rw e (hb, insert_attempt-All a xs h hs)
        | inr e ↦ rw e (h, (hb, hs))
      ]

  All-insert_attempt :
      (a : String) (xs : List String) → All P (insert_attempt a xs) → P a × All P xs
  unfolding insert_attempt
  All-insert_attempt a [] (h, hs) = (h, tt)
  All-insert_attempt a (b ∷ xs) hs = elim (Bool-cases (leb_ℤ (pos 0) (compare_attempts a b))) [
    | inl e ↦
        let (hb, rest) = rw e at hs in
        let (ha, hxs) = All-insert_attempt a xs rest in (ha, (hb, hxs))
    | inr e ↦ let (ha, rest) = rw e at hs in (ha, rest)
  ]

  sort_attempts-All :
      (xs sorted : List String) → All P xs → All P sorted → All P (sort_attempts xs sorted)
  unfolding sort_attempts
  sort_attempts-All [] sorted h hs = hs
  sort_attempts-All (x ∷ xs) sorted (h, hs) k =
      sort_attempts-All xs (insert_attempt x sorted) hs (insert_attempt-All x sorted h k)

  All-sort_attempts :
      (xs sorted : List String) → All P (sort_attempts xs sorted) → All P xs × All P sorted
  unfolding sort_attempts
  All-sort_attempts [] sorted h = (tt, h)
  All-sort_attempts (x ∷ xs) sorted h =
      let (hs, k) = All-sort_attempts xs (insert_attempt x sorted) h in
      let (hx, hsorted) = All-insert_attempt x sorted k in ((hx, hs), hsorted)

  last-All : (xs : List String) (a : String) → last xs ≡ some a → All P xs → P a
  last-All [] a e h = cc
  last-All (x ∷ []) a e (h, _) = let same : x ≡ a = cc in subst P same h
  last-All (x ∷ y ∷ xs) a e (h, hs) = last-All (y ∷ xs) a e hs

All-imp {κ μ} :
    {P : String → Type κ} {Q : String → Type μ}
    → ((a : String) → P a → Q a)
    → (xs : List String) → All P xs
    → All Q xs
All-imp f [] h = tt
All-imp f (x ∷ xs) (h, hs) = (f x h, All-imp f xs hs)

abbrev IsSorted : List String → Type 0
IsSorted [] = Unit
IsSorted (x ∷ xs) = All (λ y. number x ≤ number y) xs × IsSorted xs

insert_attempt-IsSorted :
    (a : String) (xs : List String)
    → IsNumbered a
    → All IsNumbered xs
    → IsSorted xs
    → IsSorted (insert_attempt a xs)
unfolding insert_attempt
insert_attempt-IsSorted a [] h hs k = (tt, tt)
insert_attempt-IsSorted a (b ∷ xs) h (hb, hs) (below, k) =
    let order = compare_lem a b h hb in
    elim (Bool-cases (leb_ℤ (pos 0) (compare_attempts a b))) [
      | inl e ↦ rw e (
        insert_attempt-All (λ y. number b ≤ number y) a xs (ground (arith, order, e)) below,
        insert_attempt-IsSorted a xs h hs k,
      )
      | inr e ↦
          let less : number a ≤ number b = ground (arith, order, e) in
          rw e ((less, All-imp (λ y le. omega (arith, less, le)) xs below), (below, k))
    ]

sort_attempts-IsSorted :
    (xs sorted : List String)
    → All IsNumbered xs
    → All IsNumbered sorted
    → IsSorted sorted
    → IsSorted (sort_attempts xs sorted)
unfolding sort_attempts
sort_attempts-IsSorted [] sorted h hs k = k
sort_attempts-IsSorted (x ∷ xs) sorted (h, hs) ks k =
    sort_attempts-IsSorted xs (insert_attempt x sorted) hs
      (insert_attempt-All IsNumbered x sorted h ks) (insert_attempt-IsSorted x sorted h ks k)

last_highest :
    (xs : List String) (a : String)
    → IsSorted xs
    → last xs ≡ some a
    → All (λ y. number y ≤ number a) xs
last_highest [] a k e = tt
last_highest (x ∷ []) a k e = let same : x ≡ a = cc in (ground (arith, same), tt)
last_highest (x ∷ y ∷ xs) a (below, k) e =
    (last-All (λ z. number x ≤ number z) (y ∷ xs) a e below, last_highest (y ∷ xs) a k e)

contains_weaken :
    (x : String) (xs ys : List String)
    → All (λ y. contains xs y ≡ true) ys
    → All (λ y. contains (x ∷ xs) y ≡ true) ys
contains_weaken x xs ys = All-imp (λ y h. ground (arith, h)) ys

contains_self : (xs : List String) → All (λ y. contains xs y ≡ true) xs
contains_self [] = tt
contains_self (x ∷ xs) = (ground (arith, eq_refl x), contains_weaken x xs xs (contains_self xs))

last-cons : (x : String) (xs : List String) → (a : String) × (last (x ∷ xs) ≡ some a)
last-cons x [] = (x, refl)
last-cons x (y ∷ xs) = last-cons y xs

last-none : (xs : List String) → last xs ≡ none → All (λ y. ⊥) xs
last-none [] e = tt
last-none (x ∷ xs) e = let (a, found) = last-cons x xs in cc

-- Sorting gives a last item, which is one of the sorted ones.
sort_last :
    (x : String) (xs : List String) → (a : String) × (last (sort_attempts (x ∷ xs) []) ≡ some a)
sort_last x xs = elim (Option-cases (last (sort_attempts (x ∷ xs) []))) [
  | inr found ↦ found
  | inl empty ↦
      absurd
        (All-sort_attempts (λ y. ⊥) (x ∷ xs) [] (last-none (sort_attempts (x ∷ xs) []) empty)).0.0
]

-- When the backend lists paths under a run and no attempt among them has a negative number, the
-- latest attempt is that of one of the paths, and none of them has a higher number.
pub get_latest_attempt_highest :
    (b : Backend) (n l r : String) (s : b.State) (path : String) (paths : List String)
    → (b.list (run_key n l r) s).0 ≡ ok (path ∷ paths)
    → All IsNumbered (map (attempt_of (run_key n l r)) (path ∷ paths))
    → (a : String) × (((get_latest_attempt b n l r s).0 ≡ ok a)
        × ((contains (map (attempt_of (run_key n l r)) (path ∷ paths)) a ≡ true)
            × All (λ c. number c ≤ number a) (map (attempt_of (run_key n l r)) (path ∷ paths))))
unfolding get_latest_attempt get_attempts
get_latest_attempt_highest b n l r s path paths listed h =
    let attempts = map (attempt_of (run_key n l r)) (path ∷ paths) in
    let (a, e) =
      sort_last (attempt_of (run_key n l r) path) (map (attempt_of (run_key n l r)) paths) in
    let sorted = sort_attempts-IsSorted attempts [] h tt tt in
    let known =
      sort_attempts-All (λ y. contains attempts y ≡ true) attempts [] (contains_self attempts) tt in
    (
      a,
      (
        rw (listed, e) refl,
        (
          last-All (λ y. contains attempts y ≡ true) (sort_attempts attempts []) a e known,
          (All-sort_attempts (λ c. number c ≤ number a) attempts []
              (last_highest (sort_attempts attempts []) a sorted e)).0,
        ),
      ),
    )
