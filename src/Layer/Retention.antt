-- ===== src/Layer/Retention.antt =====
-- The history of a layer: how long it gets, what leaves it, and what is deleted with it.
use burrito.Base.{
  ℕ, ◌+◌, ◌≡◌, refl, ap, ap₂, ◌∙◌, ◌⊎◌, inl, inr, Bool, true, false, some, none, List, [], ◌∷◌,
  ◌++◌, arith, ◌==◌, eq_refl, Bool-cases, length, length-append, All, any, if◌then◌else◌,
}
use burrito.Base.Int.{ℤ, pos, ◌≤ℤ◌, ◌<ℤ◌, ltb_ℤ, ltb_ℤ→lt, ltb_ℤ→le}
use burrito.Api.{Time, TerraformLayerRun, TerraformRun}
use burrito.Layer.History.{get_layer_run, oldest_index, remove_at, update_latest_runs, is_kept}

abbrev NotOlder : Time → TerraformLayerRun → Type 0
NotOlder t r = t ≤ℤ r.date

All-weaken :
    (t u : Time) (runs : List TerraformLayerRun)
    → u ≤ℤ t
    → All (NotOlder t) runs
    → All (NotOlder u) runs
All-weaken t u [] h a = tt
All-weaken t u (r ∷ runs) h (p, a) = (omega (arith, h, p), All-weaken t u runs h a)

-- A run of the list with none older in it.
pub record Oldest (runs : List TerraformLayerRun) : Type 0 where
  pub before : List TerraformLayerRun
  pub run : TerraformLayerRun
  pub after : List TerraformLayerRun
  pub parts : runs ≡ before ++ (run ∷ after)
  pub least : All (λ r. run.date ≤ℤ r.date) runs

-- What the loop finds from `oldest` on: nothing older, or the oldest run at its place.
abbrev Found : Time → ℕ → ℕ → List TerraformLayerRun → ℕ → Type 0
Found oldest index i runs k =
    (All (NotOlder oldest) runs × (k ≡ index))
    ⊎ ((o : Oldest runs) × (k ≡ i + length o.before) × (o.run.date <ℤ oldest))

Found-cons_older :
    (oldest : Time) (index i : ℕ) (r : TerraformLayerRun) (runs : List TerraformLayerRun) (k : ℕ)
    → r.date <ℤ oldest
    → Found r.date i (i + 1) runs k
    → Found oldest index i (r ∷ runs) k
Found-cons_older oldest index i r runs k older (inl (a, e)) = inr (
  record { before = []; run = r; after = runs; parts = refl; least = (omega arith, a) },
  omega (arith, e),
  older,
)
Found-cons_older oldest index i r runs k older (inr (o, e, lt)) = inr (
  record {
    before = r ∷ o.before;
    run = o.run;
    after = o.after;
    parts = ap (λ rs. r ∷ rs) o.parts;
    least = (omega (arith, lt), o.least);
  },
  omega (arith, e),
  omega (arith, lt, older),
)

Found-cons :
    (oldest : Time) (index i : ℕ) (r : TerraformLayerRun) (runs : List TerraformLayerRun) (k : ℕ)
    → oldest ≤ℤ r.date
    → Found oldest index (i + 1) runs k
    → Found oldest index i (r ∷ runs) k
Found-cons oldest index i r runs k newer (inl (a, e)) = inl ((newer, a), e)
Found-cons oldest index i r runs k newer (inr (o, e, lt)) = inr (
  record {
    before = r ∷ o.before;
    run = o.run;
    after = o.after;
    parts = ap (λ rs. r ∷ rs) o.parts;
    least = (omega (arith, lt, newer), o.least);
  },
  omega (arith, e),
  lt,
)

oldest_index-Found :
    (oldest : Time) (index i : ℕ) (runs : List TerraformLayerRun)
    → Found oldest index i runs (oldest_index oldest index i runs)
unfolding oldest_index
oldest_index-Found oldest index i [] = inl (tt, refl)
oldest_index-Found oldest index i (r ∷ runs) = elim (Bool-cases (ltb_ℤ r.date oldest)) [
  | inl older ↦ rw older (
      Found-cons_older oldest index i r runs _ (ltb_ℤ→lt r.date oldest older)
        (oldest_index-Found r.date i (i + 1) runs))
  | inr newer ↦ rw newer (
      Found-cons oldest index i r runs _ (ltb_ℤ→le r.date oldest newer)
        (oldest_index-Found oldest index (i + 1) runs))
]

remove_at-length :
    (before : List TerraformLayerRun) (run : TerraformLayerRun) (after : List TerraformLayerRun)
    → remove_at (length before) (before ++ (run ∷ after)) ≡ some (before ++ after)
unfolding remove_at
remove_at-length [] run after = refl
remove_at-length (r ∷ before) run after = rw (remove_at-length before run after)

removed :
    {runs : List TerraformLayerRun} {k : ℕ} (o : Oldest runs)
    → k ≡ length o.before
    → remove_at k runs ≡ some (o.before ++ o.after)
removed {k = k} o e = ap₂ remove_at e o.parts ∙ remove_at-length o.before o.run o.after

no_room : (keep : ℤ) (n : ℕ) → keep ≤ℤ pos n → ltb_ℤ (pos n) keep ≡ false
no_room keep n h = ground arith

-- With no room left and a run older than now, the oldest run leaves and the new one comes last:
-- what remains is the history without that run, and none of the history is older than it.
pub update_latest_runs-Oldest :
    (now : Time) (r : TerraformLayerRun) (runs : List TerraformLayerRun) (run : TerraformRun)
    (keep : ℤ)
    → keep ≤ℤ pos (length (r ∷ runs))
    → r.date <ℤ now
    → (o : Oldest (r ∷ runs)) × (update_latest_runs now (r ∷ runs) run keep
        ≡ some ((o.before ++ o.after) ++ (get_layer_run run ∷ [])))
unfolding update_latest_runs
update_latest_runs-Oldest now r runs run keep full past =
    elim (oldest_index-Found now 0 0 (r ∷ runs)) [
      | inl (a, e) ↦ absurd (omega (arith, a.0, past))
      | inr (o, e, lt) ↦ (
        o,
        ground (
          arith,
          no_room keep (length (r ∷ runs)) full,
          removed {k = oldest_index now 0 0 (r ∷ runs)} o (omega (arith, e)),
        ),
      )
    ]

any_last :
    {A : Type 0} (p : A → Bool) (xs : List A) (x : A) → p x ≡ true → any p (xs ++ x ∷ []) ≡ true
any_last p [] x h = ground arith
any_last p (y ∷ xs) x h = ground (arith, any_last p xs x h)

remove_at-one :
    (before : List TerraformLayerRun) (run : TerraformLayerRun) (after : List TerraformLayerRun)
    → length (before ++ (run ∷ after)) ≡ length (before ++ after) + 1
remove_at-one before run after =
    omega (arith, length-append before (run ∷ after), length-append before after)

first_removed :
    (r : TerraformLayerRun) (runs : List TerraformLayerRun) → remove_at 0 (r ∷ runs) ≡ some runs
unfolding remove_at
first_removed r runs = refl

-- A full history that is not empty loses one run.
one_removed :
    (now : Time) (r : TerraformLayerRun) (runs : List TerraformLayerRun)
    → (rest : List TerraformLayerRun) × (remove_at (oldest_index now 0 0 (r ∷ runs)) (r ∷ runs)
        ≡ some rest)
      × (length rest ≡ length runs)
one_removed now r runs = elim (oldest_index-Found now 0 0 (r ∷ runs)) [
  | inl (a, e) ↦ (runs, rw e (first_removed r runs), refl)
  | inr (o, e, lt) ↦ (
    o.before ++ o.after,
    removed {k = oldest_index now 0 0 (r ∷ runs)} o (omega (arith, e)),
    omega (arith, ap length o.parts, remove_at-one o.before o.run o.after),
  )
]

kept_last :
    (rest : List TerraformLayerRun) (run : TerraformRun)
    → is_kept (rest ++ get_layer_run run ∷ []) run ≡ true
unfolding get_layer_run
kept_last rest run =
    any_last (λ r. r.name == run.metadata.name) rest (get_layer_run run) (eq_refl run.metadata.name)

-- The new history: one run longer while there is room, else as long as before.
abbrev pub Updated : List TerraformLayerRun → TerraformRun → ℤ → List TerraformLayerRun → Type 0
Updated runs run keep new =
    (length new ≡ (if ltb_ℤ (pos (length runs)) keep then length runs + 1 else length runs))
    × (is_kept new run ≡ true)

without_room :
    (now : Time) (run : TerraformRun) (keep : ℤ) (rs : List TerraformLayerRun)
    → ltb_ℤ (pos (length rs)) keep ≡ false
    → ((update_latest_runs now rs run keep ≡ none) × (rs ≡ []) × (keep ≤ℤ pos 0))
      ⊎ ((new : List TerraformLayerRun) × (update_latest_runs now rs run keep ≡ some new)
          × Updated rs run keep new)
unfolding update_latest_runs remove_at
without_room now run keep [] full = inl (rw full refl, refl, ltb_ℤ→le (pos 0) keep full)
without_room now run keep (r ∷ rs) full =
    let (rest, e, same) = one_removed now r rs in
    inr (
      rest ++ get_layer_run run ∷ [],
      rw (full, e) refl,
      (
        rw full (omega (arith, same, length-append rest (get_layer_run run ∷ []))),
        kept_last rest run,
      ),
    )

-- The update panics only where no run is to be kept and the history is empty. Otherwise the history
-- gets one longer while there is room and stays as long as it is where there is none, and the new
-- run is in it.
pub update_latest_runs-Updated :
    (now : Time) (runs : List TerraformLayerRun) (run : TerraformRun) (keep : ℤ)
    → ((update_latest_runs now runs run keep ≡ none) × (runs ≡ []) × (keep ≤ℤ pos 0))
      ⊎ ((new : List TerraformLayerRun) × (update_latest_runs now runs run keep ≡ some new)
          × Updated runs run keep new)
unfolding update_latest_runs
update_latest_runs-Updated now runs run keep = elim (Bool-cases (ltb_ℤ (pos (length runs)) keep)) [
  | inl room ↦ inr (
    runs ++ get_layer_run run ∷ [],
    rw room refl,
    (rw room (length-append runs (get_layer_run run ∷ [])), kept_last runs run),
  )
  | inr full ↦ without_room now run keep runs full
]
