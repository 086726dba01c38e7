-- ===== src/Datastore/S3/Pages.antt =====
-- The pages of a listing on S3.
use burrito.Base.{
  ℕ, zero, suc, ◌<◌, String, ◌<>◌, ◌≡◌, refl, ap, ◌∙◌, false, true, Option, none, some, List, [],
  ◌∷◌, ◌++◌, map, arith, Bool-cases, inl, inr, ◌⊎◌,
}
use mathlib.Core.List.{append_assoc}
use burrito.Base.Effect.{Result, ok, err, ApiError, not_found, other, Result-cases}
use burrito.Datastore.S3.{
  S3Client, ListInput, Page, next_input, list_pages, settle_pages, check_prefix, is_empty,
  list_recursive,
}
use burrito.Datastore.Mock.{sanitize_prefix}

abbrev pub keys_of : Page → List String
keys_of page = map (λ k. "/" <> k) page.contents

abbrev pub prepend : List String → Result (List String) → Result (List String)
prepend keys (ok more) = ok (keys ++ more)
prepend keys (err e) = err e

prepend_nil : (r : Result (List String)) → prepend [] r ≡ r
prepend_nil (ok more) = refl
prepend_nil (err e) = refl

prepend-prepend :
    (xs ys : List String) (r : Result (List String))
    → prepend xs (prepend ys r) ≡ prepend (xs ++ ys) r
prepend-prepend xs ys (ok more) = simp (append_assoc)
prepend-prepend xs ys (err e) = refl

module _ (c : S3Client) (prefix : String) where
  open c use {State, list_objects}

  -- What S3 documents of a listing: from each token on it has finitely many pages, and fewer behind
  -- each one.
  pub record PagesEnd : Type 0 where
    pub left : Option String → State → ℕ
    pub decreases :
        (token : Option String) (s : State) (page : Page)
        → (list_objects (next_input c prefix token) s).0 ≡ ok page
        → page.is_truncated ≡ true
        → left page.next_token (list_objects (next_input c prefix token) s).1 < left token s

  -- The keys on the pages from a token on, or that a page could not be had.
  pub data Pages : Option String → State → Result (List String) → Type 0 where
    failed :
        (token : Option String) (s : State) (e : ApiError)
        → (list_objects (next_input c prefix token) s).0 ≡ err e
        → Pages token s (err other)
    last_page :
        (token : Option String) (s : State) (page : Page)
        → (list_objects (next_input c prefix token) s).0 ≡ ok page
        → page.is_truncated ≡ false
        → Pages token s (ok (keys_of page))
    more_pages :
        (token : Option String) (s : State) (page : Page) (r : Result (List String))
        → (list_objects (next_input c prefix token) s).0 ≡ ok page
        → page.is_truncated ≡ true
        → Pages page.next_token (list_objects (next_input c prefix token) s).1 r
        → Pages token s (prepend (keys_of page) r)

  module _ (ends : PagesEnd) where
    list_pages-Pages :
        (fuel : ℕ) (token : Option String) (found : List String) (s : State)
        → ends.left token s < fuel
        → (r : Result (List String)) × Pages token s r
          × ((list_pages c fuel prefix token found s).0 ≡ some (prepend found r))
    unfolding list_pages
    list_pages-Pages zero token found s h = absurd (omega arith)
    list_pages-Pages (suc fuel) token found s h =
        let input = next_input c prefix token in
        elim (Result-cases (list_objects input s).0) [
          | inr (e, bad) ↦ (err other, failed token s e bad, rw (bad, list_pages))
          | inl (page, got) ↦ elim (Bool-cases page.is_truncated) [
            | inr last ↦
                (ok (keys_of page), last_page token s page got last, rw (got, last, list_pages))
            | inl more ↦
                let s' = (list_objects input s).1 in
                let (r, pages, same) =
                  list_pages-Pages fuel page.next_token (found ++ keys_of page) s'
                    (omega (arith, ends.decreases token s page got more)) in
                (
                  prepend (keys_of page) r,
                  more_pages token s page r got more pages,
                  rw (got, more, list_pages) (rw prepend-prepend same),
                )
          ]
        ]

-- What `ListRecursive` answers, by the keys on the pages: what they hold or their error; but with no
-- key it may be an error, as where there is no such prefix.
abbrev pub Answers : Result (List String) → Result (List String) → Type 0
Answers pages answer = (answer ≡ pages) ⊎ (pages ≡ ok []) × ((e : ApiError) × (answer ≡ err e))

module _ (c : S3Client) where
  open c use {State, list_objects}

  abbrev probe : String → ListInput
  probe prefix = record {
    prefix = prefix;
    delimiter = some "/";
    continuation_token = none;
    max_keys = some 1;
  }

  check_prefix-Answers : (prefix : String) (s : State) → Answers (ok []) (check_prefix c prefix s).0
  unfolding check_prefix
  check_prefix-Answers prefix s = elim (Result-cases (list_objects (probe prefix) s).0) [
    | inr (e, bad) ↦ rw (bad, check_prefix) (inr (refl, (other, refl)))
    | inl (page, got) ↦ elim (Bool-cases (is_empty c page)) [
      | inl empty ↦ rw (got, empty, check_prefix) (inr (refl, (not_found, refl)))
      | inr some_key ↦ rw (got, some_key, check_prefix) (inl refl)
    ]
  ]

  settle_pages-Answers :
      (prefix : String) (pages : Result (List String)) (s : State)
      → Answers pages (settle_pages c prefix pages s).0
  unfolding settle_pages
  settle_pages-Answers prefix (err e) s = inl refl
  settle_pages-Answers prefix (ok []) s = check_prefix-Answers prefix s
  settle_pages-Answers prefix (ok (k ∷ ks)) s = inl refl

  -- With as much fuel as a listing has pages, `ListRecursive` comes to an end, and it answers with the
  -- keys on all the pages or with the error of one of them; only with no key on any page it may answer
  -- with an error of its own.
  pub list_recursive-Pages :
      (prefix : String) (fuel : ℕ) (s : State) (ends : PagesEnd c (sanitize_prefix prefix))
      → ends.left none s < fuel
      → (pages : Result (List String)) × Pages c (sanitize_prefix prefix) none s pages
        × ((answer : Result (List String)) × ((list_recursive c fuel prefix s).0 ≡ some answer)
            × Answers pages answer)
  unfolding list_recursive
  list_recursive-Pages prefix fuel s ends h =
      let (pages, listed, same) =
        list_pages-Pages c (sanitize_prefix prefix) ends fuel none [] s h in
      let s' = (list_pages c fuel (sanitize_prefix prefix) none [] s).1 in
      let found = same ∙ ap some (prepend_nil pages) in
      (
        pages,
        listed,
        (
          (settle_pages c (sanitize_prefix prefix) pages s').0,
          rw (found, list_recursive),
          settle_pages-Answers (sanitize_prefix prefix) pages s',
        ),
      )
