-- ===== src/Datastore/Plain.antt =====
-- The keys of the datastore have no slash at either end.
use burrito.Base.{
  String, ◌<>◌, ◌≡◌, ◌≢◌, refl, false, arith, eqb, eq_iff, ◌||◌, Option-cases, inl, inr,
}
use Prim.Native.Char.{Char, code}
use text.Mathlib.TextLemmas.{nil-append, cons-append, cons-ne-nil, tail-eq_of_cons-eq}
use burrito.Base.Text.{has_prefix, has_suffix, cut_prefix, trim_prefix}
use burrito.Datastore.{compute_logs_key, compute_git_bundle_key}

-- A key without a slash at either end, as the datastore computes them.
abbrev pub IsPlain : String → Type 0
IsPlain key = has_prefix key "/" || has_suffix key "/" ≡ false

-- A text that is not empty and has no slash at its end.
abbrev EndsPlain : String → Type 0
EndsPlain t = (t ≢ "") × (has_suffix t "/" ≡ false)

EndsPlain-append : (s t : String) → EndsPlain t → EndsPlain (s <> t)
unfolding has_suffix
EndsPlain-append String.[] t h = rw (nil-append t) h
EndsPlain-append (String.◌∷◌ c s) t h =
    let (some_text, rest) = EndsPlain-append s t h in
    let longer : String.◌∷◌ c (s <> t) ≢ "/" = λ e. some_text (tail-eq_of_cons-eq e) in
    rw (cons-append c s t) (
      (λ e. cons-ne-nil c (s <> t) e),
      ground (arith, rest, longer, eq_iff (String.◌∷◌ c (s <> t)) "/"),
    )

IsPlain-append :
    (c : Char) (s t : String)
    → eqb (code c) 47 ≡ false
    → EndsPlain t
    → IsPlain (String.◌∷◌ c s <> t)
unfolding has_prefix cut_prefix
IsPlain-append c s t h ends =
    let behind = (EndsPlain-append (String.◌∷◌ c s) t ends).1 in
    let front : has_prefix (String.◌∷◌ c s <> t) "/" ≡ false =
      rw (cons-append c s t) (ground (arith, h)) in
    ground (arith, front, behind)

pub logs_key-IsPlain : (n l r a : String) → IsPlain (compute_logs_key n l r a)
unfolding compute_logs_key has_suffix
logs_key-IsPlain n l r a =
    let end : EndsPlain "/run.log" = (cons-ne-nil _ _, refl) in
    let rest = EndsPlain-append n _ (
      EndsPlain-append "/" _ (
        EndsPlain-append l _ (
          EndsPlain-append "/" _
            (EndsPlain-append r _ (EndsPlain-append "/" _ (EndsPlain-append a _ end)))))) in
    IsPlain-append _ "ayers/" _ refl rest

pub bundle_key-IsPlain : (n p b r : String) → IsPlain (compute_git_bundle_key n p b r)
unfolding compute_git_bundle_key has_suffix
bundle_key-IsPlain n p b r =
    let end : EndsPlain ".gitbundle" = (cons-ne-nil _ _, refl) in
    let rest = EndsPlain-append n _ (
      EndsPlain-append "/" _ (
        EndsPlain-append p _ (
          EndsPlain-append "/" _
            (EndsPlain-append b _ (EndsPlain-append "/" _ (EndsPlain-append r _ end)))))) in
    IsPlain-append _ "epositories/" _ refl rest

pub trim_prefix_none : (s : String) → has_prefix s "/" ≡ false → trim_prefix s "/" ≡ s
unfolding trim_prefix has_prefix
trim_prefix_none s h = elim (Option-cases (cut_prefix "/" s)) [
  | inl e ↦ rw (trim_prefix, e) refl
  | inr (rest, e) ↦ cc (rw (has_prefix, e) at h)
]
