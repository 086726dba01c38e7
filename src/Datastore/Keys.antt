-- ===== src/Datastore/Keys.antt =====
-- Different names give different keys.
use burrito.Base.{
  ℕ, String, ◌<>◌, ◌≡◌, refl, sym, ap, ap₂, ◌∙◌, arith, true, false, Bool, eqb, ◌||◌,
}
use Prim.Native.Char.{Char, code}
use text.Mathlib.TextLemmas.{
  append_cancel_left, append_cancel_right, nil-append, cons-append, head-eq_of_cons-eq,
  tail-eq_of_cons-eq,
}
use burrito.Datastore.{compute_logs_key, compute_git_bundle_key}

abbrev head_code : String → ℕ
head_code String.[] = 0
head_code (String.◌∷◌ c s) = code c

-- The name has no slash in it, as the names of Kubernetes objects and of revisions.
abbrev pub has_slash : String → Bool
has_slash String.[] = false
has_slash (String.◌∷◌ c s) = eqb (code c) 47 || has_slash s

abbrev pub IsName : String → Type 0
IsName s = has_slash s ≡ false

head_slash : (rest : String) → head_code ("/" <> rest) ≡ 47
head_slash rest = ap head_code (cons-append _ "" rest)

starts_elsewhere :
    (d : Char) (t rest other : String)
    → IsName (String.◌∷◌ d t)
    → "" <> ("/" <> rest) ≡ String.◌∷◌ d t <> ("/" <> other)
    → ⊥
starts_elsewhere d t rest other ht e =
    let heads = ap head_code (rw (nil-append ("/" <> rest), cons-append d t ("/" <> other)) at e) in
    ground (arith, heads, head_slash rest, ht)

-- What stands before the first slash, and behind it.
slash_inj :
    (s t rest other : String)
    → IsName s
    → IsName t
    → s <> ("/" <> rest) ≡ t <> ("/" <> other)
    → (s ≡ t) × (rest ≡ other)
slash_inj String.[] String.[] rest other hs ht e = (
  refl,
  append_cancel_left "/" rest other (rw (nil-append ("/" <> rest), nil-append ("/" <> other)) at e),
)
slash_inj String.[] (String.◌∷◌ d t) rest other hs ht e =
    absurd (starts_elsewhere d t rest other ht e)
slash_inj (String.◌∷◌ c s) String.[] rest other hs ht e =
    absurd (starts_elsewhere c s other rest hs (sym e))
slash_inj (String.◌∷◌ c s) (String.◌∷◌ d t) rest other hs ht e =
    let both = rw (cons-append c s ("/" <> rest), cons-append d t ("/" <> other)) at e in
    let (same, behind) =
      slash_inj s t rest other (ground (arith, hs)) (ground (arith, ht))
        (tail-eq_of_cons-eq both) in
    (ap₂ String.◌∷◌ (head-eq_of_cons-eq both) same, behind)

slash_inside : (s rest : String) → has_slash (s <> ("/" <> rest)) ≡ true
slash_inside String.[] rest = rw (nil-append ("/" <> rest)) (ap has_slash (cons-append _ "" rest))
slash_inside (String.◌∷◌ c s) rest =
    rw (cons-append c s ("/" <> rest)) (ground (arith, slash_inside s rest))

slash_is_last :
    (c : Char) (d r t : String) → IsName r → "" <> ("/" <> r) ≡ String.◌∷◌ c d <> ("/" <> t) → ⊥
slash_is_last c d r t hr e =
    let both = rw (nil-append ("/" <> r), cons-append c d ("/" <> t)) at e in
    let behind = tail-eq_of_cons-eq (sym (cons-append _ "" r) ∙ both) in
    ground (arith, slash_inside d t, hr, ap has_slash behind, ap has_slash (nil-append r))

-- What stands behind the last slash, and before it.
last_slash_inj :
    (b d r t : String) → IsName r → IsName t → b <> ("/" <> r) ≡ d <> ("/" <> t) → (b ≡ d) × (r ≡ t)
last_slash_inj String.[] String.[] r t hr ht e =
    (refl, append_cancel_left "/" r t (rw (nil-append ("/" <> r), nil-append ("/" <> t)) at e))
last_slash_inj String.[] (String.◌∷◌ c d) r t hr ht e = absurd (slash_is_last c d r t hr e)
last_slash_inj (String.◌∷◌ c b) String.[] r t hr ht e = absurd (slash_is_last c b t r ht (sym e))
last_slash_inj (String.◌∷◌ c b) (String.◌∷◌ c' d) r t hr ht e =
    let both = rw (cons-append c b ("/" <> r), cons-append c' d ("/" <> t)) at e in
    let (same, behind) = last_slash_inj b d r t hr ht (tail-eq_of_cons-eq both) in
    (ap₂ String.◌∷◌ (head-eq_of_cons-eq both) same, behind)

IsName-append : (s t : String) → IsName s → IsName t → IsName (s <> t)
IsName-append String.[] t hs ht = rw (nil-append t) ht
IsName-append (String.◌∷◌ c s) t hs ht =
    rw (cons-append c s t) (ground (arith, hs, IsName-append s t, ht))

-- Two git bundles have the same key only if they are of the same namespace, repository, branch and
-- revision, where the branch may have slashes in it and the others have none.
pub compute_git_bundle_key_inj :
    (n n' p p' b b' r r' : String)
    → IsName n
    → IsName n'
    → IsName p
    → IsName p'
    → IsName r
    → IsName r'
    → compute_git_bundle_key n p b r ≡ compute_git_bundle_key n' p' b' r'
    → (n ≡ n') × ((p ≡ p') × ((b ≡ b') × (r ≡ r')))
unfolding compute_git_bundle_key
compute_git_bundle_key_inj n n' p p' b b' r r' hn hn' hp hp' hr hr' e =
    let (same_n, e1) = slash_inj n n' _ _ hn hn' (append_cancel_left "repositories/" _ _ e) in
    let (same_p, e2) = slash_inj p p' _ _ hp hp' e1 in
    let (same_b, e3) =
      last_slash_inj b b' _ _ (IsName-append r ".gitbundle" hr refl)
        (IsName-append r' ".gitbundle" hr' refl) e2 in
    (same_n, (same_p, (same_b, append_cancel_right r r' ".gitbundle" e3)))

-- The same for the logs of an attempt.
pub compute_logs_key_inj :
    (n n' l l' r r' a a' : String)
    → IsName n
    → IsName n'
    → IsName l
    → IsName l'
    → IsName r
    → IsName r'
    → compute_logs_key n l r a ≡ compute_logs_key n' l' r' a'
    → (n ≡ n') × ((l ≡ l') × ((r ≡ r') × (a ≡ a')))
unfolding compute_logs_key
compute_logs_key_inj n n' l l' r r' a a' hn hn' hl hl' hr hr' e =
    let (same_n, e1) = slash_inj n n' _ _ hn hn' (append_cancel_left "layers/" _ _ e) in
    let (same_l, e2) = slash_inj l l' _ _ hl hl' e1 in
    let (same_r, e3) = slash_inj r r' _ _ hr hr' e2 in
    (same_n, (same_l, (same_r, append_cancel_right a a' "/run.log" e3)))
