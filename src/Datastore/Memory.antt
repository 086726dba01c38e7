-- ===== src/Datastore/Memory.antt =====
-- The backend in memory keeps what the datastore expects of a backend.
use burrito.Base.{
  String, ◌<>◌, ◌==◌, ◌≡◌, ◌≢◌, refl, sym, ap, ◌∙◌, false, Option, none, some, ◌⊎◌, inl, inr, arith,
  Bool-cases, Option-cases, eq_iff,
}
use text.Mathlib.TextLemmas.{
  cons-append, cons-ne-nil, append-ne-nil_of_right_ne-nil, tail-eq_of_cons-eq, append_cancel_left,
  append_assoc,
}
use burrito.Base.Dict.{Dict, lookup, insert, lookup-insert_same, lookup-insert_other}
use burrito.Base.Effect.{Result, ok, err, not_found}
use burrito.Base.Text.{has_suffix, trim_suffix}
use burrito.Encryption.{Bytes, Crypto}
use burrito.Datastore.Plain.{IsPlain, trim_prefix_none}
use burrito.Datastore.Stored.{BackendLaws}
use burrito.Datastore.Mock.{sanitize_prefix, object_key, get, set, list_recursive, mock, beside}

trim_suffix-append : (s : String) → trim_suffix (s <> "/") "/" ≡ s
unfolding trim_suffix
trim_suffix-append String.[] = refl
trim_suffix-append (String.◌∷◌ c s) =
    let longer : String.◌∷◌ c (s <> "/") ≢ "/" =
      λ e. append-ne-nil_of_right_ne-nil s (cons-ne-nil _ "") (tail-eq_of_cons-eq e) in
    rw (cons-append c s "/")
      (ground (arith, longer, eq_iff (String.◌∷◌ c (s <> "/")) "/", trim_suffix-append s))

trim_suffix_none : (s : String) → has_suffix s "/" ≡ false → trim_suffix s "/" ≡ s
unfolding trim_suffix has_suffix
trim_suffix_none String.[] h = refl
trim_suffix_none (String.◌∷◌ c s) h = ground (arith, h, trim_suffix_none s)

-- A plain key only gets a slash in front.
object_key_plain : (key : String) → IsPlain key → object_key key ≡ "/" <> key
unfolding object_key sanitize_prefix
object_key_plain key h =
    rw (trim_prefix_none key (ground (arith, h)), trim_suffix_none key (ground (arith, h)))
      (rw (sym (append_assoc "/" key "/")) (trim_suffix-append ("/" <> key)))

distinct : (at key : String) → IsPlain at → IsPlain key → at ≢ key → object_key key ≢ object_key at
distinct at key ha hk other e =
    other (
      append_cancel_left "/" at key
        (sym (object_key_plain at ha) ∙ sym e ∙ object_key_plain key hk))

abbrev answer : Option Bytes → Result Bytes
answer none = err not_found
answer (some value) = ok value

get_lem :
    {E : Type 0} (key : String) (s : Dict Bytes × E)
    → (get key s).0 ≡ answer (lookup (object_key key) s.0)
unfolding get
get_lem key s = elim (Option-cases (lookup (object_key key) s.0)) [
  | inl e ↦ rw (get, e) refl
  | inr (value, e) ↦ rw (get, e) refl
]

get_keeps : {E : Type 0} (key : String) (s : Dict Bytes × E) → (get key s).1.0 ≡ s.0
unfolding get
get_keeps key s = elim (Option-cases (lookup (object_key key) s.0)) [
  | inl e ↦ rw (get, e) refl
  | inr (value, e) ↦ rw (get, e) refl
]

list_recursive_keeps :
    {E : Type 0} (prefix : String) (s : Dict Bytes × E) → (list_recursive prefix s).1.0 ≡ s.0
unfolding list_recursive
list_recursive_keeps prefix s = ground arith

set_cases :
    {E : Type 0} (at key : String) (value : Bytes) (s : Dict Bytes × E)
    → ((get at (set key value s).1).0 ≡ (get at s).0)
      ⊎ (((get at (set key value s).1).0 ≡ ok value) × ((get at s).0 ≡ (get key s).0))
unfolding set
set_cases at key value s = elim (Bool-cases (object_key key == object_key at)) [
  | inr other ↦ inl (
      get_lem at (insert (object_key key) value s.0, s.1)
      ∙ ap answer (
          lookup-insert_other (object_key key) (object_key at) value s.0
            (λ e. ground (arith, other, eq_iff (object_key key) (object_key at), e)))
      ∙ sym (get_lem at s))
  | inl same ↦
      let keys : object_key at ≡ object_key key =
        sym ((eq_iff (object_key key) (object_key at)).0 same) in
      inr (
        get_lem at (insert (object_key key) value s.0, s.1)
            ∙ ap answer (
                ap (λ k. lookup k (insert (object_key key) value s.0)) keys
                ∙ lookup-insert_same (object_key key) value s.0),
        get_lem at s ∙ ap (λ k. answer (lookup k s.0)) keys ∙ sym (get_lem key s),
      )
]

module _ {E : Type 0} (crypto : Crypto E) where
  -- The backend in memory is a backend as the datastore expects it: a value that is set is what `get`
  -- gives for the key, whatever the key is, and a plain key keeps its value when another is set.
  pub mock-BackendLaws : BackendLaws (mock E) (beside crypto)
  unfolding get set
  mock-BackendLaws = record {
    get-set = λ key value s h.
        get_lem key (insert (object_key key) value s.0, s.1)
        ∙ ap answer (lookup-insert_same (object_key key) value s.0);
    get-set_other = λ at key value s ha hk other.
        get_lem at (insert (object_key key) value s.0, s.1)
        ∙ ap answer (
            lookup-insert_other (object_key key) (object_key at) value s.0
              (distinct at key ha hk other))
        ∙ sym (get_lem at s);
    get-set_cases = set_cases;
    get-get = λ at key s.
        get_lem at (get key s).1
        ∙ ap (λ entries. answer (lookup (object_key at) entries)) (get_keeps key s)
        ∙ sym (get_lem at s);
    get-list_recursive = λ at prefix s.
        get_lem at (list_recursive prefix s).1
        ∙ ap (λ entries. answer (lookup (object_key at) entries)) (list_recursive_keeps prefix s)
        ∙ sym (get_lem at s);
    get-read_iv = λ at s. get_lem at (s.0, (crypto.read_iv s.1).1) ∙ sym (get_lem at s);
  }
