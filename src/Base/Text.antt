-- ===== src/Base/Text.antt =====
-- Text as the source sees it: UTF-8 bytes, `%d`, `strings.Split` and `strings.Join`.
use Prim.Native.Nat.{ℕ, zero, suc, ◌+◌, ◌-◌, ◌*◌, ◌/◌, ◌%◌, ◌^◌}
use Prim.Native.Char.{code}
use Prim.Native.String.{String, ◌++◌ as ◌<>◌}
use mathlib.Core.List.{List, [], ◌∷◌, ◌++◌}
use mathlib.Core.Bool.{Bool, true, false, ◌&&◌, ◌||◌}
use mathlib.Core.Option.{Option, none, some}
use text.Mathlib.Text.{◌==◌}
use burrito.Base.Tests.{ltb, leb, eqb, if◌then◌else◌}
use burrito.Base.Int.{ℤ, pos, negsuc, sub_ℕ}

utf8_char : ℕ → List ℕ
utf8_char c =
    if ltb c 128
    then c ∷ []
    else if ltb c 2048
    then (192 + c / 64) ∷ (128 + c % 64) ∷ []
    else if ltb c 65536
    then (224 + c / 4096) ∷ (128 + c / 64 % 64) ∷ (128 + c % 64) ∷ []
    else (240 + c / 262144) ∷ (128 + c / 4096 % 64) ∷ (128 + c / 64 % 64) ∷ (128 + c % 64) ∷ []

-- `[]byte(s)`
unfoldable pub bytes : String → List ℕ
unfolding utf8_char
bytes String.[] = []
bytes (String.◌∷◌ c s) = utf8_char (code c) ++ bytes s

digit : ℕ → String
digit zero = "0"
digit (suc zero) = "1"
digit (suc (suc zero)) = "2"
digit (suc (suc (suc zero))) = "3"
digit (suc (suc (suc (suc zero)))) = "4"
digit (suc (suc (suc (suc (suc zero))))) = "5"
digit (suc (suc (suc (suc (suc (suc zero)))))) = "6"
digit (suc (suc (suc (suc (suc (suc (suc zero))))))) = "7"
digit (suc (suc (suc (suc (suc (suc (suc (suc zero)))))))) = "8"
digit _ = "9"

-- The digits of `n` before `tail`, on fuel: `n` has no more digits than its value.
digits : ℕ → ℕ → String → String
digits zero n tail = digit n <> tail
digits (suc fuel) n tail =
    let rest = digits fuel (n / 10) (digit (n % 10) <> tail) in
    if ltb n 10 then digit n <> tail else rest

-- `strconv.Itoa` and `%d` on a number that is not negative.
unfoldable pub itoa : ℕ → String
unfolding digit digits
itoa n = digits n n ""

-- `strings.Split(s, sep)` for a separator of one character: the part before the first
-- separator, and the parts after it.
unfoldable pub split : ℕ → String → String × List String
split sep String.[] = ("", [])
split sep (String.◌∷◌ c s) =
    let (first, others) = split sep s in
    if eqb (code c) sep then ("", first ∷ others) else (String.◌∷◌ c first, others)

-- `strings.Join(parts, " ")`
unfoldable pub join : List String → String
join [] = ""
join (s ∷ []) = s
join (s ∷ t ∷ rest) = s <> " " <> join (t ∷ rest)

-- The rest of `s` behind `prefix`, or none where `strings.HasPrefix(s, prefix)` is false.
unfoldable pub cut_prefix : (prefix s : String) → Option String
cut_prefix String.[] s = some s
cut_prefix (String.◌∷◌ c prefix) String.[] = none
cut_prefix (String.◌∷◌ c prefix) (String.◌∷◌ d s) =
    let rest = cut_prefix prefix s in if eqb (code c) (code d) then rest else none

unfoldable pub has_prefix : (s prefix : String) → Bool
unfolding cut_prefix
has_prefix s prefix = elim (cut_prefix prefix s) [ none ↦ false | some rest ↦ true ]

unfoldable pub trim_prefix : (s prefix : String) → String
unfolding cut_prefix
trim_prefix s prefix = elim (cut_prefix prefix s) [ none ↦ s | some rest ↦ rest ]

unfoldable pub has_suffix : (s suffix : String) → Bool
has_suffix String.[] suffix = "" == suffix
has_suffix (String.◌∷◌ c s) suffix = (String.◌∷◌ c s == suffix) || has_suffix s suffix

unfoldable pub trim_suffix : (s suffix : String) → String
trim_suffix String.[] suffix = ""
trim_suffix (String.◌∷◌ c s) suffix =
    let rest = trim_suffix s suffix in if String.◌∷◌ c s == suffix then "" else String.◌∷◌ c rest

-- The value of the decimal digits `s` after `n`, or none where a character is no digit.
unfoldable pub read_digits : (n : ℕ) (s : String) → Option ℕ
read_digits n String.[] = some n
read_digits n (String.◌∷◌ c s) =
    let rest = read_digits (n * 10 + (code c - 48)) s in
    if leb 48 (code c) && leb (code c) 57 then rest else none

-- The number of the text without a sign; an empty text has none.
unfoldable pub magnitude : (s : String) → Option ℕ
unfolding read_digits
magnitude String.[] = none
magnitude (String.◌∷◌ c s) = read_digits 0 (String.◌∷◌ c s)

-- The number that `strconv.Atoi` returns beside its error, on a 64-bit `int`: 0 for what is no
-- number, and the nearest `int` for what is out of range.
unfoldable pub atoi : (s : String) → ℤ
unfolding magnitude
atoi String.[] = pos 0
atoi (String.◌∷◌ c s) =
    if eqb (code c) 45
    then elim (magnitude s) [
      | none ↦ pos 0
      | some n ↦ if leb (2 ^ 63) n then negsuc (2 ^ 63 - 1) else sub_ℕ 0 n
    ]
    else elim (magnitude (if eqb (code c) 43 then s else String.◌∷◌ c s)) [
      | none ↦ pos 0
      | some n ↦ if leb (2 ^ 63) n then pos (2 ^ 63 - 1) else pos n
    ]

-- `strings.Contains(s, part)`
unfoldable pub contains_text : (s part : String) → Bool
unfolding has_prefix
contains_text String.[] part = has_prefix "" part
contains_text (String.◌∷◌ c s) part = has_prefix (String.◌∷◌ c s) part || contains_text s part

-- `unicode.IsSpace`
unfoldable pub is_space : (c : ℕ) → Bool
is_space c =
    (leb 9 c && leb c 13)
    || (eqb c 32
        || (eqb c 133
            || (eqb c 160
                || (eqb c 5760
                    || ((leb 8192 c && leb c 8202)
                        || (eqb c 8232
                            || (eqb c 8233 || (eqb c 8239 || (eqb c 8287 || eqb c 12288)))))))))

unfoldable pub trim_left : (s : String) → String
unfolding is_space
trim_left String.[] = ""
trim_left (String.◌∷◌ c s) = if is_space (code c) then trim_left s else String.◌∷◌ c s

unfoldable pub trim_right : (s : String) → String
unfolding is_space
trim_right String.[] = ""
trim_right (String.◌∷◌ c s) =
    let rest = trim_right s in if is_space (code c) && (rest == "") then "" else String.◌∷◌ c rest

-- `strings.TrimSpace`
unfoldable pub trim_space : (s : String) → String
unfolding trim_left trim_right
trim_space s = trim_right (trim_left s)

-- What is before the first character `separator`, and what is behind it; none if there is none.
unfoldable pub cut_at : (separator : ℕ) (s : String) → Option (String × String)
cut_at separator String.[] = none
cut_at separator (String.◌∷◌ c s) =
    let rest : Option (String × String) = elim (cut_at separator s) [
      | none ↦ none
      | some (before, behind) ↦ some (String.◌∷◌ c before, behind)
    ] in
    if eqb (code c) separator then some ("", s) else rest
