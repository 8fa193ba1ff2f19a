-- ===== src/OpRouter/Names.antt =====
-- The names of path parameters in the rules of werkzeug:
-- localstack-core/localstack/aws/protocol/routing.py. The pattern of a parameter is a brace, at least
-- one character but the end of a line, and the next closing brace.
use localstack_bb.Base.{
  ℕ, zero, suc, String, ◌≡◌, refl, ap, ◌∙◌, Bool, true, false, ◌&&◌, Option, none, some, arith,
  ◌==◌, str_eq, if◌then◌else◌, Bool-cases, inl, inr,
}
use localstack_bb.Init.{ends_with}
use localstack_bb.Base.Text.{strip_left, has_char}
use Prim.Native.String
use Prim.Native.Char.{Char, char, code}
use text.Mathlib.TextEquality.{Char-path}

-- `s.rstrip(c)`
unfoldable pub strip_right : ℕ → String → String
strip_right c String.[] = ""
strip_right c (String.◌∷◌ d s) =
    let rest = strip_right c s in if code d == c && str_eq rest "" then "" else String.◌∷◌ d rest

abbrev low_line : Char
low_line = char b'_' tt

abbrev hyphen : Char
hyphen = char b'-' tt

-- The substitution of "-", "_0_", before a text.
abbrev substituted : String → String
substituted s = String.◌∷◌ low_line (String.◌∷◌ (char b'0' tt) (String.◌∷◌ low_line s))

-- `str.translate` with the table that replaces "-" by "_0_".
unfoldable pub translate : String → String
translate String.[] = ""
translate (String.◌∷◌ c s) =
    let rest = translate s in if code c == b'-' then substituted rest else String.◌∷◌ c rest

-- The text starts with "_0_".
unfoldable pub starts_substituted : String → Bool
starts_substituted (String.◌∷◌ a (String.◌∷◌ b (String.◌∷◌ c _))) =
    code a == b'_' && (code b == b'0' && code c == b'_')
starts_substituted _ = false

-- `str.replace("_0_", "-")`, behind the next characters, which are passed over.
unfoldable pub replace_behind : ℕ → String → String
replace_behind n String.[] = ""
replace_behind (suc n) (String.◌∷◌ c s) = replace_behind n s
replace_behind zero (String.◌∷◌ c s) = elim (starts_substituted (String.◌∷◌ c s)) [
  | true ↦ String.◌∷◌ hyphen (replace_behind 2 s)
  | false ↦ String.◌∷◌ c (replace_behind 0 s)
]

unfoldable pub post_process_arg_name : String → String
post_process_arg_name key = replace_behind 0 key

-- The variable of a parameter, without its braces; a greedy one ends in plus signs.
unfoldable pub transform_path_params_to_rule_vars : String → String
transform_path_params_to_rule_vars name =
    if ends_with "+" name
    then String.◌++◌ "<path:"
        (String.◌++◌ (translate (strip_right b'+' (strip_left b'+' name))) ">")
    else String.◌++◌ "<" (String.◌++◌ (translate name) ">")

-- The rest of a parameter behind its brace and first character: the name up to the next closing
-- brace, and what follows, or none if the line or the text ends before.
unfoldable pub until_brace : String → Option (String × String)
until_brace String.[] = none
until_brace (String.◌∷◌ c s) =
    let rest = until_brace s in
    if code c == b'}'
    then some ("", s)
    else if code c == 10
    then none
    else (elim rest [ none ↦ none | some (name, after) ↦ some (String.◌∷◌ c name, after) ])

unfoldable pub param : String → Option (String × String)
param String.[] = none
param (String.◌∷◌ c s) = if code c == 10 then none else (elim (until_brace s) [
  | none ↦ none
  | some (name, after) ↦ some (String.◌∷◌ c name, after)
])

-- `path_param_regex.sub(transform_path_params_to_rule_vars, path)`; the fuel is the length of the
-- path, of which each step takes at least one character.
unfoldable pub sub_from : ℕ → String → String
sub_from zero s = s
sub_from (suc n) String.[] = ""
sub_from (suc n) (String.◌∷◌ c s) = elim (if code c == b'{' then param s else none) [
  | none ↦ String.◌∷◌ c (sub_from n s)
  | some (name, after) ↦ String.◌++◌ (transform_path_params_to_rule_vars name) (sub_from n after)
]

abbrev count : String → ℕ
count String.[] = 0
count (String.◌∷◌ c s) = suc (count s)

unfoldable pub rule_string : String → String
rule_string path = sub_from (count path) path

starts_substituted_kept :
    (c : Char) (s : String) → (code c == b'_') ≡ false → starts_substituted (String.◌∷◌ c s) ≡ false
unfolding starts_substituted
starts_substituted_kept c String.[] h = refl
starts_substituted_kept c (String.◌∷◌ d String.[]) h = refl
starts_substituted_kept c (String.◌∷◌ d (String.◌∷◌ e s)) h = rw h refl

replace-substituted :
    (s : String) → replace_behind 0 (substituted s) ≡ String.◌∷◌ hyphen (replace_behind 0 s)
unfolding replace_behind starts_substituted
replace-substituted s = refl

replace-kept :
    (c : Char) (s : String)
    → (code c == b'_') ≡ false
    → replace_behind 0 (String.◌∷◌ c s) ≡ String.◌∷◌ c (replace_behind 0 s)
unfolding replace_behind
replace-kept c s h =
    ap
      (λ (b : Bool). elim b as (λ _. String) [
        | true ↦ String.◌∷◌ hyphen (replace_behind 2 s)
        | false ↦ String.◌∷◌ c (replace_behind 0 s)
      ])
      (starts_substituted_kept c s h)

-- A name of a parameter without "_" is read back from the variable of the rule.
pub post_process_arg_name-translate :
    (name : String) → has_char b'_' name ≡ false → post_process_arg_name (translate name) ≡ name
unfolding post_process_arg_name translate has_char
post_process_arg_name-translate String.[] h = unfold replace_behind in refl
post_process_arg_name-translate (String.◌∷◌ c s) h =
    let kept : replace_behind 0 (translate s) ≡ s =
      post_process_arg_name-translate s (ground arith) in
    elim (Bool-cases (code c == b'-')) [
      | inl e ↦ rw e (
          replace-substituted (translate s)
          ∙ ap (λ t. String.◌∷◌ hyphen t) kept
          ∙ ap (λ d. String.◌∷◌ d s) (Char-path hyphen c (ground arith)))
      | inr e ↦ rw e (replace-kept c (translate s) (ground arith) ∙ ap (λ t. String.◌∷◌ c t) kept)
    ]
