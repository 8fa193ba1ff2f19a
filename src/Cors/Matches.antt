-- ===== src/Cors/Matches.antt =====
-- What a match of a dynamic origin says of the origin.
use Prim.Native.Char.{code}
use Prim.Native.String
use text.Mathlib.TextEquality.{Char-path}
use text.Mathlib.TextLemmas.{nil-append, cons-append}
use localstack_bb.Base.{
  ℕ, String, ◌≡◌, ap, sym, ◌∙◌, Option, none, some, arith, ◌==◌, ==_iff, if◌then◌else◌,
  Option-cases, Bool-cases, inl, inr,
}
use localstack_bb.Cors.{until_colon, match_dynamic, infix_here, drop_infix, after_infix}

abbrev ◌⊕◌ : String → String → String
s ⊕ t = String.◌++◌ s t

infixr 60 ◌⊕◌
until_colon_whole : (s : String) → (until_colon s).0 ⊕ (until_colon s).1 ≡ s
unfolding until_colon
until_colon_whole String.[] = nil-append ""
until_colon_whole (String.◌∷◌ c s) = elim (Bool-cases (code c == 58)) [
  | inl e ↦ rw e (nil-append (String.◌∷◌ c s))
  | inr e ↦ rw e (
      cons-append c (until_colon s).0 (until_colon s).1
      ∙ ap (λ t. String.◌∷◌ c t) (until_colon_whole s))
]

drop_infix_whole : (i s rest : String) → drop_infix i s ≡ some rest → s ≡ i ⊕ rest
drop_infix_whole String.[] s rest h = let e : s ≡ rest = cc in e ∙ sym (nil-append rest)
drop_infix_whole (String.◌∷◌ c i) String.[] rest h = cc
drop_infix_whole (String.◌∷◌ c i) (String.◌∷◌ d s) rest h = elim (Bool-cases (code c == code d)) [
  | inl e ↦
      let cd : d ≡ c = sym (Char-path c d ((==_iff (code c) (code d)).0 e)) in
      let h' : drop_infix i s ≡ some rest = ground arith in
      ap (λ x. String.◌∷◌ x s) cd
      ∙ ap (λ t. String.◌∷◌ c t) (drop_infix_whole i s rest h')
      ∙ sym (cons-append c i rest)
  | inr e ↦ ground arith
]

-- A match splits the origin.
pub record Splits (infix_text origin domain : String) : Type 0 where
  pub before : String
  pub rest : String
  pub whole : origin ≡ before ⊕ infix_text ⊕ domain ⊕ rest

after_infix_whole :
    (s domain : String) (port : Option ℕ)
    → after_infix s ≡ some (domain, port)
    → (rest : String) × (s ≡ domain ⊕ rest)
after_infix_whole String.[] domain port h = cc
after_infix_whole (String.◌∷◌ c s) domain port h =
    let e : String.◌∷◌ c (until_colon s).0 ≡ domain = ground arith in
    (
      (until_colon s).1,
      ap (λ t. String.◌∷◌ c t) (sym (until_colon_whole s))
          ∙ sym (cons-append c (until_colon s).0 (until_colon s).1)
          ∙ ap (λ t. t ⊕ (until_colon s).1) e,
    )

infix_here-Splits :
    (infix_text s domain : String) (port : Option ℕ)
    → infix_here infix_text s ≡ some (domain, port)
    → Splits infix_text s domain
infix_here-Splits infix_text s domain port h = elim (Option-cases (drop_infix infix_text s)) [
  | inl e ↦ ground arith
  | inr (rest, e) ↦
      let h' : after_infix rest ≡ some (domain, port) = ground arith in
      let (r, w) = after_infix_whole rest domain port h' in
      record {
        before = "";
        rest = r;
        whole =
            drop_infix_whole infix_text s rest e
            ∙ ap (λ t. infix_text ⊕ t) w
            ∙ sym (nil-append (infix_text ⊕ domain ⊕ r));
      }
]

-- A match of a dynamic origin splits the origin: some text, the infix, the domain and a rest.
pub match_dynamic-Splits :
    (infix_text s domain : String) (port : Option ℕ)
    → match_dynamic infix_text s ≡ some (domain, port)
    → Splits infix_text s domain
unfolding match_dynamic
match_dynamic-Splits infix_text String.[] domain port h = cc
match_dynamic-Splits infix_text (String.◌∷◌ c s) domain port h =
    elim (Option-cases (if code c == 10 then none else match_dynamic infix_text s)) [
      | inl e ↦
          let h' : infix_here infix_text (String.◌∷◌ c s) ≡ some (domain, port) = ground arith in
          infix_here-Splits infix_text (String.◌∷◌ c s) domain port h'
      | inr (m, e) ↦
          let h' : match_dynamic infix_text s ≡ some (domain, port) = ground arith in
          let v = match_dynamic-Splits infix_text s domain port h' in
          record {
            before = String.◌∷◌ c v.before;
            rest = v.rest;
            whole =
                ap (λ t. String.◌∷◌ c t) v.whole
                ∙ sym (cons-append c v.before (infix_text ⊕ domain ⊕ v.rest));
          }
    ]
