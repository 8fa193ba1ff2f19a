-- ===== src/Routing/Targets.antt =====
-- The service of a request without a target, whose signing name two models share,
-- of localstack-core/localstack/aws/protocol/service_router.py.
use localstack_bb.Base.{String, ◌≡◌, refl, ◌∙◌, false, none, some, [], ◌∷◌, ◌⊎◌, inl, inr, str_eq}
use localstack_bb.Base.Result.{ok}
use localstack_bb.Routing.{ServiceModelIdentifier, ServiceModel, Request, same_identifier}
use localstack_bb.Routing.Catalog.{listed, by_index-listed, get_service_model_identifier}
use localstack_bb.Routing.Loading.{load}
use localstack_bb.Routing.Indicators.{Header, ServiceIndicators, extract_service_indicators}
use localstack_bb.Routing.Rules.{custom_signing_name_rules}
use localstack_bb.Routing.Service.{
  ServiceCatalog, Candidates, go_on, kept, next, got, get_model, keep, add_all, is_candidate,
  has_no_target, unique_or, by_rules, check_signing_name, check_target, check_unique, finish,
  search, determine, determine_aws_service_model,
}

module _ (catalog : ServiceCatalog)
    (pop : ServiceModelIdentifier → Candidates → ServiceModelIdentifier)
    (parse_dict_header : String → Header) where
  -- The identifier of a model loads that model.
  abbrev pub IsLoaded : ServiceModel → Type 0
  IsLoaded m =
      let i = get_service_model_identifier m in
      load catalog.load_service_model i.name i.protocol ≡ ok m

  abbrev pub both : ServiceModel → ServiceModel → Candidates
  both a b = get_service_model_identifier a ∷ get_service_model_identifier b ∷ []

  check_signing_name-both :
      (name path : String) (a b : ServiceModel)
      → str_eq name "" ≡ false
      → custom_signing_name_rules name path ≡ none
      → listed (λ m. m.signing_name ∷ []) name catalog.models ≡ both a b
      → same_identifier (get_service_model_identifier b) (get_service_model_identifier a) ≡ false
      → check_signing_name catalog (some name) path ≡ go_on (both a b)
  unfolding check_signing_name unique_or by_rules add_all is_candidate
  check_signing_name-both name path a b n c l d =
      rw (n, (by_index-listed name catalog.models).1 ∙ l, c, d) refl

  keep_second :
      (a b : ServiceModel) (p : String)
      → IsLoaded a
      → IsLoaded b
      → a.target_prefix ≡ some p
      → b.target_prefix ≡ none
      → keep catalog has_no_target (both a b) ≡ ok (get_service_model_identifier b ∷ [])
  unfolding keep get_model has_no_target
  keep_second a b p f g s t = rw (f, g, s, t) refl

  keep_first :
      (a b : ServiceModel) (p : String)
      → IsLoaded a
      → IsLoaded b
      → a.target_prefix ≡ none
      → b.target_prefix ≡ some p
      → keep catalog has_no_target (both a b) ≡ ok (get_service_model_identifier a ∷ [])
  unfolding keep get_model has_no_target
  keep_first a b p f g s t = rw (f, g, s, t) refl

  finish_kept :
      (r : Request) (i : ServiceIndicators) (c : ServiceModelIdentifier) (cs : Candidates)
      → i.target_prefix ≡ none
      → check_signing_name catalog i.signing_name i.path ≡ go_on cs
      → keep catalog has_no_target cs ≡ ok (c ∷ [])
      → finish catalog pop i.signing_name (search catalog r i) ≡ got catalog c
  unfolding finish search next check_target kept check_unique unique_or
  finish_kept r i c cs t h k = rw (h, t, k) refl

  -- A request without a target whose signing name, not empty and under no path rule, is that of just
  -- two models, which load, is for the one of them that has no target prefix, whichever of the two
  -- comes first and whatever its path, host and form say.
  pub determine-no_target :
      (r : Request) (i : ServiceIndicators) (name p : String) (a b : ServiceModel)
      → extract_service_indicators parse_dict_header r ≡ ok i
      → i.signing_name ≡ some name
      → i.target_prefix ≡ none
      → str_eq name "" ≡ false
      → custom_signing_name_rules name i.path ≡ none
      → (listed (λ m. m.signing_name ∷ []) name catalog.models ≡ both a b)
        ⊎ (listed (λ m. m.signing_name ∷ []) name catalog.models ≡ both b a)
      → same_identifier (get_service_model_identifier a) (get_service_model_identifier b) ≡ false
      → same_identifier (get_service_model_identifier b) (get_service_model_identifier a) ≡ false
      → IsLoaded a
      → IsLoaded b
      → a.target_prefix ≡ some p
      → b.target_prefix ≡ none
      → determine_aws_service_model catalog pop parse_dict_header r
        ≡ got catalog (get_service_model_identifier b)
  unfolding determine_aws_service_model determine
  determine-no_target r i name p a b h s t n c (inl l) d e f g x y = rw h (
      finish_kept r i (get_service_model_identifier b) (both a b) t
        (rw s (check_signing_name-both name i.path a b n c l e)) (keep_second a b p f g x y))
  determine-no_target r i name p a b h s t n c (inr l) d e f g x y = rw h (
      finish_kept r i (get_service_model_identifier b) (both b a) t
        (rw s (check_signing_name-both name i.path b a n c l d)) (keep_first b a p g f y x))
