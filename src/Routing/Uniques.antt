-- ===== src/Routing/Uniques.antt =====
-- The service of a request that one indicator alone gives,
-- of localstack-core/localstack/aws/protocol/service_router.py.
use localstack_bb.Base.{
  String, ◌≡◌, refl, ap, ◌∙◌, Bool, true, false, none, some, [], ◌∷◌, arith, str_eq, Bool-cases,
  inl, inr, eq_iff, ◌&&◌, not,
}
use localstack_bb.Base.Result.{ok, err}
use localstack_bb.Cors.{has_infix}
use localstack_bb.Routing.{ServiceModelIdentifier, Request, attribute_error}
use localstack_bb.Routing.Catalog.{
  Index, listed, by_signing_name, by_index-listed, endpoint_prefix_index,
}
use localstack_bb.Routing.Indicators.{
  ServiceIndicators, Header, signing_name_of, amz_target, extract_service_indicators,
}
use localstack_bb.Routing.Rules.{custom_host_addressing_rules, custom_path_addressing_rules}
use localstack_bb.Routing.Service.{
  ServiceCatalog, Candidates, answer, go_on, kept, next, got, keep, unique_or, check_signing_name,
  check_target, check_unique, by_rule, check_path, check_prefixes, by_name_of, check_host, finish,
  search, determine, determine_aws_service_model, for_host,
  determine_aws_service_model_for_data_plane,
}
use text.Mathlib.Text.{starts_with}
use Prim.Native.String
use Prim.Native.Char.{Char}

abbrev is_nil : String → Bool
is_nil String.[] = true
is_nil (String.◌∷◌ c s) = false

-- No key of the index, with a dot, is a prefix of the host.
abbrev pub no_prefix : String → Index → Bool
no_prefix host [] = true
no_prefix host ((prefix, _) ∷ index) =
    not (starts_with host (String.◌++◌ prefix ".")) && no_prefix host index

module _ (catalog : ServiceCatalog)
    (pop : ServiceModelIdentifier → Candidates → ServiceModelIdentifier)
    (parse_dict_header : String → Header) where
  check_signing_name_unique :
      (name path : String) (c : ServiceModelIdentifier)
      → str_eq name "" ≡ false
      → by_signing_name name catalog.models ≡ c ∷ []
      → check_signing_name catalog (some name) path ≡ answer (got catalog c)
  unfolding check_signing_name unique_or
  check_signing_name_unique name path c h k = rw (h, k) refl

  finish_answered :
      (r : Request) (i : ServiceIndicators) (c : ServiceModelIdentifier)
      → check_signing_name catalog i.signing_name i.path ≡ answer (got catalog c)
      → finish catalog pop i.signing_name (search catalog r i) ≡ got catalog c
  unfolding finish search next
  finish_answered r i c h = rw h refl

  -- A request whose signing name, not empty, is that of exactly one model is for that model, whatever
  -- else the request says.
  pub determine_unique :
      (r : Request) (i : ServiceIndicators) (name : String) (c : ServiceModelIdentifier)
      → extract_service_indicators parse_dict_header r ≡ ok i
      → i.signing_name ≡ some name
      → str_eq name "" ≡ false
      → listed (λ m. m.signing_name ∷ []) name catalog.models ≡ c ∷ []
      → determine_aws_service_model catalog pop parse_dict_header r ≡ got catalog c
  unfolding determine_aws_service_model determine
  determine_unique r i name c h s n l = rw h (
      finish_answered r i c (
        rw s (
          check_signing_name_unique name i.path c n ((by_index-listed name catalog.models).1 ∙ l))))

  pub check_prefixes-none :
      (host : String) (index : Index) (cs : Candidates)
      → no_prefix host index ≡ true
      → check_prefixes catalog host index cs ≡ go_on cs
  unfolding check_prefixes
  check_prefixes-none host [] cs h = refl
  check_prefixes-none host ((prefix, found) ∷ index) cs h =
      ground (arith, check_prefixes-none host index cs)

  pub check_path-none :
      (path : String) (cs : Candidates)
      → custom_path_addressing_rules path ≡ none
      → check_path catalog path cs ≡ go_on cs
  unfolding check_path by_rule
  check_path-none path cs h = rw h (ground arith)

  cons_is_text : (c : Char) (s : String) → str_eq (String.◌∷◌ c s) "" ≡ false
  cons_is_text c s = elim (Bool-cases (str_eq (String.◌∷◌ c s) "")) [
    | inl e ↦ let f = ap is_nil ((eq_iff (String.◌∷◌ c s) "").0 e) in absurd (ground arith)
    | inr e ↦ e
  ]

  host_is_text :
      (host : String) (found : ServiceModelIdentifier)
      → custom_host_addressing_rules host ≡ some found
      → str_eq host "" ≡ false
  unfolding custom_host_addressing_rules has_infix
  host_is_text String.[] found h = ground arith
  host_is_text (String.◌∷◌ c s) found h = cons_is_text c s

  check_host-rule :
      (host : String) (found : ServiceModelIdentifier) (cs : Candidates)
      → custom_host_addressing_rules host ≡ some found
      → no_prefix host (endpoint_prefix_index catalog.models) ≡ true
      → check_host catalog host cs ≡ answer (err attribute_error)
  unfolding check_host next by_name_of
  check_host-rule host found cs h n =
      rw
        (
          host_is_text host found h,
          check_prefixes-none host (endpoint_prefix_index catalog.models) cs n,
          h,
        )
        refl

  abbrev pub plain : Request → ServiceIndicators
  plain r = record {
    signing_name = none;
    target_prefix = none;
    operation = none;
    host = r.host;
    path = r.path;
  }

  pub extract-plain :
      (r : Request)
      → r.authorization ≡ none
      → r.x_amz_target ≡ none
      → has_infix "rpc-v2-cbor" r.smithy_protocol ≡ false
      → extract_service_indicators parse_dict_header r ≡ ok (plain r)
  unfolding extract_service_indicators signing_name_of amz_target
  extract-plain r a t s = rw (a, s, t) refl

  finish-rule :
      (r : Request) (found : ServiceModelIdentifier)
      → custom_path_addressing_rules r.path ≡ none
      → custom_host_addressing_rules r.host ≡ some found
      → no_prefix r.host (endpoint_prefix_index catalog.models) ≡ true
      → finish catalog pop none (search catalog r (plain r)) ≡ err attribute_error
  unfolding finish search next check_signing_name check_target kept keep check_unique unique_or
  finish-rule r found p h n =
      rw (check_path-none r.path [] p, check_host-rule r.host found [] h n) refl

  -- A request without credentials and target whose host one of the host rules gives a service, while
  -- no endpoint prefix of the catalog and no path rule does, gets that service's model on the data
  -- plane, but raises an AttributeError in the general search.
  pub determine-rule :
      (r : Request) (found : ServiceModelIdentifier)
      → r.authorization ≡ none
      → r.x_amz_target ≡ none
      → has_infix "rpc-v2-cbor" r.smithy_protocol ≡ false
      → custom_path_addressing_rules r.path ≡ none
      → custom_host_addressing_rules r.host ≡ some found
      → no_prefix r.host (endpoint_prefix_index catalog.models) ≡ true
      → (determine_aws_service_model catalog pop parse_dict_header r ≡ err attribute_error)
        × (determine_aws_service_model_for_data_plane catalog r ≡ got catalog found)
  unfolding determine_aws_service_model determine determine_aws_service_model_for_data_plane
      for_host
  determine-rule r found a t s p h n =
      (rw (extract-plain r a t s) (finish-rule r found p h n), rw h refl)
