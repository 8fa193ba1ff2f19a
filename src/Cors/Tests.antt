-- ===== src/Cors/Tests.antt =====
-- Some requests, decided.
use localstack_bb.Base.{◌≡◌, ◌↔◌, refl, String, false, Option, none, some, [], ◌∷◌}
use localstack_bb.Base.Text.{contains}
use localstack_bb.Cors.{
  Config, Request, terminated, stopped, enforce, should_enforce, is_execute_api_call, has_infix,
  is_cors_origin_allowed, is_in_allowed_origins, match_dynamic, until_colon, read_digits,
}
use localstack_bb.Cors.Decisions.{SelfManaged, Disallowed, enforce_blocks}

abbrev config : Config
config = record {
  disable_custom_cors_s3 = false;
  disable_custom_cors_apigateway = false;
  disable_cors_checks = false;
  disable_preflight_processing = false;
  allowed_cors_origins = "https://app.localstack.cloud" ∷ [];
  allowed_internal_domains = "localhost" ∷ [];
  allowed_internal_ports = 4566 ∷ [];
  referer_origin = λ s. s;
}

abbrev request : Option String → Request
request origin = record {
  service_name = some "sqs";
  host = "localhost:4566";
  path = "/";
  method = "OPTIONS";
  origin = origin;
  referer = none;
}

blocked : enforce config (request (some "https://evil.example")) ≡ terminated 403
unfolding enforce should_enforce is_execute_api_call has_infix is_cors_origin_allowed
    is_in_allowed_origins match_dynamic until_colon read_digits contains
blocked = refl

preflight : enforce config (request (some "https://app.localstack.cloud")) ≡ stopped 204
unfolding blocked
preflight = refl

internal : enforce config (request (some "http://site.s3-website.localhost:4566")) ≡ stopped 204
unfolding blocked
internal = refl

-- The pattern of a dynamic origin is not anchored at its end.
trailing_text :
    enforce config (request (some "http://site.s3-website.localhost:4566.evil.example"))
    ≡ stopped 204
unfolding blocked
trailing_text = refl

enforce_blocks_example :
    (enforce config (request (some "https://evil.example")) ≡ terminated 403) ↔ (
      (¬ SelfManaged config (request (some "https://evil.example")))
      × ((config.disable_cors_checks ≡ false)
          × Disallowed config (request (some "https://evil.example"))))
enforce_blocks_example = enforce_blocks config (request (some "https://evil.example"))

matched :
    match_dynamic ".s3-website." "http://site.s3-website.localhost:4566"
    ≡ some ("localhost", some 4566)
unfolding match_dynamic until_colon read_digits
matched = refl
