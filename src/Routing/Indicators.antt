-- ===== src/Routing/Indicators.antt =====
-- _extract_service_indicators of localstack-core/localstack/aws/protocol/service_router.py. The
-- dictionary header is parsed by werkzeug, which is a parameter.
use localstack_bb.Base.{
  ◌+◌, String, Bool, false, ◌&&◌, ◌||◌, Option, none, some, List, [], ◌∷◌, leb, ◌==◌, str_eq,
  if◌then◌else◌, any, last?,
}
use localstack_bb.Base.Dict.{Dict, lookup}
use localstack_bb.Base.Text.{split, strip_left, has_char, split_at_first}
use localstack_bb.Cors.{has_infix}
use localstack_bb.Routing.{Request, RouteError, attribute_error}
use localstack_bb.Base.Result.{Result, ok, err, ◌>>=◌}
use Prim.Native.Char.{Char, code}

pub record ServiceIndicators : Type 0 where
  pub signing_name : Option String
  pub target_prefix : Option String
  pub operation : Option String
  pub host : String
  pub path : String

-- The white space at which `split` without a separator cuts.
unfoldable pub is_space : Char → Bool
is_space c =
    let n = code c in
    (leb 9 n && leb n 13)
    || ((leb 28 n && leb n 32)
        || ((leb 0x2000 n && leb n 0x200a)
            || any (λ m. n == m)
                (0x85 ∷ 0xa0 ∷ 0x1680 ∷ 0x2028 ∷ 0x2029 ∷ 0x202f ∷ 0x205f ∷ 0x3000 ∷ [])))

unfoldable pub strip_spaces : String → String
strip_spaces String.[] = ""
strip_spaces (String.◌∷◌ c s) =
    let rest = strip_spaces s in if is_space c then rest else String.◌∷◌ c s

unfoldable pub until_space : String → String × String
until_space String.[] = ("", "")
until_space (String.◌∷◌ c s) =
    let (word, rest) = until_space s in if is_space c then ("", s) else (String.◌∷◌ c word, rest)

-- `auth_type, auth_info = authorization.split(None, 1)`: none is a ValueError, of fewer than two
-- words.
unfoldable pub two_words : String → Option (String × String)
two_words s =
    let (word, rest) = until_space (strip_spaces s) in
    let info = strip_spaces rest in if str_eq info "" then none else some (word, info)

-- Equal to a text of small ASCII letters when both are put in lower case.
unfoldable pub equals_lower : String → String → Bool
equals_lower String.[] t = str_eq t ""
equals_lower (String.◌∷◌ c s) String.[] = false
equals_lower (String.◌∷◌ c s) (String.◌∷◌ d t) =
    (code c == code d || (leb 65 (code c) && (leb (code c) 90 && code c + 32 == code d)))
    && equals_lower s t

-- `_, _, _, signing_name, _ = credential.split("/")`
unfoldable pub signing_part : List String → Option String
signing_part (_ ∷ _ ∷ _ ∷ name ∷ _ ∷ []) = some name
signing_part _ = none

-- A header of werkzeug: the names with their values, if they have one.
abbrev pub Header : Type 0
Header = Dict (Option String)

-- What cannot be parsed is logged and counts as no name, except for a credential without a value:
-- `None.split` is an AttributeError, which is not caught.
unfoldable pub signing_of_credential : Option (Option String) → Result RouteError (Option String)
signing_of_credential none = ok none
signing_of_credential (some none) = err attribute_error
signing_of_credential (some (some credential)) = ok (signing_part (split b'/' credential))

unfoldable pub signing_name_of :
    (String → Header) → Option String → Result RouteError (Option String)
signing_name_of parse_dict_header none = ok none
signing_name_of parse_dict_header (some authorization) = elim (two_words authorization) [
  | none ↦ ok none
  | some (auth_type, auth_info) ↦
      if equals_lower auth_type "aws4-hmac-sha256"
      then signing_of_credential (lookup "Credential" (parse_dict_header auth_info))
      else ok none
]

-- The last four segments of the path: the service shape is the third last, the operation the last.
unfoldable pub rpc_segments : List String → Option (String × String)
rpc_segments [] = none
rpc_segments (a ∷ xs) =
    let rest = rpc_segments xs in
    elim xs [
      | b ∷ ys ↦ elim ys [
        | c ∷ zs ↦ elim zs [ d ∷ more ↦ elim more [ [] ↦ some (b, d) | _ ∷ _ ↦ rest ] | [] ↦ none ]
        | [] ↦ none
      ]
      | [] ↦ none
    ]

unfoldable pub rpc_target : String → Option String × Option String
rpc_target path = elim (rpc_segments (split b'/' (strip_left b'/' path))) [
  | none ↦ (none, none)
  | some (shape, operation) ↦ (last? (split b'#' shape), some operation)
]

-- An empty header counts as none.
unfoldable pub amz_target : Option String → Option String × Option String
amz_target none = (none, none)
amz_target (some target) =
    if str_eq target ""
    then (none, none)
    else if has_char b'.' target
    then (let (prefix, operation) = split_at_first b'.' target in (some prefix, some operation))
    else (none, some target)

unfoldable pub extract_service_indicators :
    (String → Header) → Request → Result RouteError ServiceIndicators
extract_service_indicators parse_dict_header r = do
  signing ← signing_name_of parse_dict_header r.authorization
  let (prefix, operation) =
      if has_infix "rpc-v2-cbor" r.smithy_protocol
      then rpc_target r.path
      else amz_target r.x_amz_target
  ok (record {
    signing_name = signing;
    target_prefix = prefix;
    operation = operation;
    host = r.host;
    path = r.path;
  })
