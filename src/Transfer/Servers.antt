-- ===== src/Transfer/Servers.antt =====
-- Server ids, and a server that is created and described.
use Prim.Native.Char.{Char, code}
use text.Mathlib.TextLemmas.{nil-append, cons-append}
use localstack_bb.Base.{
  ℕ, zero, suc, ◌≤◌, String, ◌≡◌, refl, inl, inr, Bool, true, ◌&&◌, ◌||◌, arith, Bool-cases,
  str_eq_self, if◌then◌else◌, ◌==◌,
}
use localstack_bb.Base.Dict.{lookup-insert}
use localstack_bb.Base.Result.{ok}
use localstack_bb.Base.Text.{is_hex_digit}
use localstack_bb.Transfer.{
  TransferStore, RequestContext, online, server_arn, new_server, is_server_id, hex_run,
  generate_server_id, without_dashes, first_chars, create_server_in, describe_server_in,
}
use localstack_bb.Transfer.Backend.{Backend, create_server, describe_server}

-- The text of a UUID: 32 hexadecimal digits in lower case, with dashes between them.
abbrev is_uuid_char : Char → Bool
is_uuid_char c = is_hex_digit c || (code c == b'-')

unfoldable pub only_uuid_chars : String → Bool
only_uuid_chars String.[] = true
only_uuid_chars (String.◌∷◌ c s) = is_uuid_char c && only_uuid_chars s

unfoldable pub count_digits : String → ℕ
count_digits String.[] = 0
count_digits (String.◌∷◌ c s) = let n = count_digits s in if code c == b'-' then n else suc n

pub record IsUuid (uuid : String) : Type 0 where
  pub form : only_uuid_chars uuid ≡ true
  pub digits : count_digits uuid ≡ 32

hex_run-first_chars :
    (n : ℕ) (uuid : String)
    → only_uuid_chars uuid ≡ true
    → n ≤ count_digits uuid
    → hex_run n (first_chars n (without_dashes uuid)) ≡ true
unfolding only_uuid_chars count_digits hex_run without_dashes first_chars
hex_run-first_chars zero uuid f d = refl
hex_run-first_chars (suc n) String.[] f d = absurd (omega arith)
hex_run-first_chars (suc n) (String.◌∷◌ c s) f d = elim (Bool-cases (code c == b'-')) [
  | inl dash ↦ rw dash (hex_run-first_chars (suc n) s (ground arith) (ground arith))
  | inr digit ↦ ground (arith, hex_run-first_chars n s)
]

-- The id that the provider generates from a UUID passes its own validation.
pub is_server_id-generate_server_id :
    (uuid : String) → IsUuid uuid → is_server_id (generate_server_id uuid) ≡ true
unfolding generate_server_id is_server_id
is_server_id-generate_server_id uuid u =
    rw (cons-append, cons-append, nil-append)
      (hex_run-first_chars 17 uuid u.form (omega (arith, u.digits)))

module _ (b : Backend) (ctx : RequestContext) where
  -- A server that was created from a UUID, in an account and region whose store is read without an
  -- error, is described, under the id that was returned, as online and with its ARN.
  pub describe-create_server :
      (uuid : String) (s : b.State) (store : TransferStore)
      → IsUuid uuid
      → b.access ctx.account_id ctx.region s ≡ ok store
      → ((create_server b ctx uuid s).0 ≡ ok (generate_server_id uuid))
        × ((describe_server b ctx (generate_server_id uuid) (create_server b ctx uuid s).1).0
            ≡ ok (record {
              server_id = generate_server_id uuid;
              arn = server_arn ctx (generate_server_id uuid);
              state = online;
            }))
  unfolding create_server describe_server create_server_in describe_server_in
  describe-create_server uuid s store u opened =
      let id = generate_server_id uuid in
      let new = (create_server_in ctx id store).1 in
      ground (
        arith,
        is_server_id-generate_server_id uuid u,
        b.access-commit_self ctx.account_id ctx.region store new s,
        lookup-insert id id (new_server ctx id) store.servers,
        str_eq_self id,
      )
