-- ===== src/Ecs/Queries/Secrets.antt =====
-- cmd/internal/ecs/aws_api_secret.go: the wizard's secrets.
use observability_cli.Prelude.{
  Bool, true, false, Option, List, [], ◌∷◌, String, string_eq, ◌==◌, if◌then◌else◌,
}
use observability_cli.Ecs.State.{Answer, ok, creation_tag}
use observability_cli.Ecs.Queries.{Call, wrap_unauthorized, ◌>>=◌, to_string}

-- secretState
pub record SecretState : Type 0 where
  pub id_exists : Bool
  pub id_arn : String
  pub secret_exists : Bool
  pub secret_arn : String

-- The secrets of the list, each a name and an ARN.
unfoldable pub find_secrets : List (String × String) → SecretState → SecretState
find_secrets [] state = state
find_secrets ((name, arn) ∷ secrets) state = find_secrets secrets (
    if name == "postman/api_key_id"
    then record state { id_exists = true; id_arn = arn }
    else if name == "postman/api_key_secret"
    then record state { secret_exists = true; secret_arn = arn }
    else state)

unfoldable pub check_akita_secrets : Call (List (String × String)) → Answer SecretState
check_akita_secrets listed = do
  secrets ← wrap_unauthorized listed
  ok (
      find_secrets secrets
        (record { id_exists = false; id_arn = ""; secret_exists = false; secret_arn = "" }))

-- CreateSecretInput, with the keys and values of its tags.
pub record CreateSecretInput : Type 0 where
  pub name : String
  pub description : String
  pub secret_string : String
  pub tags : List (String × String)

-- createAkitaSecret; `create_secret` is the call of AWS, which returns the secret's ARN.
unfoldable pub create_akita_secret :
    (CreateSecretInput → Call (Option String)) → String → String → String → Answer String
create_akita_secret create_secret secret_name secret_text description = do
  arn ← wrap_unauthorized (
      create_secret (record {
        name = secret_name;
        description = description;
        secret_string = secret_text;
        tags = (creation_tag, "Postman Insights ECS integration") ∷ [];
      }))
  ok (to_string arn)
