-- ===== src/Useragent.antt =====
-- useragent/useragent.go: how the agent names itself, printed and read back. A text is the list of
-- its code points.
pub mod Capture
pub mod RoundTrip
pub mod Examples
use Prim.Native.Char.{code}
use observability_cli.Prelude.{
  ℕ, ◌⊎◌, inl, inr, Bool, true, false, Option, none, some, List, [], ◌∷◌, ◌++◌, String, nat_beq,
  if◌then◌else◌,
}

abbrev pub Text : Type 0
Text = List ℕ

abbrev pub codes : String → Text
codes String.[] = []
codes (String.◌∷◌ c s) = code c ∷ codes s

unfoldable pub text_beq : Text → Text → Bool
text_beq [] [] = true
text_beq (a ∷ s) (b ∷ t) = let rest = text_beq s t in if nat_beq a b then rest else false
text_beq _ _ = false

-- What follows a prefix.
unfoldable pub strip_prefix : Text → Text → Option Text
strip_prefix [] s = some s
strip_prefix (_ ∷ _) [] = none
strip_prefix (a ∷ p) (b ∷ s) = let rest = strip_prefix p s in if nat_beq a b then rest else none

-- The library `go-version`: `NewSemver` and `String`.
pub record SemVer (V : Type 0) : Type 0 where
  pub new_semver : Text → Option V
  pub version_string : V → Text

-- The `default` cases of the source are unreachable for these two constants.
pub data EnvType : Type 0 where
  env_host env_docker : EnvType

unfoldable pub env_type_string : EnvType → Text
env_type_string env_host = codes "host"
env_type_string env_docker = codes "docker"

pub data ParseError : Type 0 where
  unmatched_groups : ParseError
  bad_version : Text → ParseError
  invalid_env_type : Text → ParseError

unfoldable pub env_type_from_string : Text → ParseError ⊎ EnvType
env_type_from_string s =
    if text_beq s (codes "host")
    then inr env_host
    else if text_beq s (codes "docker")
    then inr env_docker
    else inl (invalid_env_type s)

pub record Ua (V : Type 0) : Type 0 where
  pub version : V
  pub os : Text
  pub arch : Text
  pub env_type : EnvType

-- The texts between the groups of `uaRegexp`.
abbrev pub agent : Text
agent = codes "postman-insights-agent/"

abbrev pub opening : Text
opening = codes " ("

abbrev pub separator : Text
separator = codes "; "

abbrev pub closing : Text
closing = codes ")"

unfoldable pub ua_string : {V : Type 0} → SemVer V → Ua V → Text
ua_string lib ua =
    agent
    ++ (lib.version_string ua.version
        ++ (opening
            ++ (ua.os
                ++ (separator
                    ++ (ua.arch ++ (separator ++ (env_type_string ua.env_type ++ closing)))))))

abbrev or_else {ℓ} : {A : Type ℓ} → Option A → Option A → Option A
or_else (some a) o = some a
or_else none o = o

-- `k` on what follows the text `sep`, if it is there.
unfoldable pub after {ℓ} : {R : Type ℓ} → Text → (Text → Option R) → Text → Option R
after sep k s = elim (strip_prefix sep s) [ none ↦ none | some rest ↦ k rest ]

abbrev prepend {ℓ} : {R : Type ℓ} → ℕ → Option (Text × R) → Option (Text × R)
prepend c none = none
prepend c (some (g, r)) = some (c ∷ g, r)

abbrev with_group {ℓ} : {R : Type ℓ} → Option R → Option (Text × R)
with_group none = none
with_group (some r) = some ([], r)

-- `(.*)`, then `sep`, then `k`: the group is the longest without a line break for which the rest
-- matches.
unfoldable pub capture {ℓ} : {R : Type ℓ} → Text → (Text → Option R) → Text → Option (Text × R)
capture sep k [] = with_group (after sep k [])
capture sep k (c ∷ s) =
    let longer = prepend c (capture sep k s) in
    or_else (if nat_beq c b'\n' then none else longer) (with_group (after sep k (c ∷ s)))

-- `$`
unfoldable pub at_end : Text → Option (Unit {0})
at_end [] = some tt
at_end (_ ∷ _) = none

-- The four groups of `uaRegexp`.
unfoldable pub find_submatch : Text → Option (Text × (Text × (Text × (Text × Unit {0}))))
find_submatch s =
    after agent (capture opening (capture separator (capture separator (capture closing at_end)))) s

unfoldable pub from_groups : {V : Type 0} → SemVer V → Text → Text → Text → Text → ParseError ⊎ Ua V
from_groups lib version os arch env = elim (lib.new_semver version) [
  | none ↦ inl (bad_version version)
  | some v ↦ elim (env_type_from_string env) [
    | inl e ↦ inl e
    | inr t ↦ inr (record { version = v; os = os; arch = arch; env_type = t })
  ]
]

unfoldable pub from_string : {V : Type 0} → SemVer V → Text → ParseError ⊎ Ua V
from_string lib s = elim (find_submatch s) [
  | none ↦ inl unmatched_groups
  | some (version, (os, (arch, (env, _)))) ↦ from_groups lib version os arch env
]
