-- ===== src/Useragent/Examples.antt =====
-- A user agent of useragent/useragent.go, with versions that are their texts.
use observability_cli.Prelude.{◌≡◌, refl, inl, inr, some, arith}
use observability_cli.Useragent.{
  Text, codes, SemVer, Ua, env_docker, from_string, ua_string, invalid_env_type, unmatched_groups,
  find_submatch, from_groups, env_type_from_string, after, capture, at_end, strip_prefix, text_beq,
}
use observability_cli.Useragent.RoundTrip.{from_string-ua_string}

abbrev texts : SemVer Text
texts = record { new_semver = λ t. some t; version_string = λ t. t }

abbrev agent_on_linux : Ua Text
agent_on_linux = record {
  version = codes "0.36.1 (dev; local)";
  os = codes "linux";
  arch = codes "amd64";
  env_type = env_docker;
}

from_string-ua_string_example :
    from_string texts (ua_string texts agent_on_linux) ≡ inr agent_on_linux
from_string-ua_string_example =
    from_string-ua_string texts agent_on_linux refl (ground arith) (ground arith) (ground arith)

from_string_env :
    from_string texts (codes "postman-insights-agent/1.0.0 (a; b; c; moon)")
    ≡ inl (invalid_env_type (codes "moon"))
unfolding from_string find_submatch from_groups env_type_from_string after capture at_end
    strip_prefix text_beq
from_string_env = refl

from_string_unmatched : from_string texts (codes "curl/7.0") ≡ inl unmatched_groups
unfolding from_string find_submatch after capture strip_prefix
from_string_unmatched = refl
