-- ===== src/Useragent/RoundTrip.antt =====
-- What useragent/useragent.go prints, it reads back.
use observability_cli.Prelude.{
  ℕ, ◌≤◌, ◌≡◌, refl, ◌≢◌, ap, ◌∙◌, ◌⊎◌, inl, inr, Option, none, some, [], ◌∷◌, ◌++◌, nat_beq, arith,
  count_if-append, All,
}
use observability_cli.Useragent.{
  Text, strip_prefix, text_beq, SemVer, EnvType, env_host, env_docker, env_type_string, ParseError,
  unmatched_groups, env_type_from_string, Ua, agent, opening, separator, closing, ua_string, after,
  capture, at_end, find_submatch, from_groups, from_string,
}
use observability_cli.Useragent.Capture.{
  count, after-append, capture-none, capture-count, capture-append, capture-here,
}

-- A text without a line break, a blank or a semicolon.
abbrev pub IsWord : Text → Type 0
IsWord = All (λ c. (c ≢ b'\n') × (c ≢ b' ') × (c ≢ b';'))

abbrev pub IsLine : Text → Type 0
IsLine = All (λ c. c ≢ b'\n')

IsWord-IsLine : (s : Text) → IsWord s → IsLine s
IsWord-IsLine [] h = tt
IsWord-IsLine (c ∷ s) (h, hs) = (h.0, IsWord-IsLine s hs)

count-IsWord : (s : Text) → IsWord s → (count b' ' s ≡ 0) × (count b';' s ≡ 0)
count-IsWord [] h = (refl, refl)
count-IsWord (c ∷ s) (h, hs) = ground (arith, count-IsWord s hs)

abbrev fourth : Text → Option (Text × Unit {0})
fourth = capture closing at_end

abbrev third : Text → Option (Text × (Text × Unit {0}))
third = capture separator fourth

abbrev second : Text → Option (Text × (Text × (Text × Unit {0})))
second = capture separator third

module _ (os arch env : Text) (os_word : IsWord os) (arch_word : IsWord arch)
    (env_word : IsWord env) where
  abbrev tail_env : Text
  tail_env = env ++ closing

  abbrev tail_arch : Text
  tail_arch = arch ++ (separator ++ tail_env)

  abbrev tail_os : Text
  tail_os = os ++ (separator ++ tail_arch)

  counts_env : (count b' ' tail_env ≡ 0) × (count b';' tail_env ≡ 0)
  counts_env =
      let (blanks, semicolons) = count-IsWord env env_word in
      (
        omega (arith, blanks, count_if-append (nat_beq b' ') env closing),
        omega (arith, semicolons, count_if-append (nat_beq b';') env closing),
      )

  counts_arch : (count b' ' tail_arch ≡ 1) × (count b';' tail_arch ≡ 1)
  counts_arch =
      let (blanks, semicolons) = count-IsWord arch arch_word in
      let (b, s) = counts_env in
      (
        omega (arith, blanks, b, count_if-append (nat_beq b' ') arch (separator ++ tail_env)),
        omega (arith, semicolons, s, count_if-append (nat_beq b';') arch (separator ++ tail_env)),
      )

  counts_os : count b' ' tail_os ≡ 2
  counts_os = omega (
    arith,
    (count-IsWord os os_word).0,
    counts_arch.0,
    count_if-append (nat_beq b' ') os (separator ++ tail_arch),
  )

  fourth-env : fourth tail_env ≡ some (env, tt)
  unfolding capture after at_end strip_prefix
  fourth-env =
      capture-append closing at_end env closing tt (IsWord-IsLine env env_word)
        (capture-here b')' [] at_end [] tt refl refl)

  third-arch : third tail_arch ≡ some (arch, (env, tt))
  third-arch =
      capture-append separator fourth arch (separator ++ tail_env) (env, tt)
        (IsWord-IsLine arch arch_word)
        (capture-here b';' (b' ' ∷ []) fourth tail_env (env, tt) fourth-env
          (capture-none separator fourth b';' 0 (λ _ _ _. omega arith) (b' ' ∷ tail_env)
            (omega (arith, counts_env.1))))

  third_needs :
      (c : ℕ) (rest : Text) (r : Text × (Text × Unit {0}))
      → third rest ≡ some r
      → count c separator ≤ count c rest
  third_needs c rest r e =
      omega (arith, capture-count separator fourth c 0 (λ _ _ _. omega arith) rest r e)

  second-os : second tail_os ≡ some (os, (arch, (env, tt)))
  second-os =
      capture-append separator third os (separator ++ tail_arch) (arch, (env, tt))
        (IsWord-IsLine os os_word)
        (capture-here b';' (b' ' ∷ []) third tail_arch (arch, (env, tt)) third-arch
          (capture-none separator third b';' 1 (third_needs b';') (b' ' ∷ tail_arch)
            (omega (arith, counts_arch.1))))

  second_needs :
      (rest : Text) (r : Text × (Text × (Text × Unit {0})))
      → second rest ≡ some r
      → 2 ≤ count b' ' rest
  second_needs rest r e =
      omega (arith, capture-count separator third b' ' 1 (third_needs b' ') rest r e)

  find_submatch-groups :
      (version : Text)
      → IsLine version
      → find_submatch (agent ++ (version ++ (opening ++ tail_os)))
        ≡ some (version, (os, (arch, (env, tt))))
  unfolding find_submatch
  find_submatch-groups version line =
      after-append agent (capture opening second) (version ++ (opening ++ tail_os))
      ∙ capture-append opening second version (opening ++ tail_os) (os, (arch, (env, tt))) line
          (capture-here b' ' (b'(' ∷ []) second tail_os (os, (arch, (env, tt))) second-os
            (capture-none opening second b' ' 2 second_needs (b'(' ∷ tail_os)
              (omega (arith, counts_os))))

env_type_string-IsWord : (e : EnvType) → IsWord (env_type_string e)
unfolding env_type_string
env_type_string-IsWord env_host = ground arith
env_type_string-IsWord env_docker = ground arith

env_type_from_string-env_type_string :
    (e : EnvType) → env_type_from_string (env_type_string e) ≡ inr e
unfolding env_type_from_string env_type_string text_beq
env_type_from_string-env_type_string env_host = refl
env_type_from_string-env_type_string env_docker = refl

module _ {V : Type 0} (lib : SemVer V) where
  from_groups-ua :
      (ua : Ua V)
      → lib.new_semver (lib.version_string ua.version) ≡ some ua.version
      → from_groups lib (lib.version_string ua.version) ua.os ua.arch (env_type_string ua.env_type)
        ≡ inr ua
  unfolding from_groups
  from_groups-ua ua same = ground (arith, same, env_type_from_string-env_type_string ua.env_type)

  -- A user agent whose version prints to one line that reads back, and whose OS and architecture
  -- have no line break, blank or semicolon, is read back from what it prints.
  pub from_string-ua_string :
      (ua : Ua V)
      → lib.new_semver (lib.version_string ua.version) ≡ some ua.version
      → IsLine (lib.version_string ua.version)
      → IsWord ua.os
      → IsWord ua.arch
      → from_string lib (ua_string lib ua) ≡ inr ua
  unfolding from_string ua_string
  from_string-ua_string ua same line os_word arch_word =
      let env = env_type_string ua.env_type in
      let groups =
        find_submatch-groups ua.os ua.arch env os_word arch_word
          (env_type_string-IsWord ua.env_type) (lib.version_string ua.version) line in
      ap
        (λ (o : Option (Text × (Text × (Text × (Text × Unit {0}))))).
          elim o as (λ _. ParseError ⊎ Ua V) [
            | none ↦ inl unmatched_groups
            | some (version, (os, (arch, (e, _)))) ↦ from_groups lib version os arch e
          ])
        groups
      ∙ from_groups-ua ua same
