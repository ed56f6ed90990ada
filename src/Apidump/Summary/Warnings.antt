-- ===== src/Apidump/Summary/Warnings.antt =====
-- What the warnings of apidump/summary.go conclude.
use observability_cli.Prelude.{
  ◌≡◌, refl, ap, ◌∙◌, Bool, true, false, not, ◌&&◌, ◌||◌, List, [], ◌∷◌, ◌++◌, nat_beq, ltb, arith,
  if◌then◌else◌, if_cases,
}
use observability_cli.Apidump.Summary.{
  Summary, Line, no_http_calls, no_requests, no_responses, Surroundings, explanation,
  try_native_agent, when, problem_lines, lines_of_none, is_empty, print_warnings,
}

abbrev pub is_no_http_calls : Line → Bool
is_no_http_calls no_http_calls = true
is_no_http_calls _ = false

abbrev pub is_one_sided : Line → Bool
is_one_sided no_requests = true
is_one_sided no_responses = true
is_one_sided _ = false

abbrev pub any : (Line → Bool) → List Line → Bool
any p [] = false
any p (l ∷ ls) = p l || any p ls

any-append : (p : Line → Bool) (xs ys : List Line) → any p (xs ++ ys) ≡ any p xs || any p ys
any-append p [] ys = refl
any-append p (x ∷ xs) ys = ground (arith, any-append p xs ys)

explanation-quiet :
    (s : Summary)
    → (any is_no_http_calls (explanation s) ≡ false) × (any is_one_sided (explanation s) ≡ false)
unfolding explanation
explanation-quiet s = ground arith

problem_lines-quiet :
    (env : Surroundings)
    → (any is_no_http_calls (problem_lines env) ≡ false)
      × (any is_one_sided (problem_lines env) ≡ false)
unfolding problem_lines
problem_lines-quiet env =
    if_cases (λ (ls : List Line). (any is_no_http_calls ls ≡ false) × (any is_one_sided ls ≡ false))
      (ltb 0 env.count_nil_assembler_context
        || (ltb 0 env.count_nil_assembler_context_after_parse
            || ltb 0 env.count_bad_assembler_context_type))
      (λ _. (refl, refl)) (λ _. (refl, refl))

advice : (b : Bool) → List Line
advice b = when b try_native_agent ++ no_http_calls ∷ []

advice-lines :
    (b : Bool) → (any is_no_http_calls (advice b) ≡ true) × (any is_one_sided (advice b) ≡ false)
unfolding advice
advice-lines true = (refl, refl)
advice-lines false = (refl, refl)

lines_of_none-lines :
    (env : Surroundings) (s : Summary)
    → (any is_no_http_calls (lines_of_none env s) ≡ true)
      × (any is_one_sided (lines_of_none env s) ≡ false)
unfolding lines_of_none advice
lines_of_none-lines env s =
    let docker = env.in_docker && env.has_docker_internal_host_address in
    let (calls, sides) = explanation-quiet s in
    let (calls', sides') = advice-lines docker in
    (
      any-append is_no_http_calls (explanation s) (advice docker)
          ∙ ap (λ b. b || any is_no_http_calls (advice docker)) calls
          ∙ calls',
      any-append is_one_sided (explanation s) (advice docker)
          ∙ ap (λ b. b || any is_one_sided (advice docker)) sides
          ∙ sides',
    )

conclusion-lines :
    (env : Surroundings) (s : Summary) (a b : Bool)
    → let ls = if a && b then lines_of_none env s else when a no_requests ++ when b no_responses in
      (any is_no_http_calls ls ≡ (a && b)) × (any is_one_sided ls ≡ (a && not b || not a && b))
conclusion-lines env s true true = lines_of_none-lines env s
conclusion-lines env s true false = (refl, refl)
conclusion-lines env s false true = (refl, refl)
conclusion-lines env s false false = (refl, refl)

-- PrintWarnings says that there were no HTTP calls exactly if IsEmpty holds of the summary, whatever
-- the surroundings; and that there were only requests or only responses exactly if one of the two
-- counts is zero and the other is not.
pub print_warnings-is_empty :
    (env : Surroundings) (s : Summary)
    → let total = s.filter_summary.total in
      (any is_no_http_calls (print_warnings env s) ≡ is_empty s)
      × (any is_one_sided (print_warnings env s) ≡ (
          nat_beq total.http_requests 0 && not (nat_beq total.http_responses 0)
          || not (nat_beq total.http_requests 0) && nat_beq total.http_responses 0))
unfolding print_warnings is_empty
print_warnings-is_empty env s =
    let a = nat_beq s.filter_summary.total.http_requests 0 in
    let b = nat_beq s.filter_summary.total.http_responses 0 in
    let ls = if a && b then lines_of_none env s else when a no_requests ++ when b no_responses in
    let (calls, sides) = problem_lines-quiet env in
    let (calls', sides') = conclusion-lines env s a b in
    (
      any-append is_no_http_calls (problem_lines env) ls
          ∙ ap (λ x. x || any is_no_http_calls ls) calls
          ∙ calls',
      any-append is_one_sided (problem_lines env) ls
          ∙ ap (λ x. x || any is_one_sided ls) sides
          ∙ sides',
    )
