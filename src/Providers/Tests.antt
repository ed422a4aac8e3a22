-- ===== src/Providers/Tests.antt =====
-- Runs of the registry of providers.
use zero_agent.Base.{
  ℕ, ◌+◌, ◌≡◌, ◌≢◌, refl, pos, false, [], ◌∷◌, Option, none, some, String, codes, All, arith,
  fetch_one, select, update_where, Result, ok, err, if◌then◌else◌, ◌==◌, string_eq,
}
use zero_agent.Providers.Limiter.{drop_old, allow_under, allow}
use zero_agent.Providers.Profile.{
  Profile, openai_compatible, is_separator, make_profile, make_profile-opaque,
}
use zero_agent.Providers.Registry.{
  Completion, Registry, register, record_usage, requests_of, attempt, attempt_chain, complete,
}
use zero_agent.Providers.Usage.{CountedResult, complete-Counted}

program : Unit {0}
unfolding fetch_one select update_where drop_old allow_under allow register record_usage requests_of
    attempt attempt_chain complete
program = tt

abbrev leaky : Profile
leaky = record {
  name = "main";
  kind = openai_compatible;
  model = "m";
  base_url = "";
  secret_ref = some "a.abcdefghijklmnopqrstuvwxyz";
  timeout_seconds = pos 45;
  context_limit = pos 8192;
  max_retries = pos 1;
  requests_per_minute = some 1;
}

plain_letters : All (λ c. is_separator c ≡ false) (codes "abcdefghijklmnopqrstuvwxyz")
plain_letters = (
  refl,
  (
    refl,
    (
      refl,
      (
        refl,
        (
          refl,
          (
            refl,
            (
              refl,
              (
                refl,
                (
                  refl,
                  (
                    refl,
                    (
                      refl,
                      (
                        refl,
                        (
                          refl,
                          (
                            refl,
                            (
                              refl,
                              (
                                refl,
                                (
                                  refl,
                                  (
                                    refl,
                                    (
                                      refl,
                                      (refl, (refl, (refl, (refl, (refl, (refl, (refl, tt))))))),
                                    ),
                                  ),
                                ),
                              ),
                            ),
                          ),
                        ),
                      ),
                    ),
                  ),
                ),
              ),
            ),
          ),
        ),
      ),
    ),
  ),
)

make_profile-opaque_example : make_profile leaky ≢ ok leaky
make_profile-opaque_example =
    make_profile-opaque leaky leaky "a.abcdefghijklmnopqrstuvwxyz" (codes "a.")
      (codes "abcdefghijklmnopqrstuvwxyz") [] refl refl plain_letters (omega arith)

-- the first profile fails, the second answers
abbrev answers : String → ℕ → Option Completion
answers n at =
    if n == "spare"
    then some (record { text = "hi"; input_tokens = 3; output_tokens = 4 })
    else none

abbrev registry_of : Result Registry → Registry
registry_of (ok reg) = reg
registry_of (err e) = record { entries = []; usages = [] }

abbrev two : Registry
two = registry_of (
    register (record leaky { name = "spare"; secret_ref = none })
      (registry_of
        (register (record leaky { secret_ref = none }) (record { entries = []; usages = [] }))))

abbrev end : Result (String × Completion) × Registry
end = complete answers "main" ("spare" ∷ []) (λ k. 100 + k) two

one_request : requests_of "spare" end.1.usages ≡ 1
unfolding program
one_request = refl

complete-Counted_example : CountedResult two.usages end.1.usages end.0
complete-Counted_example = complete-Counted answers "main" ("spare" ∷ []) (λ k. 100 + k) two
