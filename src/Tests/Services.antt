-- ===== src/Tests/Services.antt =====
-- Answers of the VPN and the authentication service, for the tests of gobds/service.
use gobds.Base.{
  ℕ, ◌+◌, zero, suc, ◌≡◌, ◌↔◌, ◌⊎◌, refl, String, true, false, Option, none, some, List, [], ◌∷◌,
  ℕ_discrete, string_eq, arith,
}
use gobds.Base.Result.{ok}
use gobds.Admission.{equal_fold}
use gobds.Strings.{to_lower}
use gobds.Services.Authentication
use gobds.Services.Authentication.{authentication_of, max_retries}
use gobds.Services.Authentication.Attempts.{Decides, authentication_of_iff}
use gobds.Services.Vpn.{
  Addr, ipv4, Service, ResponseModel, Exchange, failure, response, is_whitelisted,
  rate_limit_active, check_ip, prefix_contains, check_loop, attempt_once, handle_response,
  handle_body,
}
use gobds.Services.Vpn.Checks.{IsReport, Check, run_checks, check_ip-Reported, run_checks-Quiet}

-- The service answers "no" the second time.
abbrev answers : ℕ → Authentication.Exchange
answers zero = Authentication.response 500 none
answers (suc n) = Authentication.response 200 (some false)

authentication_of_iff_example :
    (authentication_of answers true ≡ ok false) ↔ Decides answers 0 (max_retries + 1) false
authentication_of_iff_example = authentication_of_iff answers false

abbrev service : Service
service = record {
  enabled = true;
  rate_limit_reset = 100;
  whitelist = record { address = ipv4 0x2de64000; bits = 22 } ∷ [];
}

abbrev parse : String → Option Addr
parse ip = some (ipv4 0x01020304)

abbrev proxy : ResponseModel
proxy = record { status = "success"; message = ""; proxy = true }

abbrev report : Exchange
report =
    response 201
      (record { status = 200; requests_remaining = "5"; time_to_reset = "60"; body = some proxy })

is_proxy : (check_ip parse "1.2.3.4" 200 (failure true) report service).result ≡ ok proxy
unfolding check_ip is_whitelisted prefix_contains ℕ_discrete rate_limit_active check_loop
    attempt_once handle_response handle_body equal_fold string_eq to_lower
is_proxy = refl

check_ip-Reported_example :
    (service.enabled ≡ true)
    × (is_whitelisted parse "1.2.3.4" service ≡ false)
    × (rate_limit_active 200 service ≡ false)
    × (IsReport proxy (failure true) ⊎ IsReport proxy report)
check_ip-Reported_example =
    check_ip-Reported parse "1.2.3.4" 200 (failure true) report service proxy is_proxy refl

abbrev checks : List Check
checks =
    record { ip = "1.2.3.4"; now = 50; first = report; second = report }
    ∷ record { ip = "1.2.3.5"; now = 99; first = report; second = failure true }
    ∷ []

run_checks-Quiet_example : run_checks parse checks service ≡ (service, 0)
run_checks-Quiet_example = run_checks-Quiet parse checks service (omega arith, (omega arith, tt))
