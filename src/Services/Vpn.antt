-- ===== src/Services/Vpn.antt =====
-- gobds/service/vpn: the check of an address, with the ranges that always pass, two attempts, and the
-- wait that the service asks for. The HTTP client, and the parsing of addresses, are arguments; an
-- attempt meets one `Exchange`, at a time.
pub mod Checks
use gobds.Base.{
  ℕ, zero, suc, ◌+◌, ◌-◌, ◌/◌, ◌^◌, String, Bool, true, false, not, ◌&&◌, ◌||◌, Option, none, some,
  List, [], ◌∷◌, ◌==◌, nat_eq, string_eq, ltb, if◌then◌else◌,
}
use gobds.Base.Int.{ℤ, pos, ◌*ℤ◌}
use gobds.Base.Result.{Result, ok, err}
use gobds.Clock.{Time, second, add_time, wrap64}
use gobds.Strings.{atoi}
use gobds.Admission.{equal_fold}

-- netip.Addr, without an address of IPv4 in IPv6, which is one of IPv6. The zone is known to be there.
pub data Addr : Type 0 where
  ipv4 : ℕ → Addr
  ipv6 : ℕ → Bool → Addr

-- netip.Prefix
pub record Prefix : Type 0 where
  pub address : Addr
  pub bits : ℕ

-- The leading bits of two addresses of a width are the same.
abbrev same_bits : ℕ → ℕ → ℕ → ℕ → Bool
same_bits width bits a b = a / 2 ^ (width - bits) == b / 2 ^ (width - bits)

-- p.Contains(addr)
unfoldable pub prefix_contains : Prefix → Addr → Bool
prefix_contains p (ipv4 b) = elim p.address [
  | ipv4 a ↦ same_bits 32 p.bits a b
  | ipv6 a zone ↦ false
]
prefix_contains p (ipv6 b zone) = elim p.address [
  | ipv4 a ↦ false
  | ipv6 a other ↦ not zone && same_bits 128 p.bits a b
]

-- Service; Closed may change between attempts.
pub record Service : Type 0 where
  pub enabled : Bool
  pub rate_limit_reset : Time
  pub whitelist : List Prefix

-- The entries that parse.
unfoldable pub parse_whitelist : (String → Option Prefix) → List String → List Prefix
parse_whitelist parse [] = []
parse_whitelist parse (cidr ∷ rest) = elim (parse cidr) [
  | none ↦ parse_whitelist parse rest
  | some p ↦ p ∷ parse_whitelist parse rest
]

pub record ResponseModel : Type 0 where
  pub status : String
  pub message : String
  pub proxy : Bool

pub data VpnError : Type 0 where
  waiting_until : Time → VpnError
  service_closed : VpnError
  no_request : VpnError
  request_failed : VpnError
  decode_failed : VpnError
  query_failed : String → VpnError
  rate_limited : VpnError
  unexpected_status : ℕ → VpnError

-- A response: its status, the headers X-Rl and X-Ttl or "", and its body if that decodes.
pub record Response : Type 0 where
  pub status : ℕ
  pub requests_remaining : String
  pub time_to_reset : String
  pub body : Option ResponseModel

-- One attempt: the service is closed, the request cannot be made, the client fails with an error that
-- is temporary or not, or it brings a response, at a time.
pub data Exchange : Type 0 where
  closed : Exchange
  unmade : Exchange
  failure : Bool → Exchange
  response : Time → Response → Exchange

unfoldable pub is_whitelisted : (String → Option Addr) → String → Service → Bool
is_whitelisted parse ip s = elim (parse ip) [
  | none ↦ false
  | some addr ↦ any_contains addr s.whitelist
]
  where
    any_contains : Addr → List Prefix → Bool
    any_contains addr [] = false
    any_contains addr (p ∷ ps) = if prefix_contains p addr then true else any_contains addr ps

unfoldable pub rate_limit_active : Time → Service → Bool
rate_limit_active now s = ltb now s.rate_limit_reset

-- The seconds of the header, or 60.
abbrev ttl_of : String → ℤ
ttl_of text = elim (atoi text) [ none ↦ pos 60 | some ttl ↦ ttl ]

unfoldable pub handle_rate_limit_headers : Time → Response → Service → Service
handle_rate_limit_headers now r s =
    if r.requests_remaining == "0" && not (r.time_to_reset == "")
    then record s {
      rate_limit_reset = add_time now (wrap64 (ttl_of r.time_to_reset *ℤ pos second));
    }
    else s

-- An attempt ends the loop, or leaves an error and goes on.
pub data Outcome : Type 0 where
  done : Result VpnError ResponseModel → Outcome
  again : VpnError → Outcome

unfoldable pub handle_body : Option ResponseModel → Result VpnError ResponseModel
handle_body none = err decode_failed
handle_body (some m) =
    if equal_fold m.status "fail"
    then (if equal_fold m.message "reserved range"
        then ok (record m { proxy = false })
        else err (query_failed m.message))
    else ok m

unfoldable pub handle_response : Response → Outcome
handle_response r =
    if r.status == 200
    then done (handle_body r.body)
    else if r.status == 429
    then again rate_limited
    else again (unexpected_status r.status)

unfoldable pub attempt_once : Exchange → Service → Service × Outcome
attempt_once closed s = (s, done (err service_closed))
attempt_once unmade s = (s, done (err no_request))
attempt_once (failure true) s = (s, again request_failed)
attempt_once (failure false) s = (s, done (err request_failed))
attempt_once (response now r) s = (handle_rate_limit_headers now r s, handle_response r)

-- What CheckIP leaves: the service, the exchanges that are not used, and its answer.
pub record Answer : Type 0 where
  pub service : Service
  pub unused : List Exchange
  pub result : Result VpnError ResponseModel

-- The loop, over what its attempts meet, with the last error.
unfoldable pub check_loop : List Exchange → VpnError → Service → Answer
check_loop [] last_error s = record { service = s; unused = []; result = err last_error }
check_loop (x ∷ xs) last_error s =
    let (s', outcome) = attempt_once x s in
    elim outcome [
      | done r ↦ record { service = s'; unused = xs; result = r }
      | again e ↦ check_loop xs e s'
    ]

abbrev pub passes_model : ResponseModel
passes_model = record { status = "success"; message = ""; proxy = false }

-- CheckIP, with what its two attempts would meet. The error before the first attempt is never seen.
unfoldable pub check_ip :
    (String → Option Addr) → String → Time → Exchange → Exchange → Service → Answer
check_ip parse ip now first second_try s =
    let waiting : Answer = record {
      service = s;
      unused = first ∷ second_try ∷ [];
      result = err (waiting_until s.rate_limit_reset);
    } in
    let passing : Answer = record {
      service = s;
      unused = first ∷ second_try ∷ [];
      result = ok passes_model;
    } in
    if not s.enabled
    then passing
    else if is_whitelisted parse ip s
    then passing
    else if rate_limit_active now s
    then waiting
    else check_loop (first ∷ second_try ∷ []) rate_limited s
