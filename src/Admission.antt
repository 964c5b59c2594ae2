-- ===== src/Admission.antt =====
-- accept and its helpers in gobds/gobds.go, and whitelist/whitelist.go: who may join. What the VPN and
-- authentication services answer, and the rest of the connection, are arguments.
pub mod Slots
use gobds.Base.{
  ℕ, ◌≡◌, String, Bool, true, false, not, ◌&&◌, ◌||◌, Option, none, some, List, [], ◌∷◌, ◌==◌,
  string_eq, if◌then◌else◌,
}
use gobds.Base.Int.{ℤ, ◌-ℤ◌, leb_ℤ, ltb_ℤ}
use gobds.Base.Result.{Result, ok, err}
use gobds.Strings.{to_lower}

-- strings.EqualFold on names of ASCII letters, digits and spaces.
unfoldable pub equal_fold : String → String → Bool
equal_fold s t = to_lower s == to_lower t

-- Has(name)
unfoldable pub has : List String → String → Bool
has [] name = false
has (entry ∷ entries) name = if equal_fold entry name then true else has entries name

-- The answer of CheckIP: an error, or a status, a message and whether the address is a proxy.
pub data VpnAnswer : Type 0 where
  check_failed : String → VpnAnswer
  checked : Bool → String → Bool → VpnAnswer

unfoldable pub handle_vpn : String → VpnAnswer → String × Bool
handle_vpn address answer =
    if address == "127.0.0.1" || address == "0.0.0.0" || address == "localhost"
    then ("", true)
    else elim answer [
      | check_failed message ↦ (message, false)
      | checked success message proxy ↦
          if not success
          then (message, false)
          else ("VPN/Proxy connections are not allowed.", not proxy)
    ]

-- The answer of AuthenticationOf: an error, which may be that there is no record, or a decision.
pub data AuthenticationAnswer : Type 0 where
  no_record : AuthenticationAnswer
  request_failed : String → AuthenticationAnswer
  decided : Bool → AuthenticationAnswer

-- ServerStatus(-1, -1)
pub record ServerStatus : Type 0 where
  pub player_count : ℤ
  pub max_players : ℤ

pub record AdmissionConfig : Type 0 where
  -- nil where the whitelist is off
  pub whitelist : Option (List String)
  pub secured_slots : ℤ
  -- Enabled of the authentication service, if there is one
  pub authentication_enabled : Option Bool

unfoldable pub handle_whitelisted : AdmissionConfig → String → Bool
handle_whitelisted c name = elim c.whitelist [ none ↦ true | some entries ↦ has entries name ]

unfoldable pub handle_secure_slots : AdmissionConfig → ServerStatus → String → Bool
handle_secure_slots c status name = elim c.whitelist [
  | none ↦ true
  | some entries ↦
      if leb_ℤ status.max_players status.player_count
      then false
      else if ltb_ℤ status.player_count (status.max_players -ℤ c.secured_slots)
      then true
      else has entries name
]

-- Why a connection is refused.
pub data Refusal : Type 0 where
  vpn : String → Refusal
  invalid_join_path : Refusal
  authentication_failed : String → Refusal
  not_whitelisted : Refusal
  full : Refusal
  dial_failed : Refusal
  start_failed : Refusal

-- One connection: its name and address, what the services answer about it, the status that the server
-- reports, whether the backend is reached and whether the game starts.
pub record Joining : Type 0 where
  pub display_name : String
  pub address : String
  pub vpn_answer : Option VpnAnswer
  pub authentication_answer : AuthenticationAnswer
  pub status : ServerStatus
  pub dials : Bool
  pub starts : Bool

abbrev vpn_refusal : Joining → Option Refusal
vpn_refusal j = elim j.vpn_answer [
  | none ↦ none
  | some answer ↦
      let (reason, allowed) = handle_vpn j.address answer in
      if not allowed then some (vpn reason) else none
]

abbrev answer_refusal : AuthenticationAnswer → Option Refusal
answer_refusal no_record = some invalid_join_path
answer_refusal (request_failed message) = some (authentication_failed message)
answer_refusal (decided allowed) = if not allowed then some invalid_join_path else none

abbrev authentication_refusal : AdmissionConfig → Joining → Option Refusal
authentication_refusal c j = elim c.authentication_enabled [
  | none ↦ none
  | some enabled ↦ answer_refusal j.authentication_answer
]

abbrev slots_apply : AdmissionConfig → Bool
slots_apply c = elim c.authentication_enabled [ none ↦ false | some enabled ↦ not enabled ]

abbrev join_refusal : AdmissionConfig → Joining → Option Refusal
join_refusal c j =
    if not (handle_whitelisted c j.display_name)
    then some not_whitelisted
    else if slots_apply c && not (handle_secure_slots c j.status j.display_name)
    then some full
    else if not j.dials
    then some dial_failed
    else if not j.starts
    then some start_failed
    else none

-- The first that is there.
abbrev first_of : Option Refusal → Option Refusal → Option Refusal
first_of none r = r
first_of (some q) r = some q

-- accept: why the connection is refused, if it is.
unfoldable pub accept : AdmissionConfig → Joining → Option Refusal
accept c j = first_of (vpn_refusal j) (first_of (authentication_refusal c j) (join_refusal c j))
