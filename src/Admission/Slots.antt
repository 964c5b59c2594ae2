-- ===== src/Admission/Slots.antt =====
-- The secured slots of handleSecureSlots in gobds/gobds.go.
use gobds.Base.{◌≡◌, String, ◌&&◌, some, List, string_eq, arith}
use gobds.Base.Int.{ℤ, ltb_ℤ}
use gobds.Admission.{
  ServerStatus, AdmissionConfig, has, handle_whitelisted, handle_secure_slots, Joining, accept,
}

both_checks :
    (c : AdmissionConfig) (status : ServerStatus) (name : String) (entries : List String)
    → c.whitelist ≡ some entries
    → (handle_whitelisted c name && handle_secure_slots c status name)
      ≡ (has entries name && ltb_ℤ status.player_count status.max_players)
unfolding handle_whitelisted handle_secure_slots
both_checks c status name entries h = ground arith

-- With a whitelist, the number of secured slots has no effect on any connection: accept refuses the
-- same connections for the same reasons whatever that number is.
pub accept-secured_slots :
    (c : AdmissionConfig) (j : Joining) (m n : ℤ)
    → accept (record c { secured_slots = m }) j ≡ accept (record c { secured_slots = n }) j
unfolding accept handle_whitelisted handle_secure_slots
accept-secured_slots c j m n = ground arith
