-- ===== src/Services.antt =====
-- gobds/service: the clients of the VPN and the authentication service.
pub mod Vpn
pub mod Authentication
