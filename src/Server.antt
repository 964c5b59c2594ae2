-- ===== src/Server.antt =====
-- gobds/server.go: the reservations of XUIDs and the sessions of one server. A lock or a sync.Map makes
-- each method one step. A map with empty values is the list of its keys, a session is known by its
-- pointer.
pub mod Reservations
use gobds.Base.{
  ℕ, ◌≡◌, String, Bool, true, false, not, List, [], ◌∷◌, keep, ◌==◌, contains, string_eq, nat_eq,
  if◌then◌else◌,
}

pub record Server : Type 0 where
  pub xuids : List String
  pub sessions : List ℕ

unfoldable pub reserve_xuid : String → Server → Server × Bool
reserve_xuid xuid s =
    if xuid == ""
    then (s, true)
    else if contains s.xuids xuid
    then (s, false)
    else (record s { xuids = xuid ∷ s.xuids }, true)

unfoldable pub release_xuid : String → Server → Server
release_xuid xuid s =
    if xuid == "" then s else record s { xuids = keep (λ x. not (x == xuid)) s.xuids }

unfoldable pub add_session : ℕ → Server → Server
add_session p s = if contains s.sessions p then s else record s { sessions = p ∷ s.sessions }

unfoldable pub remove_session : ℕ → Server → Server
remove_session p s = record s { sessions = keep (λ q. not (q == p)) s.sessions }
