-- ===== src/Server/Reservations.antt =====
-- The reservations of gobds/server.go as the connections of listen in gobds/gobds.go take and release
-- them.
use gobds.Base.{
  ℕ, ◌+◌, ◌≡◌, ◌≢◌, refl, String, Bool, true, false, not, ◌&&◌, List, [], ◌∷◌, ◌++◌, keep, ◌==◌,
  ==→≡, contains, string_eq, if◌then◌else◌, arith,
}
use gobds.Server.{Server, reserve_xuid, release_xuid}

-- The server, and the XUIDs of the connections that are being served.
pub record State : Type 0 where
  pub server : Server
  pub live : List String

-- What listen does first with a connection: it reserves the XUID if duplicates are refused
-- (DuplicateXUIDEnabled), and lets everyone in if not.
unfoldable pub admit_xuid : Bool → String → Server → Server × Bool
admit_xuid duplicate_xuid_enabled xuid s =
    if duplicate_xuid_enabled then reserve_xuid xuid s else (s, true)

-- The deferred release, which is there only for a reservation.
unfoldable pub leave_xuid : Bool → String → Server → Server
leave_xuid duplicate_xuid_enabled xuid s = if duplicate_xuid_enabled then release_xuid xuid s else s

-- A connection is admitted, turned away, or ends; then its deferred release runs.
pub data Step (enabled : Bool) : State → State → Type 0 where
  admits :
      (xuid : String) (s : State)
      → (admit_xuid enabled xuid s.server).1 ≡ true
      → Step enabled s
          (record { server = (admit_xuid enabled xuid s.server).0; live = xuid ∷ s.live })
  turns_away :
      (xuid : String) (s : State)
      → (admit_xuid enabled xuid s.server).1 ≡ false
      → Step enabled s (record s { server = (admit_xuid enabled xuid s.server).0 })
  ends :
      (before after : List String) (xuid : String) (server : Server)
      → Step enabled
          (record { server = server; live = before ++ xuid ∷ after })
          (record { server = leave_xuid enabled xuid server; live = before ++ after })

pub data Reachable (enabled : Bool) : State → Type 0 where
  starts :
      (sessions : List ℕ)
      → Reachable enabled
          (record { server = record { xuids = []; sessions = sessions }; live = [] })
  steps : (s t : State) → Reachable enabled s → Step enabled s t → Reachable enabled t

abbrev pub count : String → List String → ℕ
count x [] = 0
count x (y ∷ ys) = (if y == x then 1 else 0) + count x ys

count-append : (x : String) (ys zs : List String) → count x (ys ++ zs) ≡ count x ys + count x zs
count-append x [] zs = omega arith
count-append x (y ∷ ys) zs = ground (arith, count-append x ys zs)

contains-keep :
    (x y : String) (xs : List String)
    → contains (keep (λ z. not (z == y)) xs) x ≡ (contains xs x && not (x == y))
unfolding keep
contains-keep x y [] = refl
contains-keep x y (z ∷ zs) = ground (arith, contains-keep x y zs)

-- A XUID is reserved exactly while one connection holds it.
abbrev IsExclusive : State → Type 0
IsExclusive s =
    (x : String) → x ≢ "" → count x s.live ≡ (if contains s.server.xuids x then 1 else 0)

Step-IsExclusive : (s t : State) → Step true s t → IsExclusive s → IsExclusive t
unfolding reserve_xuid release_xuid admit_xuid leave_xuid
Step-IsExclusive _ _ (admits xuid s e) h x named = ground (arith, h x named, ==→≡ xuid x)
Step-IsExclusive _ _ (turns_away xuid s e) h x named = ground (arith, h x named)
Step-IsExclusive _ _ (ends before after xuid server) h x named = ground (
  arith,
  h x named,
  contains-keep x xuid server.xuids,
  count-append x before (xuid ∷ after),
  count-append x before after,
)

-- Where duplicate XUIDs are refused (DuplicateXUIDEnabled is set), in every state that is reached each
-- XUID but the empty one is held by at most one connection, and it is reserved exactly while one holds
-- it.
pub count-live :
    (s : State) (x : String)
    → Reachable true s
    → x ≢ ""
    → count x s.live ≡ (if contains s.server.xuids x then 1 else 0)
count-live _ x (starts sessions) named = refl
count-live _ x (steps s t r step) named =
    Step-IsExclusive s t step (λ y named'. count-live s y r named') x named
