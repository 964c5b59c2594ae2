-- ===== src/LogFilter.antt =====
-- filterlog.go of the repository's root: a handler of log records that lets one record of each known
-- kind of noise pass in a while. What a record's attributes print as is given as texts.
pub mod Spacing
use gobds.Base.{
  String, Bool, true, false, not, ◌&&◌, ◌||◌, Option, none, some, List, [], ◌∷◌, ◌==◌, string_eq,
  if◌then◌else◌,
}
use gobds.Base.Int.{ltb_ℤ}
use gobds.Base.Dict.{Dict, lookup, insert}
use gobds.Clock.{Time, Duration, sub_time}
use gobds.Strings.{includes}

-- rateLimiterState
pub record RateLimiterState : Type 0 where
  pub window : Duration
  pub last : Dict String Time

abbrev pub recorded : String → Time → RateLimiterState → RateLimiterState × Bool
recorded key now s = (record s { last = insert key now s.last }, true)

-- allow(key)
unfoldable pub allow_record : String → Time → RateLimiterState → RateLimiterState × Bool
allow_record key now s = elim (lookup key s.last) [
  | none ↦ recorded key now s
  | some last ↦ if ltb_ℤ (sub_time now last) s.window then (s, false) else recorded key now s
]

-- slog.Record
pub record LogRecord : Type 0 where
  pub message : String
  pub attributes : List String

-- The loop over the attributes.
unfoldable pub attribute_key : List String → String
attribute_key [] = ""
attribute_key (v ∷ vs) =
    if includes v "connection refused" || includes v "discover mtu" || includes v "i/o timeout"
    then "dial-transient"
    else attribute_key vs

unfoldable pub noise_key : LogRecord → String
noise_key r =
    if includes r.message "handle packet"
    then "handle-packet"
    else if includes r.message "error dialing connection"
    then "error-dialing"
    else attribute_key r.attributes

-- The decision of Handle, for a key: whether the record goes on to the inner handler.
unfoldable pub handle_key : String → Time → RateLimiterState → RateLimiterState × Bool
handle_key key now s = if not (key == "") then allow_record key now s else (s, true)

unfoldable pub handle_record : LogRecord → Time → RateLimiterState → RateLimiterState × Bool
handle_record r now s = handle_key (noise_key r) now s
