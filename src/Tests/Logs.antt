-- ===== src/Tests/Logs.antt =====
-- Log records, for the tests of filterlog.go.
use gobds.Base.{◌≢◌, refl, String, refuse_text, string_eq, List, [], ◌∷◌}
use gobds.Base.Int.{pos}
use gobds.Base.Dict.{lookup}
use gobds.Clock.{Time, second}
use gobds.LogFilter.{RateLimiterState, LogRecord}
use gobds.LogFilter.Spacing.{logged, Spaced, logged-Spaced}

abbrev limiter : RateLimiterState
limiter = record { window = pos second; last = ("handle-packet", 7) ∷ [] }

abbrev noise : LogRecord
noise = record { message = "handle packet: EOF"; attributes = [] }

abbrev refused : LogRecord
refused = record { message = "dial"; attributes = "connection refused" ∷ [] }

abbrev records : List (Time × LogRecord)
records = (9, noise) ∷ (10, refused) ∷ (3000000000, noise) ∷ (3000000001, noise) ∷ []

abbrev kind : String
kind = "handle-packet"

is_kind : kind ≢ ""
unfolding string_eq
is_kind = refuse_text kind "" refl

logged-Spaced_example :
    Spaced
      (pos second)
      (lookup "handle-packet" limiter.last)
      (logged "handle-packet" records limiter)
logged-Spaced_example = logged-Spaced kind records limiter (pos second) is_kind refl
