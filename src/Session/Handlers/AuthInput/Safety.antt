-- ===== src/Session/Handlers/AuthInput/Safety.antt =====
-- The corrections of handler_player_auth_input.go do not panic where there is a claim factory.
use gobds.Base.{
  ◌≡◌, refl, ap, ◌∙◌, Bool, true, false, not, Option, none, some, List, [], ◌∷◌, nat_eq, if_both,
  arith,
}
use gobds.Base.Int.{pos, int_eq}
use gobds.Clock.{Time, Duration, second}
use gobds.Area.{ChunkPos, chunk_of}
use gobds.Claim.Metrics
use gobds.Claim.Metrics.{Metrics}
use gobds.Claim.Factory.{Factory}
use gobds.Session.State.{Platform, LevelChunk, level_chunk, Session, write, metric, metric_of}
use gobds.Session.Corrective.{allow_corrective}
use gobds.Session.Positions.{BlockPos}
use gobds.Session.Handlers.AuthInput.{corrected, correct_chunk, correct_denied}

-- There is a claim factory.
abbrev pub HasClaims : Session → Type 0
HasClaims s = (f : Factory) × (s.claims ≡ some f)

corrected-safe :
    (sent : Bool) (rest : Session → Session × Bool) (s : Session)
    → HasClaims s
    → ((t : Session) → HasClaims t → (rest t).1 ≡ false)
    → (corrected sent rest s).1 ≡ false
corrected-safe sent rest s (f, e) safe =
    rw (e, corrected)
      (safe (metric (Metrics.correction sent) s) (_, ap (metric_of (Metrics.correction sent)) e))

allow_corrective-claims :
    (chunk : ChunkPos) (d : Duration) (now : Time) (s : Session)
    → (allow_corrective chunk d now s).0.claims ≡ s.claims
unfolding allow_corrective
allow_corrective-claims chunk d now s = ground arith

correct_chunk-safe :
    (chunk : ChunkPos) (now : Time) (rest : Session → Session × Bool) (s : Session)
    (correction : Option LevelChunk)
    → HasClaims s
    → ((t : Session) → HasClaims t → (rest t).1 ≡ false)
    → (correct_chunk chunk now rest s correction).1 ≡ false
correct_chunk-safe chunk now rest s none h safe = corrected-safe false rest s h safe
correct_chunk-safe chunk now rest s (some correction) (f, e) safe =
    let (s', passes) = allow_corrective chunk (pos second) now s in
    let h : HasClaims s' = (f, allow_corrective-claims chunk (pos second) now s ∙ e) in
    if_both (λ (r : Session × Bool). r.1 ≡ false) (not passes) (corrected-safe false rest s' h safe)
      (corrected-safe true rest (write (level_chunk correction) s') h safe)

pub correct_denied-safe :
    (platform : Platform) (now : Time) (ps : List BlockPos) (s : Session)
    → HasClaims s
    → (correct_denied platform now ps s).1 ≡ false
unfolding correct_denied
correct_denied-safe platform now [] s h = refl
correct_denied-safe platform now (p ∷ ps) s h =
    correct_chunk-safe (chunk_of p.x p.z) now (correct_denied platform now ps) s _ h
      (correct_denied-safe platform now ps)
