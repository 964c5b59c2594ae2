-- ===== src/Afk.antt =====
-- gobds/afk.go: the evaluation of idle players on one server. Float64 arithmetic with the configured
-- threshold is an argument. sort.Slice leaves the order of equal durations open; it is that of
-- insertion here.
pub mod Order
pub mod Kicks
pub mod Warnings
use gobds.Base.{
  ℕ, ◌≡◌, Bool, true, false, not, ◌&&◌, Option, none, some, List, [], ◌∷◌, ◌++◌, keep,
  if◌then◌else◌,
}
use gobds.Base.Int.{ℤ, pos, ◌-ℤ◌, leb_ℤ, ltb_ℤ}
use gobds.Clock.{Time, Duration}
use gobds.Admission.{ServerStatus}
use gobds.Session.State.{AfkState}
use gobds.Session.Afk.{afk_duration, set_warned_approaching, set_marked_afk, set_warned_final}

-- infra.AFKTimer
pub record AfkTimer : Type 0 where
  pub warn_approaching : Duration
  pub mark_afk : Duration
  pub final_warning : Duration
  pub timeout_duration : Duration

-- The configured FullnessThreshold, as the two places that read it do: whether
-- float64(count)/float64(max) is below it, and int(float64(max) * it).
pub record Fullness : Type 0 where
  pub below : ℤ → ℤ → Bool
  pub threshold : ℤ → ℤ

-- A live session, known by its pointer.
pub record Player : Type 0 where
  pub pointer : ℕ
  pub afk : AfkState

-- afkCandidate
pub record Candidate : Type 0 where
  pub player : Player
  pub dur : Duration

-- What a player is told.
pub data Warning : Type 0 where
  approaching marked final_notice : ℕ → Warning

abbrev pub flagged : (AfkState → AfkState) → Candidate → Candidate
flagged f c = record c { player = record (c.player) { afk = f c.player.afk } }

abbrev add_warning : Warning → Candidate × List Warning → Candidate × List Warning
add_warning w (c, ws) = (c, w ∷ ws)

-- The second test of warnAFKSessions.
unfoldable pub warn_marked : AfkTimer → Candidate → Candidate × List Warning
warn_marked timer c =
    if leb_ℤ timer.mark_afk c.dur && not c.player.afk.marked_afk
    then (flagged (set_marked_afk true) c, marked c.player.pointer ∷ [])
    else (c, [])

-- The body of the loop of warnAFKSessions.
unfoldable pub warn_soft : AfkTimer → Candidate → Candidate × List Warning
warn_soft timer c =
    if leb_ℤ timer.warn_approaching c.dur && not c.player.afk.warned_approaching
    then add_warning (approaching c.player.pointer)
        (warn_marked timer (flagged (set_warned_approaching true) c))
    else warn_marked timer c

-- The body of the loop of warnFinalAFKSessions.
unfoldable pub warn_final : AfkTimer → Candidate → Candidate × List Warning
warn_final timer c =
    if leb_ℤ timer.final_warning c.dur && not c.player.afk.warned_final
    then (flagged (set_warned_final true) c, final_notice c.player.pointer ∷ [])
    else (c, [])

-- A loop over the candidates.
unfoldable pub warn_each :
    (Candidate → Candidate × List Warning) → List Candidate → List Candidate × List Warning
warn_each f [] = ([], [])
warn_each f (c ∷ cs) =
    let (c', ws) = f c in let (cs', ws') = warn_each f cs in (c' ∷ cs', ws ++ ws')

unfoldable pub insert_longest : Candidate → List Candidate → List Candidate
insert_longest c [] = c ∷ []
insert_longest c (d ∷ ds) =
    let later = d ∷ insert_longest c ds in if leb_ℤ d.dur c.dur then c ∷ d ∷ ds else later

-- sort.Slice(eligible, ...): the longest duration first.
unfoldable pub sort_longest : List Candidate → List Candidate
sort_longest [] = []
sort_longest (c ∷ cs) = insert_longest c (sort_longest cs)

-- The loop that kicks, with `remaining`.
unfoldable pub kicks : ℤ → ℤ → List Candidate → List Candidate
kicks threshold remaining [] = []
kicks threshold remaining (c ∷ cs) =
    let rest = kicks threshold (remaining -ℤ pos 1) cs in
    if ltb_ℤ remaining threshold then [] else c ∷ rest

abbrev pub eligible : AfkTimer → List Candidate → List Candidate
eligible timer cands = keep (λ c. leb_ℤ timer.timeout_duration c.dur) cands

unfoldable pub candidates_of : Time → List Player → List Candidate
candidates_of now [] = []
candidates_of now (p ∷ ps) =
    record { player = p; dur = afk_duration now p.afk } ∷ candidates_of now ps

-- The sessions as they are left, what they are told, and those that are kicked, in order.
pub record Evaluation : Type 0 where
  pub candidates : List Candidate
  pub warnings : List Warning
  pub kicked : List Candidate

abbrev pub softly : AfkTimer → List Candidate → Evaluation
softly timer cands =
    let (cands', ws) = warn_each (warn_soft timer) cands in
    record { candidates = cands'; warnings = ws; kicked = [] }

abbrev pub near_capacity : AfkTimer → Fullness → ServerStatus → Evaluation → Evaluation
near_capacity timer fullness status e =
    let (cands', ws) = warn_each (warn_final timer) e.candidates in
    record {
      candidates = cands';
      warnings = e.warnings ++ ws;
      kicked =
          kicks (fullness.threshold status.max_players) status.player_count
            (sort_longest (eligible timer cands'));
    }

abbrev by_status : AfkTimer → Fullness → Option ServerStatus → Evaluation → Evaluation
by_status timer fullness none e = e
by_status timer fullness (some status) e =
    if leb_ℤ status.max_players (pos 0)
    then e
    else if fullness.below status.player_count status.max_players
    then e
    else near_capacity timer fullness status e

-- evaluateAFK, with the status of the server's provider, if it has one.
unfoldable pub evaluate_afk :
    AfkTimer → Fullness → Option ServerStatus → Time → List Player → Evaluation
evaluate_afk timer fullness status now players =
    by_status timer fullness status (softly timer (candidates_of now players))
