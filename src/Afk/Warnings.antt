-- ===== src/Afk/Warnings.antt =====
-- How often gobds/afk.go warns a player.
use gobds.Base.{
  ℕ, ◌+◌, ◌≤◌, ◌≡◌, Bool, true, false, List, [], ◌∷◌, ◌++◌, length, length-append, keep,
  keep-append, if◌then◌else◌, arith,
}
use gobds.Clock.{Duration}
use gobds.Session.Afk.{set_warned_approaching, set_marked_afk}
use gobds.Afk.{
  AfkTimer, Player, Candidate, Warning, approaching, marked, final_notice, warn_marked, warn_soft,
}

-- The soft warnings of one player over evaluations between which the player does not move, each
-- with the time for which the player has been idle.
unfoldable pub warnings_while_idle : AfkTimer → List Duration → Player → List Warning
warnings_while_idle timer [] p = []
warnings_while_idle timer (d ∷ ds) p =
    let (c, ws) = warn_soft timer (record { player = p; dur = d }) in
    ws ++ warnings_while_idle timer ds c.player

abbrev pub is_approaching : Warning → Bool
is_approaching (approaching p) = true
is_approaching (marked p) = false
is_approaching (final_notice p) = false

abbrev pub is_marked : Warning → Bool
is_marked (approaching p) = false
is_marked (marked p) = true
is_marked (final_notice p) = false

abbrev pub count_of : (Warning → Bool) → List Warning → ℕ
count_of p ws = length (keep p ws)

abbrev pub unless : Bool → ℕ
unless b = if b then 0 else 1

count_of-append :
    (p : Warning → Bool) (ws vs : List Warning)
    → count_of p (ws ++ vs) ≡ count_of p ws + count_of p vs
count_of-append p ws vs = rw (keep-append p ws vs) (length-append (keep p ws) (keep p vs))

-- One evaluation.
warn_soft-once :
    (timer : AfkTimer) (c : Candidate)
    → let (c', ws) = warn_soft timer c in
      (count_of is_approaching ws + unless c'.player.afk.warned_approaching
        ≤ unless c.player.afk.warned_approaching)
      × (count_of is_marked ws + unless c'.player.afk.marked_afk ≤ unless c.player.afk.marked_afk)
unfolding warn_soft warn_marked set_warned_approaching set_marked_afk keep
warn_soft-once timer c = (ground arith, ground arith)

-- While a player does not move, each of the two soft warnings comes at most once, and not at all where
-- it has come before.
pub warnings_while_idle-once :
    (timer : AfkTimer) (ds : List Duration) (p : Player)
    → (count_of is_approaching (warnings_while_idle timer ds p) ≤ unless p.afk.warned_approaching)
      × (count_of is_marked (warnings_while_idle timer ds p) ≤ unless p.afk.marked_afk)
unfolding warnings_while_idle keep
warnings_while_idle-once timer [] p = (ground arith, ground arith)
warnings_while_idle-once timer (d ∷ ds) p =
    let c : Candidate = record { player = p; dur = d } in
    let (c', ws) = warn_soft timer c in
    let (once_approaching, once_marked) = warn_soft-once timer c in
    let (later_approaching, later_marked) = warnings_while_idle-once timer ds c'.player in
    let later = warnings_while_idle timer ds c'.player in
    (
      omega (arith, count_of-append is_approaching ws later, once_approaching, later_approaching),
      omega (arith, count_of-append is_marked ws later, once_marked, later_marked),
    )
