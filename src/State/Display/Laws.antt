-- ===== src/State/Display/Laws.antt =====
-- internal/state/display_status.go: when a completion is shown.
use dev_board.Prelude.{◌≤◌, ◌<◌, ◌≡◌, ◌↔◌, ◌+◌, inl, inr, Option-cases, some, arith}
use dev_board.Prelude.Time.{Instant, Duration}
use dev_board.State.Enums.{Activity, Outcome}
use dev_board.State.Internal.{CurrentTurn}
use dev_board.State.Display.{
  display_complete, completion_high, completion_recent, working_or_idle, completion_display,
  settled_display, derive_display_of, derive_display,
}

-- The turn rests, completed at an instant, and that is within the retention.
abbrev pub IsShown : CurrentTurn → Instant → Duration → Instant → Type 0
IsShown turn now retention completed_at =
    (turn.activity ≡ Activity.idle)
    × (turn.outcome ≡ Outcome.completed)
    × (turn.completed_at ≡ some completed_at)
    × (completed_at ≤ now)
    × (now < completed_at + retention)

-- A display shows a completion exactly for a turn that rests, completed at an instant that is not in the
-- future and less than the retention ago: as just completed less than the high visibility after that
-- instant, and as recently completed from then on.
pub derive_display-phases :
    (turn : CurrentTurn) (now : Instant) (high_visibility retention : Duration)
    → (((derive_display turn now high_visibility retention).status ≡ display_complete)
        ↔ ((c : Instant) × IsShown turn now retention c))
      × (((derive_display turn now high_visibility retention).completion_phase ≡ completion_high)
          ↔ ((c : Instant) × IsShown turn now retention c × (now < c + high_visibility)))
      × (((derive_display turn now high_visibility retention).completion_phase ≡ completion_recent)
          ↔ ((c : Instant) × IsShown turn now retention c × (c + high_visibility ≤ now)))
unfolding derive_display derive_display_of settled_display completion_display working_or_idle
derive_display-phases turn now high_visibility retention = elim (Option-cases turn.completed_at) [
  | inl q ↦ (
    (λ h. ground (arith, q, h), λ (c, s). ground (arith, q, s)),
    (λ h. ground (arith, q, h), λ (c, s, l). ground (arith, q, s)),
    (λ h. ground (arith, q, h), λ (c, s, l). ground (arith, q, s)),
  )
  | inr (c, q) ↦ (
    (
      λ h. (
        c,
        (ground (arith, q, h), ground (arith, q, h), q, ground (arith, q, h), ground (arith, q, h)),
      ),
      λ (d, s). ground (arith, q, s),
    ),
    (
      λ h. (
        c,
        (ground (arith, q, h), ground (arith, q, h), q, ground (arith, q, h), ground (arith, q, h)),
        ground (arith, q, h),
      ),
      λ (d, s, l). ground (arith, q, s, l),
    ),
    (
      λ h. (
        c,
        (ground (arith, q, h), ground (arith, q, h), q, ground (arith, q, h), ground (arith, q, h)),
        ground (arith, q, h),
      ),
      λ (d, s, l). ground (arith, q, s, l),
    ),
  )
]
