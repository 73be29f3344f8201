-- ===== src/Tests/Security.antt =====
-- src/security and src/storage at concrete inputs.
use harp_ochestration.Prelude.{◌≡◌, ◌↔◌, ◌||◌, refl, none, some, true, false, decide}
use harp_ochestration.Core.Ids.{low, ra, repo_write, schedule_create, RiskLevel-discrete}
use harp_ochestration.Security.Permissions.{can, can_change_state_iff}
use harp_ochestration.Security.Approval.{requires_approval, is_state_changing}
use harp_ochestration.Tests.Samples.{task_at}

gated :
    (requires_approval (task_at low none) "read" ≡ false)
    × (requires_approval (task_at low none) "DB.Migration" ≡ true)
    × (requires_approval (task_at low (some true)) "read" ≡ true)
unfolding requires_approval is_state_changing RiskLevel-discrete decide
gated = (refl, refl, refl)

can_change_state_iff_example : ((can ra repo_write || can ra schedule_create) ≡ true) ↔ (ra ≡ ra)
can_change_state_iff_example = can_change_state_iff ra
