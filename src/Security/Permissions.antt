-- ===== src/Security/Permissions.antt =====
-- src/security/PermissionGuard.ts
use harp_ochestration.Prelude.{
  Bool, true, ◌≡◌, List, ◌||◌, contains, Elem, contains_iff, Bool-cases, if◌then◌else◌, decide, ◌↔◌,
  ◌⊎◌, arith,
}
use harp_ochestration.Core.Ids.{
  AgentId, Permission, permission_eq, Permission-discrete, ra, repo_write, schedule_create, pharaoh,
}
use harp_ochestration.Core.AgentConfig.{agent_configs}
use harp_ochestration.Core.Errors.{Result, ok, err, permission_denied}

unfoldable pub permissions_for : AgentId → List Permission
unfolding agent_configs
permissions_for agent = (agent_configs agent).permissions

unfoldable pub can : AgentId → Permission → Bool
unfolding agent_configs
can agent p = contains (agent_configs agent).permissions p

unfoldable pub assert : AgentId → Permission → Result (Unit {0})
assert agent p = if can agent p then ok tt else err (permission_denied agent p)

-- The only agent that may write to a repository or create a schedule is Ra.
pub can_change_state_iff :
    (agent : AgentId) → ((can agent repo_write || can agent schedule_create) ≡ true) ↔ (agent ≡ ra)
unfolding can Permission-discrete decide
can_change_state_iff pharaoh = ground arith
can_change_state_iff _ = ground arith

-- `assert` passes exactly the permissions of the agent's configuration; for any other it throws
-- the error that names the agent and the permission.
pub assert_cases :
    (agent : AgentId) (p : Permission)
    → ((Elem p (permissions_for agent)) × (assert agent p ≡ ok tt))
      ⊎ ((¬ Elem p (permissions_for agent)) × (assert agent p ≡ err (permission_denied agent p)))
unfolding can assert permissions_for
assert_cases agent p =
    ground (arith, contains_iff (permissions_for agent) p, Bool-cases (can agent p))
