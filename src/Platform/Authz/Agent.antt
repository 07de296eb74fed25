-- ===== src/Platform/Authz/Agent.antt =====
-- What an agent may do with a person's authority: platform/authz/agent.py. Names of tools and of
-- entity types are the ones that the tables mention, and any other. `policy_surface`, a list for a
-- settings screen, and the checks of an identity's construction are not modelled.
pub mod Reach
use aiworkos.Base.{
  ℕ, ◌+◌, ◌≡◌, ◌↔◌, ap, nat_eq, Bool, true, false, not, ◌&&◌, ◌||◌, List, [], ◌∷◌, ◌++◌, arith, Eq,
  Eq_of_positions, ◌==◌, contains, filter, if◌then◌else◌,
}
use aiworkos.Base.Result.{Result, ok, err, agent_authority_error}
use aiworkos.Platform.Authz.Model.{
  Action, ResourceType, Role, Principal, action_eq, resource_type_eq,
}

pub data AgentCapability : Type 0 where
  extract link_evidence explain answer : AgentCapability

abbrev pub capability_position : AgentCapability → ℕ
capability_position extract = 0
capability_position link_evidence = 1
capability_position explain = 2
capability_position answer = 3

pub capability_injective :
    (a b : AgentCapability) → capability_position a ≡ capability_position b → a ≡ b
capability_injective a b h = ground arith

instance abbrev pub capability_eq : Eq AgentCapability
capability_eq = Eq_of_positions capability_position capability_injective

pub data ToolName : Type 0 where
  create_work update_work_status assign_work create_commitment change_commitment_status : ToolName
  other_tool : ℕ → ToolName

abbrev pub tool_position : ToolName → ℕ
tool_position create_work = 0
tool_position update_work_status = 1
tool_position assign_work = 2
tool_position create_commitment = 3
tool_position change_commitment_status = 4
tool_position (other_tool n) = n + 5

pub tool_injective : (a b : ToolName) → tool_position a ≡ tool_position b → a ≡ b
tool_injective a b h = ground arith

instance abbrev pub tool_eq : Eq ToolName
tool_eq = Eq_of_positions tool_position tool_injective

-- `cell.entity_type`, a text that names a resource type, or names none.
pub data EntityType : Type 0 where
  entity : ResourceType → EntityType
  other_entity : ℕ → EntityType

abbrev pub entity_beq : EntityType → EntityType → Bool
entity_beq (entity a) (entity b) = a == b
entity_beq (other_entity m) (other_entity n) = m == n
entity_beq _ _ = false

pub entity_beq_iff : (a b : EntityType) → (entity_beq a b ≡ true) ↔ (a ≡ b)
entity_beq_iff (entity a) (entity b) = (
  λ h. ap entity ((resource_type_eq.beq_iff a b).0 h),
  λ h. (resource_type_eq.beq_iff a b).1 (cc h),
)
entity_beq_iff (entity a) (other_entity n) = (λ h. cc h, λ h. cc h)
entity_beq_iff (other_entity m) (entity b) = (λ h. cc h, λ h. cc h)
entity_beq_iff (other_entity m) (other_entity n) =
    (λ h. ap other_entity ((nat_eq.beq_iff m n).0 h), λ h. (nat_eq.beq_iff m n).1 (cc h))

instance abbrev pub entity_eq : Eq EntityType
entity_eq = record { beq = entity_beq; beq_iff = entity_beq_iff }

pub data AutonomyMode : Type 0 where
  off propose approved_execution : AutonomyMode

abbrev pub mode_position : AutonomyMode → ℕ
mode_position off = 0
mode_position propose = 1
mode_position approved_execution = 2

pub mode_injective : (a b : AutonomyMode) → mode_position a ≡ mode_position b → a ≡ b
mode_injective a b h = ground arith

instance abbrev pub mode_eq : Eq AutonomyMode
mode_eq = Eq_of_positions mode_position mode_injective

-- CAPABILITY_TOOLS
unfoldable pub capability_tools : AgentCapability → List ToolName
capability_tools extract = create_work ∷ create_commitment ∷ assign_work ∷ []
capability_tools link_evidence = []
capability_tools explain = []
capability_tools answer = []

unfoldable pub forbidden_actions : List Action
forbidden_actions = Action.manage_members ∷ Action.manage_roles ∷ Action.approve ∷ []

unfoldable pub forbidden_resources : List ResourceType
forbidden_resources =
    ResourceType.organization ∷ ResourceType.department ∷ ResourceType.team ∷ ResourceType.person
    ∷ ResourceType.organization_membership ∷ ResourceType.role_assignment
    ∷ ResourceType.external_identity ∷ ResourceType.audit_entry ∷ []

-- `TOOLS_FOR_CELL.get((entity_type, action), frozenset())`
unfoldable pub tools_of : EntityType → Action → List ToolName
tools_of (entity ResourceType.work) Action.create = create_work ∷ []
tools_of (entity ResourceType.work) Action.change_state = update_work_status ∷ []
tools_of (entity ResourceType.work_assignment) Action.assign = assign_work ∷ []
tools_of (entity ResourceType.commitment) Action.create = create_commitment ∷ []
tools_of (entity ResourceType.commitment) Action.change_state = change_commitment_status ∷ []
tools_of _ _ = []

-- `a & b` of two sets.
abbrev pub both : List ToolName → List ToolName → List ToolName
both xs ys = filter (λ t. contains t ys) xs

unfoldable pub tools_for_cell : AgentCapability → EntityType → Action → List ToolName
unfolding capability_tools tools_of
tools_for_cell capability entity_type action =
    both (capability_tools capability) (tools_of entity_type action)

pub record AgentIdentity : Type 0 where
  pub name : ℕ
  pub capabilities : List AgentCapability

tools_of_all : List AgentCapability → List ToolName
unfolding capability_tools
tools_of_all [] = []
tools_of_all (capability ∷ rest) = capability_tools capability ++ tools_of_all rest

unfoldable pub allowed_tools : AgentIdentity → List ToolName
unfolding tools_of_all
allowed_tools identity = tools_of_all identity.capabilities

pub record PolicyCell : Type 0 where
  pub capability : AgentCapability
  pub entity_type : EntityType
  pub action : Action
  pub mode : AutonomyMode

-- `CapabilityPolicy.cells` as a list.
unfoldable pub mode_for : List PolicyCell → AgentCapability → EntityType → Action → AutonomyMode
mode_for [] capability entity_type action = off
mode_for (cell ∷ rest) capability entity_type action =
    let later = mode_for rest capability entity_type action in
    if (cell.capability == capability)
      && (cell.entity_type == entity_type)
      && (cell.action == action)
    then cell.mode
    else later

unfoldable pub allows : List PolicyCell → AgentCapability → EntityType → Action → Bool
unfolding mode_for
allows cells capability entity_type action =
    not (mode_for cells capability entity_type action == off)

unfoldable pub enabled_tools : List PolicyCell → List AgentCapability → List ToolName
unfolding tools_for_cell
enabled_tools [] capabilities = []
enabled_tools (cell ∷ rest) capabilities =
    let later = enabled_tools rest capabilities in
    if (cell.mode == off) || not (contains cell.capability capabilities)
    then later
    else tools_for_cell cell.capability cell.entity_type cell.action ++ later

pub record AgentPrincipal : Type 0 where
  pub identity : AgentIdentity
  pub delegated : Principal
  pub policy : List PolicyCell

unfoldable pub effective_tools : AgentPrincipal → List ToolName
unfolding allowed_tools enabled_tools
effective_tools agent =
    both (allowed_tools agent.identity) (enabled_tools agent.policy agent.identity.capabilities)

unfoldable pub may_use : AgentPrincipal → ToolName → Bool
unfolding effective_tools
may_use agent tool = contains tool (effective_tools agent)

unfoldable pub assert_within_agent_authority : Action → ResourceType → Result (Unit {0})
unfolding forbidden_actions forbidden_resources
assert_within_agent_authority action resource_type =
    if contains action forbidden_actions
    then err agent_authority_error
    else if contains resource_type forbidden_resources
    then err agent_authority_error
    else ok tt
