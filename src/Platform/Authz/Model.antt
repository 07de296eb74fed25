-- ===== src/Platform/Authz/Model.antt =====
-- The vocabulary of authorization: platform/authz/model.py. Frozen sets are lists, read by membership.
use aiworkos.Base.{ℕ, ◌≡◌, Bool, Option, none, some, List, arith, Eq, Eq_of_positions}

pub data Role : Type 0 where
  org_admin department_lead team_lead member viewer auditor executive ingestion : Role

abbrev pub role_position : Role → ℕ
role_position Role.org_admin = 0
role_position Role.department_lead = 1
role_position Role.team_lead = 2
role_position Role.member = 3
role_position Role.viewer = 4
role_position Role.auditor = 5
role_position Role.executive = 6
role_position Role.ingestion = 7

pub role_injective : (a b : Role) → role_position a ≡ role_position b → a ≡ b
role_injective a b h = ground arith

instance abbrev pub role_eq : Eq Role
role_eq = Eq_of_positions role_position role_injective

pub data ResourceType : Type 0 where
  organization department team person organization_membership role_assignment : ResourceType
  external_identity project milestone work work_assignment dependency event evidence : ResourceType
  commitment proposal agent_capability_policy audit_entry : ResourceType

abbrev pub resource_type_position : ResourceType → ℕ
resource_type_position ResourceType.organization = 0
resource_type_position ResourceType.department = 1
resource_type_position ResourceType.team = 2
resource_type_position ResourceType.person = 3
resource_type_position ResourceType.organization_membership = 4
resource_type_position ResourceType.role_assignment = 5
resource_type_position ResourceType.external_identity = 6
resource_type_position ResourceType.project = 7
resource_type_position ResourceType.milestone = 8
resource_type_position ResourceType.work = 9
resource_type_position ResourceType.work_assignment = 10
resource_type_position ResourceType.dependency = 11
resource_type_position ResourceType.event = 12
resource_type_position ResourceType.evidence = 13
resource_type_position ResourceType.commitment = 14
resource_type_position ResourceType.proposal = 15
resource_type_position ResourceType.agent_capability_policy = 16
resource_type_position ResourceType.audit_entry = 17

pub resource_type_injective :
    (a b : ResourceType) → resource_type_position a ≡ resource_type_position b → a ≡ b
resource_type_injective a b h = ground arith

instance abbrev pub resource_type_eq : Eq ResourceType
resource_type_eq = Eq_of_positions resource_type_position resource_type_injective

pub data Action : Type 0 where
  create read list update change_state change_visibility assign reassign end_assignment : Action
  manage_members manage_roles attach approve supersede : Action

abbrev pub action_position : Action → ℕ
action_position Action.create = 0
action_position Action.read = 1
action_position Action.list = 2
action_position Action.update = 3
action_position Action.change_state = 4
action_position Action.change_visibility = 5
action_position Action.assign = 6
action_position Action.reassign = 7
action_position Action.end_assignment = 8
action_position Action.manage_members = 9
action_position Action.manage_roles = 10
action_position Action.attach = 11
action_position Action.approve = 12
action_position Action.supersede = 13

pub action_injective : (a b : Action) → action_position a ≡ action_position b → a ≡ b
action_injective a b h = ground arith

instance abbrev pub action_eq : Eq Action
action_eq = Eq_of_positions action_position action_injective

pub data Grant : Type 0 where
  deny org department team personal self : Grant

abbrev pub grant_position : Grant → ℕ
grant_position Grant.deny = 0
grant_position Grant.org = 1
grant_position Grant.department = 2
grant_position Grant.team = 3
grant_position Grant.personal = 4
grant_position Grant.self = 5

pub grant_injective : (a b : Grant) → grant_position a ≡ grant_position b → a ≡ b
grant_injective a b h = ground arith

instance abbrev pub grant_eq : Eq Grant
grant_eq = Eq_of_positions grant_position grant_injective

pub data Relation : Type 0 where
  same_org in_department in_team personal self : Relation

abbrev pub relation_position : Relation → ℕ
relation_position Relation.same_org = 0
relation_position Relation.in_department = 1
relation_position Relation.in_team = 2
relation_position Relation.personal = 3
relation_position Relation.self = 4

pub relation_injective : (a b : Relation) → relation_position a ≡ relation_position b → a ≡ b
relation_injective a b h = ground arith

instance abbrev pub relation_eq : Eq Relation
relation_eq = Eq_of_positions relation_position relation_injective

-- GRANT_REQUIRES
unfoldable pub grant_requires : Grant → Option Relation
grant_requires Grant.org = some Relation.same_org
grant_requires Grant.department = some Relation.in_department
grant_requires Grant.team = some Relation.in_team
grant_requires Grant.personal = some Relation.personal
grant_requires Grant.self = some Relation.self
grant_requires Grant.deny = none

pub record Principal : Type 0 where
  pub person_id : ℕ
  pub org_id : ℕ
  pub roles : List Role

pub record ResourceRef : Type 0 where
  pub type : ResourceType
  pub org_id : ℕ
  pub id : Option ℕ
  pub relations : List Relation

-- The text of `Decision.reason`, as the case that it reports.
pub data Reason : Type 0 where
  cross_organization not_an_action no_matrix_entry no_role_grants : Reason
  granted : Role → Grant → Reason
  not_related : Role → Grant → Relation → Reason

pub record Decision : Type 0 where
  pub allowed : Bool
  pub reason : Reason
  pub matched_role : Option Role
  pub matched_grant : Option Grant
