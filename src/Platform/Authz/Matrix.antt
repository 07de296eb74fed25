-- ===== src/Platform/Authz/Matrix.antt =====
-- The authorization matrix: platform/authz/matrix.py, row by row in the source's order.
use aiworkos.Base.{Option, none, some, List, [], ◌∷◌}
use aiworkos.Platform.Authz.Model.{Role, ResourceType, Action, Grant}

abbrev pub Cell : Type 0
Cell = List Grant

abbrev no_grant : Cell
no_grant = Grant.deny ∷ []

abbrev org : Cell
org = Grant.org ∷ []

abbrev dept : Cell
dept = Grant.department ∷ []

abbrev team : Cell
team = Grant.team ∷ []

abbrev own : Cell
own = Grant.personal ∷ []

abbrev self : Cell
self = Grant.self ∷ []

abbrev team_or_own : Cell
team_or_own = Grant.team ∷ Grant.personal ∷ []

abbrev pub Row : Type 0
Row = Role → Cell

-- `row`, with every cell given.
abbrev row_with : Cell → Cell → Cell → Cell → Cell → Cell → Cell → Cell → Row
row_with admin dept_lead team_lead member viewer auditor executive ingestion Role.org_admin = admin
row_with admin dept_lead team_lead member viewer auditor executive ingestion Role.department_lead =
    dept_lead
row_with admin dept_lead team_lead member viewer auditor executive ingestion Role.team_lead =
    team_lead
row_with admin dept_lead team_lead member viewer auditor executive ingestion Role.member = member
row_with admin dept_lead team_lead member viewer auditor executive ingestion Role.viewer = viewer
row_with admin dept_lead team_lead member viewer auditor executive ingestion Role.auditor = auditor
row_with admin dept_lead team_lead member viewer auditor executive ingestion Role.executive =
    executive
row_with admin dept_lead team_lead member viewer auditor executive ingestion Role.ingestion =
    ingestion

-- `row`, whose last cell defaults to NO.
abbrev row : Cell → Cell → Cell → Cell → Cell → Cell → Cell → Row
row admin dept_lead team_lead member viewer auditor executive =
    row_with admin dept_lead team_lead member viewer auditor executive no_grant

-- RESOURCE_ACTIONS; every resource type has an entry.
unfoldable pub resource_actions : ResourceType → List Action
resource_actions ResourceType.organization =
    Action.read ∷ Action.update ∷ Action.manage_members ∷ Action.manage_roles ∷ []
resource_actions ResourceType.department =
    Action.create ∷ Action.read ∷ Action.list ∷ Action.update ∷ Action.change_state ∷ []
resource_actions ResourceType.team =
    Action.create ∷ Action.read ∷ Action.list ∷ Action.update ∷ Action.change_state
    ∷ Action.manage_members ∷ []
resource_actions ResourceType.person =
    Action.create ∷ Action.read ∷ Action.list ∷ Action.update ∷ Action.change_state ∷ []
resource_actions ResourceType.organization_membership =
    Action.create ∷ Action.read ∷ Action.list ∷ Action.update ∷ Action.change_state ∷ []
resource_actions ResourceType.role_assignment =
    Action.create ∷ Action.read ∷ Action.list ∷ Action.change_state ∷ []
resource_actions ResourceType.external_identity =
    Action.create ∷ Action.read ∷ Action.list ∷ Action.update ∷ Action.change_state ∷ []
resource_actions ResourceType.project =
    Action.create ∷ Action.read ∷ Action.list ∷ Action.update ∷ Action.change_state
    ∷ Action.change_visibility ∷ []
resource_actions ResourceType.milestone =
    Action.create ∷ Action.read ∷ Action.list ∷ Action.update ∷ Action.change_state ∷ []
resource_actions ResourceType.work =
    Action.create ∷ Action.read ∷ Action.list ∷ Action.update ∷ Action.change_state
    ∷ Action.change_visibility ∷ []
resource_actions ResourceType.work_assignment =
    Action.read ∷ Action.list ∷ Action.assign ∷ Action.reassign ∷ Action.end_assignment ∷ []
resource_actions ResourceType.dependency =
    Action.create ∷ Action.read ∷ Action.list ∷ Action.change_state ∷ []
resource_actions ResourceType.audit_entry = Action.read ∷ Action.list ∷ []
resource_actions ResourceType.event = Action.create ∷ Action.read ∷ Action.list ∷ Action.attach ∷ []
resource_actions ResourceType.evidence =
    Action.create ∷ Action.read ∷ Action.list ∷ Action.supersede ∷ []
resource_actions ResourceType.commitment =
    Action.create ∷ Action.read ∷ Action.list ∷ Action.update ∷ Action.change_state ∷ []
resource_actions ResourceType.proposal =
    Action.create ∷ Action.read ∷ Action.list ∷ Action.update ∷ Action.approve ∷ []
resource_actions ResourceType.agent_capability_policy =
    Action.read ∷ Action.list ∷ Action.update ∷ []

-- MATRIX
unfoldable pub matrix : ResourceType → Action → Option Row
matrix ResourceType.organization Action.read = some (row org org org org org org org)
matrix ResourceType.organization Action.update =
    some (row org no_grant no_grant no_grant no_grant no_grant no_grant)
matrix ResourceType.organization Action.manage_members =
    some (row org no_grant no_grant no_grant no_grant no_grant no_grant)
matrix ResourceType.organization Action.manage_roles =
    some (row org no_grant no_grant no_grant no_grant no_grant no_grant)
matrix ResourceType.department Action.create =
    some (row org no_grant no_grant no_grant no_grant no_grant no_grant)
matrix ResourceType.department Action.read = some (row org org org org org org org)
matrix ResourceType.department Action.list = some (row org org org org org org org)
matrix ResourceType.department Action.update =
    some (row org dept no_grant no_grant no_grant no_grant no_grant)
matrix ResourceType.department Action.change_state =
    some (row org dept no_grant no_grant no_grant no_grant no_grant)
matrix ResourceType.team Action.create =
    some (row org dept no_grant no_grant no_grant no_grant no_grant)
matrix ResourceType.team Action.read = some (row org org org org org org org)
matrix ResourceType.team Action.list = some (row org org org org org org org)
matrix ResourceType.team Action.update =
    some (row org dept team no_grant no_grant no_grant no_grant)
matrix ResourceType.team Action.change_state =
    some (row org dept team no_grant no_grant no_grant no_grant)
matrix ResourceType.team Action.manage_members =
    some (row org dept team no_grant no_grant no_grant no_grant)
matrix ResourceType.person Action.create =
    some (row org no_grant no_grant no_grant no_grant no_grant no_grant)
matrix ResourceType.person Action.read = some (row org org org org org org org)
matrix ResourceType.person Action.list = some (row org org org org org org org)
matrix ResourceType.person Action.update =
    some (row org dept no_grant self no_grant no_grant no_grant)
matrix ResourceType.person Action.change_state =
    some (row org dept no_grant no_grant no_grant no_grant no_grant)
matrix ResourceType.organization_membership Action.create =
    some (row org no_grant no_grant no_grant no_grant no_grant no_grant)
matrix ResourceType.organization_membership Action.read = some (row org org org org org org org)
matrix ResourceType.organization_membership Action.list = some (row org org org org org org org)
matrix ResourceType.organization_membership Action.update =
    some (row org no_grant no_grant no_grant no_grant no_grant no_grant)
matrix ResourceType.organization_membership Action.change_state =
    some (row org no_grant no_grant no_grant no_grant no_grant no_grant)
matrix ResourceType.role_assignment Action.create =
    some (row org no_grant no_grant no_grant no_grant no_grant no_grant)
matrix ResourceType.role_assignment Action.read =
    some (row org dept team self no_grant org no_grant)
matrix ResourceType.role_assignment Action.list =
    some (row org dept team self no_grant org no_grant)
matrix ResourceType.role_assignment Action.change_state =
    some (row org no_grant no_grant no_grant no_grant no_grant no_grant)
matrix ResourceType.external_identity Action.create =
    some (row org no_grant no_grant no_grant no_grant no_grant no_grant)
matrix ResourceType.external_identity Action.read = some (row org org org org org org org)
matrix ResourceType.external_identity Action.list = some (row org org org org org org org)
matrix ResourceType.external_identity Action.update =
    some (row org no_grant no_grant no_grant no_grant no_grant no_grant)
matrix ResourceType.external_identity Action.change_state =
    some (row org no_grant no_grant no_grant no_grant no_grant no_grant)
matrix ResourceType.project Action.create =
    some (row org dept team no_grant no_grant no_grant no_grant)
matrix ResourceType.project Action.read = some (row org dept team team_or_own org org org)
matrix ResourceType.project Action.list = some (row org dept team team_or_own org org org)
matrix ResourceType.project Action.update = some (row org dept team own no_grant no_grant no_grant)
matrix ResourceType.project Action.change_state =
    some (row org dept team no_grant no_grant no_grant no_grant)
matrix ResourceType.project Action.change_visibility =
    some (row org dept team no_grant no_grant no_grant no_grant)
matrix ResourceType.milestone Action.create =
    some (row org dept team own no_grant no_grant no_grant)
matrix ResourceType.milestone Action.read = some (row org dept team team_or_own org org org)
matrix ResourceType.milestone Action.list = some (row org dept team team_or_own org org org)
matrix ResourceType.milestone Action.update =
    some (row org dept team own no_grant no_grant no_grant)
matrix ResourceType.milestone Action.change_state =
    some (row org dept team own no_grant no_grant no_grant)
matrix ResourceType.work Action.create = some (row org dept team org no_grant no_grant no_grant)
matrix ResourceType.work Action.read = some (row org dept team team_or_own org org org)
matrix ResourceType.work Action.list = some (row org dept team team_or_own org org org)
matrix ResourceType.work Action.update = some (row org dept team own no_grant no_grant no_grant)
matrix ResourceType.work Action.change_state =
    some (row org dept team own no_grant no_grant no_grant)
matrix ResourceType.work Action.change_visibility =
    some (row org dept team own no_grant no_grant no_grant)
matrix ResourceType.work_assignment Action.read = some (row org dept team team_or_own org org org)
matrix ResourceType.work_assignment Action.list = some (row org dept team team_or_own org org org)
matrix ResourceType.work_assignment Action.assign =
    some (row org dept team own no_grant no_grant no_grant)
matrix ResourceType.work_assignment Action.reassign =
    some (row org dept team no_grant no_grant no_grant no_grant)
matrix ResourceType.work_assignment Action.end_assignment =
    some (row org dept team own no_grant no_grant no_grant)
matrix ResourceType.dependency Action.create =
    some (row org dept team own no_grant no_grant no_grant)
matrix ResourceType.dependency Action.read = some (row org dept team team_or_own org org org)
matrix ResourceType.dependency Action.list = some (row org dept team team_or_own org org org)
matrix ResourceType.dependency Action.change_state =
    some (row org dept team own no_grant no_grant no_grant)
matrix ResourceType.agent_capability_policy Action.read = some (row org org org org org org org)
matrix ResourceType.agent_capability_policy Action.list = some (row org org org org org org org)
matrix ResourceType.agent_capability_policy Action.update =
    some (row org no_grant no_grant no_grant no_grant no_grant no_grant)
matrix ResourceType.event Action.create =
    some (row_with org org org org no_grant no_grant no_grant org)
matrix ResourceType.event Action.read = some (row_with org org org org org org org own)
matrix ResourceType.event Action.list = some (row org org org org org org org)
matrix ResourceType.event Action.attach =
    some (row_with org dept team own no_grant no_grant no_grant own)
matrix ResourceType.evidence Action.create = some (row org org org org no_grant no_grant no_grant)
matrix ResourceType.evidence Action.read = some (row org org org org org org org)
matrix ResourceType.evidence Action.list = some (row org org org org org org org)
matrix ResourceType.evidence Action.supersede =
    some (row org dept team own no_grant no_grant no_grant)
matrix ResourceType.commitment Action.create = some (row org org org org no_grant no_grant no_grant)
matrix ResourceType.commitment Action.read = some (row org org org org org org org)
matrix ResourceType.commitment Action.list = some (row org org org org org org org)
matrix ResourceType.commitment Action.update =
    some (row org dept team own no_grant no_grant no_grant)
matrix ResourceType.commitment Action.change_state =
    some (row org dept team own no_grant no_grant no_grant)
matrix ResourceType.proposal Action.create = some (row org org org org no_grant no_grant no_grant)
matrix ResourceType.proposal Action.read = some (row org org org org org org org)
matrix ResourceType.proposal Action.list = some (row org org org org org org org)
matrix ResourceType.proposal Action.update = some (row org dept team own no_grant no_grant no_grant)
matrix ResourceType.proposal Action.approve =
    some (row org dept team own no_grant no_grant no_grant)
matrix ResourceType.audit_entry Action.read =
    some (row org no_grant no_grant no_grant no_grant org no_grant)
matrix ResourceType.audit_entry Action.list =
    some (row org no_grant no_grant no_grant no_grant org no_grant)
matrix _ _ = none
