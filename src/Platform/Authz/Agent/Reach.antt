-- ===== src/Platform/Authz/Agent/Reach.antt =====
-- Which tools an agent can reach, against the policy's rows and the agent's capabilities.
use aiworkos.Base.{
  ◌≡◌, refl, ap, subst, Eq, sym, ◌∙◌, ◌↔◌, inl, inr, Bool, true, false, not, ◌&&◌, ◌||◌, List, [],
  ◌∷◌, ◌++◌, arith, ◌==◌, contains, contains_iff, filter, Bool-cases,
}
use mathlib.Core.List.{Memᴰ}
use mathlib.Core.List.Memᴰ
use aiworkos.Base.Result.{ok}
use aiworkos.Platform.Authz.Model.{Action, ResourceType, action_eq, resource_type_eq}
use aiworkos.Platform.Authz.Agent.{
  AgentCapability, AgentIdentity, extract, create_work, create_commitment, assign_work,
  capability_eq, ToolName, tool_eq, EntityType, entity, entity_eq, mode_eq, off, capability_tools,
  tools_of, tools_for_cell, tools_of_all, allowed_tools, PolicyCell, enabled_tools, AgentPrincipal,
  effective_tools, may_use, assert_within_agent_authority,
}

contains-append :
    (t : ToolName) (xs ys : List ToolName)
    → contains t (xs ++ ys) ≡ (contains t xs || contains t ys)
contains-append t [] ys = refl
contains-append t (x ∷ xs) ys = ground (arith, contains-append t xs ys)

contains-filter :
    {A : Type 0} ⦃e : Eq A⦄ (p : A → Bool) (t : A) (xs : List A)
    → contains t (filter p xs) ≡ (contains t xs && p t)
contains-filter p t [] = refl
contains-filter ⦃e⦄ p t (x ∷ xs) =
    let same : (t == x) ≡ true → p t ≡ p x = λ h. ap p ((e.beq_iff t x).0 h) in
    ground (arith, contains-filter p t xs, same)

-- What lets an agent use a tool: a row of the policy that is not off, for a capability that the agent
-- holds and that has the tool, and for an entity type and an action that the tool performs.
pub record Enabled (cells : List PolicyCell) (capabilities : List AgentCapability) (tool : ToolName)
    : Type 0 where
  pub cell : PolicyCell
  pub in_policy : Memᴰ cell cells
  pub is_on : (cell.mode == off) ≡ false
  pub is_held : Memᴰ cell.capability capabilities
  pub has_tool : contains tool (capability_tools cell.capability) ≡ true
  pub performs : contains tool (tools_of cell.entity_type cell.action) ≡ true

Enabled-later :
    (cells : List PolicyCell) (capabilities : List AgentCapability) (tool : ToolName)
    (x : PolicyCell)
    → Enabled cells capabilities tool
    → Enabled (x ∷ cells) capabilities tool
Enabled-later cells capabilities tool x h = record {
  cell = h.cell;
  in_policy = Memᴰ.tail h.in_policy;
  is_on = h.is_on;
  is_held = h.is_held;
  has_tool = h.has_tool;
  performs = h.performs;
}

tools_for_cell-both :
    (tool : ToolName) (c : PolicyCell)
    → contains tool (tools_for_cell c.capability c.entity_type c.action) ≡ (
        contains tool (capability_tools c.capability)
        && contains tool (tools_of c.entity_type c.action))
unfolding tools_for_cell
tools_for_cell-both tool c =
    contains-filter (λ t. contains t (tools_of c.entity_type c.action)) tool
      (capability_tools c.capability)

enabled_tools-Enabled :
    (cells : List PolicyCell) (capabilities : List AgentCapability) (tool : ToolName)
    → contains tool (enabled_tools cells capabilities) ≡ true
    → Enabled cells capabilities tool
unfolding enabled_tools
enabled_tools-Enabled [] capabilities tool h = absurd (cc h)
enabled_tools-Enabled (c ∷ cells) capabilities tool h =
    elim (Bool-cases ((c.mode == off) || not (contains c.capability capabilities))) [
      | inl skipped ↦
          Enabled-later cells capabilities tool c
            (enabled_tools-Enabled cells capabilities tool (rw skipped at h))
      | inr used ↦
          let split =
            contains-append tool (tools_for_cell c.capability c.entity_type c.action)
              (enabled_tools cells capabilities) in
          elim (Bool-cases (contains tool (tools_for_cell c.capability c.entity_type c.action))) [
            | inl here ↦
                let parts = sym (tools_for_cell-both tool c) ∙ here in
                record {
                  cell = c;
                  in_policy = Memᴰ.head refl;
                  is_on = ground arith;
                  is_held = (contains_iff c.capability capabilities).0 (ground arith);
                  has_tool = ground (arith, parts);
                  performs = ground (arith, parts);
                }
            | inr missing ↦ Enabled-later cells capabilities tool c (
                enabled_tools-Enabled cells capabilities tool
                  (sym (rw missing at split) ∙ rw used at h))
          ]
    ]

enabled_tools_head :
    (c : PolicyCell) (cells : List PolicyCell) (capabilities : List AgentCapability)
    (tool : ToolName)
    → (c.mode == off) ≡ false
    → contains c.capability capabilities ≡ true
    → contains tool (tools_for_cell c.capability c.entity_type c.action) ≡ true
    → contains tool (enabled_tools (c ∷ cells) capabilities) ≡ true
unfolding enabled_tools
enabled_tools_head c cells capabilities tool on held has =
    rw (on, held)
      (contains-append tool (tools_for_cell c.capability c.entity_type c.action)
          (enabled_tools cells capabilities)
        ∙ rw has refl)

Enabled-enabled_tools :
    (cells : List PolicyCell) (capabilities : List AgentCapability) (tool : ToolName)
    → (h : Enabled cells capabilities tool)
    → contains tool (enabled_tools cells capabilities) ≡ true
unfolding enabled_tools
Enabled-enabled_tools cells capabilities tool h = found cells h.in_policy
  where
    found :
        (xs : List PolicyCell)
        → Memᴰ h.cell xs
        → contains tool (enabled_tools xs capabilities) ≡ true
    found [] m = absurd (Memᴰ.not-nil m)
    found (x ∷ xs) m =
        let split =
          contains-append tool (tools_for_cell x.capability x.entity_type x.action)
            (enabled_tools xs capabilities) in
        elim (Memᴰ.cases_cons m) [
          | inl first ↦
              subst (λ y. contains tool (enabled_tools (y ∷ xs) capabilities) ≡ true) first
                (enabled_tools_head h.cell xs capabilities tool h.is_on
                  ((contains_iff h.cell.capability capabilities).1 h.is_held)
                  (tools_for_cell-both tool h.cell ∙ rw (h.has_tool, h.performs) refl))
          | inr later ↦ ground (arith, split, found xs later)
        ]

tools_of_all-held :
    (capabilities : List AgentCapability) (capability : AgentCapability) (tool : ToolName)
    → Memᴰ capability capabilities
    → contains tool (capability_tools capability) ≡ true
    → contains tool (tools_of_all capabilities) ≡ true
unfolding tools_of_all
tools_of_all-held [] capability tool m h = absurd (Memᴰ.not-nil m)
tools_of_all-held (x ∷ xs) capability tool m h =
    let split = contains-append tool (capability_tools x) (tools_of_all xs) in
    elim (Memᴰ.cases_cons m) [
      | inl first ↦ split ∙ rw (subst (λ c. contains tool (capability_tools c) ≡ true) first h) refl
      | inr later ↦ ground (arith, split, tools_of_all-held xs capability tool later h)
    ]

held_tools :
    (identity : AgentIdentity) (cells : List PolicyCell) (tool : ToolName)
    → Enabled cells identity.capabilities tool
    → contains tool (allowed_tools identity) ≡ true
unfolding allowed_tools
held_tools identity cells tool h =
    tools_of_all-held identity.capabilities h.cell.capability tool h.is_held h.has_tool

-- An agent may use a tool exactly when a row of its organization's policy turns it on for one of its
-- capabilities: a row for a capability that it does not hold, or that is off, gives it nothing.
pub may_use_iff :
    (agent : AgentPrincipal) (tool : ToolName)
    → (may_use agent tool ≡ true) ↔ Enabled agent.policy agent.identity.capabilities tool
unfolding may_use effective_tools
may_use_iff agent tool =
    let capabilities = agent.identity.capabilities in
    let split =
      contains-filter (λ t. contains t (enabled_tools agent.policy capabilities)) tool
        (allowed_tools agent.identity) in
    (
      λ h. enabled_tools-Enabled agent.policy capabilities tool (
          second_of (contains tool (allowed_tools agent.identity))
            (contains tool (enabled_tools agent.policy capabilities)) (sym split ∙ h)),
      λ h.
          split
          ∙ rw
              (
                held_tools agent.identity agent.policy tool h,
                Enabled-enabled_tools agent.policy capabilities tool h,
              )
              refl,
    )
  where
    second_of : (a b : Bool) → (a && b) ≡ true → b ≡ true
    second_of true b h = h
    second_of false b h = absurd (cc h)

-- The resource type that an entity type names has no part in what is forbidden to agents, nor has the
-- action, wherever a capability has a tool for them.
within :
    (capability : AgentCapability) (entity_type : EntityType) (action : Action) (tool : ToolName)
    → contains tool (capability_tools capability) ≡ true
    → contains tool (tools_of entity_type action) ≡ true
    → (r : ResourceType) × (entity_type ≡ entity r)
      × (assert_within_agent_authority action r ≡ ok tt)
unfolding capability_tools tools_of assert_within_agent_authority
within capability (entity ResourceType.work) Action.create tool h k =
    (ResourceType.work, refl, refl)
within capability (entity ResourceType.work) Action.change_state tool h k =
    (ResourceType.work, refl, refl)
within capability (entity ResourceType.work_assignment) Action.assign tool h k =
    (ResourceType.work_assignment, refl, refl)
within capability (entity ResourceType.commitment) Action.create tool h k =
    (ResourceType.commitment, refl, refl)
within capability (entity ResourceType.commitment) Action.change_state tool h k =
    (ResourceType.commitment, refl, refl)
within capability e action tool h k = absurd (cc k)

extracts :
    (capability : AgentCapability) (t : ToolName)
    → contains t (capability_tools capability) ≡ true
    → (capability ≡ extract)
      × (contains t (create_work ∷ create_commitment ∷ assign_work ∷ []) ≡ true)
unfolding capability_tools
extracts extract t k = (refl, k)
extracts _ t k = absurd (cc k)

-- Whatever rows a policy has, an agent that may use a tool holds the capability to extract, the
-- tool is one of the three that create work, create a commitment or assign work, and it performs
-- an action on a resource that `assert_within_agent_authority` lets through.
pub may_use_within_authority :
    (agent : AgentPrincipal) (tool : ToolName)
    → may_use agent tool ≡ true
    → Memᴰ extract agent.identity.capabilities
      × (contains tool (create_work ∷ create_commitment ∷ assign_work ∷ []) ≡ true)
      × ((action : Action) × (r : ResourceType) × (contains tool (tools_of (entity r) action)
            ≡ true)
          × (assert_within_agent_authority action r ≡ ok tt))
may_use_within_authority agent tool h =
    let e = (may_use_iff agent tool).0 h in
    let c = e.cell in
    let (r, named, allowed) =
      within c.capability c.entity_type c.action tool e.has_tool e.performs in
    let (is_extract, creates) = extracts c.capability tool e.has_tool in
    (
      subst (λ x. Memᴰ x agent.identity.capabilities) is_extract e.is_held,
      creates,
      (
        c.action,
        r,
        subst (λ x. contains tool (tools_of x c.action) ≡ true) named e.performs,
        allowed,
      ),
    )
