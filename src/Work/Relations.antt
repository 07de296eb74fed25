-- ===== src/Work/Relations.antt =====
-- How a caller is related to the rows of the Work Core: contexts/work/authorization.py. A frozen set
-- is a list that is read by membership, as the policy reads it.
use aiworkos.Base.{
  ℕ, Bool, ◌&&◌, ◌||◌, Option, none, some, List, [], ◌∷◌, ◌++◌, ◌==◌, nat_eq, option_eq, contains,
  if◌then◌else◌,
}
use aiworkos.Platform.Authz.Model.{Relation}
use aiworkos.Platform.Repository.{get}
use aiworkos.Work.Dependency.{Endpoint, EndpointType}
use aiworkos.Work.Rows.{
  Project, Milestone, Work, WorkAssignment, projects_table, milestones_table, works_table,
}
use aiworkos.Work.Store.{Store, WorkContext, org_of}
use aiworkos.Work.Queries.{work_ids_assigned_to}

pub record ActorReach : Type 0 where
  pub person_id : ℕ
  pub org_id : ℕ
  pub team_ids : List ℕ
  pub department_ids : List ℕ
  pub department_team_ids : List ℕ
  pub assigned_work_ids : List ℕ

unfoldable pub reach_of : WorkContext → Store → ActorReach
reach_of ctx s =
    let departments = ctx.identity.departments_led_by (org_of ctx) ctx.principal.person_id in
    record {
      person_id = ctx.principal.person_id;
      org_id = org_of ctx;
      team_ids = ctx.identity.team_ids_for_person (org_of ctx) ctx.principal.person_id;
      department_ids = departments;
      department_team_ids = ctx.identity.team_ids_in_departments (org_of ctx) departments;
      assigned_work_ids = work_ids_assigned_to (org_of ctx) ctx.principal.person_id s;
    }

-- `id is not None and id in ids`
abbrev pub is_in : Option ℕ → List ℕ → Bool
is_in none ids = Bool.false
is_in (some id) ids = contains id ids

abbrev pub added : Bool → Relation → List Relation
added test relation = if test then relation ∷ [] else []

unfoldable pub project_relations : ActorReach → Project → List Relation
project_relations reach p =
    added (is_in p.owning_team_id reach.team_ids) Relation.in_team
    ++ added
        (is_in p.department_id reach.department_ids
          || is_in p.owning_team_id reach.department_team_ids)
        Relation.in_department
    ++ added
        ((p.lead_person_id == some reach.person_id)
          || (p.sponsor_person_id == some reach.person_id))
        Relation.personal

unfoldable pub milestone_relations : ActorReach → Option Project → List Relation
milestone_relations reach none = []
milestone_relations reach (some p) = project_relations reach p

unfoldable pub work_relations : ActorReach → Work → Option Project → List Relation
work_relations reach w project_of_work =
    milestone_relations reach project_of_work
    ++ added (contains w.id reach.assigned_work_ids) Relation.personal

unfoldable pub work_authorship_relations : ActorReach → Work → Option Project → List Relation
work_authorship_relations reach w project_of_work =
    work_relations reach w project_of_work
    ++ added (w.created_by_person_id == some reach.person_id) Relation.personal

-- The last argument is the person who is put onto the work, where the caller names one.
unfoldable pub assignment_creation_relations :
    ActorReach → Work → Option Project → Option ℕ → List Relation
assignment_creation_relations reach w project_of_work person_id =
    work_relations reach w project_of_work
    ++ added
        ((person_id == some reach.person_id) && (w.created_by_person_id == some reach.person_id))
        Relation.personal

unfoldable pub assignment_relations : ActorReach → Option Project → WorkAssignment → List Relation
assignment_relations reach project_of_work a =
    milestone_relations reach project_of_work
    ++ added (a.person_id == reach.person_id) Relation.personal

-- `_project_of`
abbrev pub project_of : ℕ → Option ℕ → Store → Option Project
project_of org_id none s = none
project_of org_id (some project_id) s = get projects_table org_id project_id s.projects

abbrev pub milestone_project : Milestone → Store → Option Project
milestone_project m s = project_of m.org_id (some m.project_id) s

abbrev pub work_project : Work → Store → Option Project
work_project w s = project_of w.org_id w.project_id s

-- One round of the loop of `dependency_relations`.
abbrev pub endpoint_relations : ActorReach → Endpoint → Store → List Relation
endpoint_relations reach endpoint s = elim endpoint.type [
  | EndpointType.work ↦ elim (get works_table reach.org_id endpoint.id s.works) [
    | none ↦ []
    | some w ↦ work_relations reach w (project_of reach.org_id w.project_id s)
  ]
  | EndpointType.milestone ↦ elim (get milestones_table reach.org_id endpoint.id s.milestones) [
    | none ↦ []
    | some m ↦ milestone_relations reach (project_of reach.org_id (some m.project_id) s)
  ]
]

unfoldable pub dependency_relations : ActorReach → Endpoint → Endpoint → Store → List Relation
dependency_relations reach blocker blocked s =
    endpoint_relations reach blocker s ++ endpoint_relations reach blocked s
