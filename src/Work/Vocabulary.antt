-- ===== src/Work/Vocabulary.antt =====
-- The vocabulary of the Work Core: the enumerations of contexts/work/domain.py. Members are compared
-- by their positions in the declaration. WorkType and WorkPriority are stored and never tested, so
-- they are left out.
use aiworkos.Base.{ℕ, ◌≡◌, arith, Eq, Eq_of_positions}

pub data WorkStatus : Type 0 where
  proposed todo in_progress blocked done cancelled rejected : WorkStatus

abbrev pub work_status_position : WorkStatus → ℕ
work_status_position WorkStatus.proposed = 0
work_status_position WorkStatus.todo = 1
work_status_position WorkStatus.in_progress = 2
work_status_position WorkStatus.blocked = 3
work_status_position WorkStatus.done = 4
work_status_position WorkStatus.cancelled = 5
work_status_position WorkStatus.rejected = 6

pub work_status_injective :
    (a b : WorkStatus) → work_status_position a ≡ work_status_position b → a ≡ b
work_status_injective a b h = ground arith

instance abbrev pub work_status_eq : Eq WorkStatus
work_status_eq = Eq_of_positions work_status_position work_status_injective

pub data ProjectStatus : Type 0 where
  proposed active on_hold completed cancelled : ProjectStatus

abbrev pub project_status_position : ProjectStatus → ℕ
project_status_position ProjectStatus.proposed = 0
project_status_position ProjectStatus.active = 1
project_status_position ProjectStatus.on_hold = 2
project_status_position ProjectStatus.completed = 3
project_status_position ProjectStatus.cancelled = 4

pub project_status_injective :
    (a b : ProjectStatus) → project_status_position a ≡ project_status_position b → a ≡ b
project_status_injective a b h = ground arith

instance abbrev pub project_status_eq : Eq ProjectStatus
project_status_eq = Eq_of_positions project_status_position project_status_injective

pub data MilestoneStatus : Type 0 where
  planned in_progress achieved missed cancelled : MilestoneStatus

abbrev pub milestone_status_position : MilestoneStatus → ℕ
milestone_status_position MilestoneStatus.planned = 0
milestone_status_position MilestoneStatus.in_progress = 1
milestone_status_position MilestoneStatus.achieved = 2
milestone_status_position MilestoneStatus.missed = 3
milestone_status_position MilestoneStatus.cancelled = 4

pub milestone_status_injective :
    (a b : MilestoneStatus) → milestone_status_position a ≡ milestone_status_position b → a ≡ b
milestone_status_injective a b h = ground arith

instance abbrev pub milestone_status_eq : Eq MilestoneStatus
milestone_status_eq = Eq_of_positions milestone_status_position milestone_status_injective

pub data AssignmentRole : Type 0 where
  owner contributor reviewer : AssignmentRole

abbrev pub assignment_role_position : AssignmentRole → ℕ
assignment_role_position AssignmentRole.owner = 0
assignment_role_position AssignmentRole.contributor = 1
assignment_role_position AssignmentRole.reviewer = 2

pub assignment_role_injective :
    (a b : AssignmentRole) → assignment_role_position a ≡ assignment_role_position b → a ≡ b
assignment_role_injective a b h = ground arith

instance abbrev pub assignment_role_eq : Eq AssignmentRole
assignment_role_eq = Eq_of_positions assignment_role_position assignment_role_injective

pub data AssignmentStatus : Type 0 where
  active ended : AssignmentStatus

abbrev pub assignment_status_position : AssignmentStatus → ℕ
assignment_status_position AssignmentStatus.active = 0
assignment_status_position AssignmentStatus.ended = 1

pub assignment_status_injective :
    (a b : AssignmentStatus) → assignment_status_position a ≡ assignment_status_position b → a ≡ b
assignment_status_injective a b h = ground arith

instance abbrev pub assignment_status_eq : Eq AssignmentStatus
assignment_status_eq = Eq_of_positions assignment_status_position assignment_status_injective

pub data DependencyKind : Type 0 where
  blocks informs : DependencyKind

abbrev pub dependency_kind_position : DependencyKind → ℕ
dependency_kind_position DependencyKind.blocks = 0
dependency_kind_position DependencyKind.informs = 1

pub dependency_kind_injective :
    (a b : DependencyKind) → dependency_kind_position a ≡ dependency_kind_position b → a ≡ b
dependency_kind_injective a b h = ground arith

instance abbrev pub dependency_kind_eq : Eq DependencyKind
dependency_kind_eq = Eq_of_positions dependency_kind_position dependency_kind_injective

pub data DependencyStatus : Type 0 where
  active resolved withdrawn : DependencyStatus

abbrev pub dependency_status_position : DependencyStatus → ℕ
dependency_status_position DependencyStatus.active = 0
dependency_status_position DependencyStatus.resolved = 1
dependency_status_position DependencyStatus.withdrawn = 2

pub dependency_status_injective :
    (a b : DependencyStatus) → dependency_status_position a ≡ dependency_status_position b → a ≡ b
dependency_status_injective a b h = ground arith

instance abbrev pub dependency_status_eq : Eq DependencyStatus
dependency_status_eq = Eq_of_positions dependency_status_position dependency_status_injective

pub data Visibility : Type 0 where
  organization department team restricted : Visibility

abbrev pub visibility_position : Visibility → ℕ
visibility_position Visibility.organization = 0
visibility_position Visibility.department = 1
visibility_position Visibility.team = 2
visibility_position Visibility.restricted = 3

pub visibility_injective :
    (a b : Visibility) → visibility_position a ≡ visibility_position b → a ≡ b
visibility_injective a b h = ground arith

instance abbrev pub visibility_eq : Eq Visibility
visibility_eq = Eq_of_positions visibility_position visibility_injective

pub data Source : Type 0 where
  human ai imported : Source

abbrev pub source_position : Source → ℕ
source_position Source.human = 0
source_position Source.ai = 1
source_position Source.imported = 2

pub source_injective : (a b : Source) → source_position a ≡ source_position b → a ≡ b
source_injective a b h = ground arith

instance abbrev pub source_eq : Eq Source
source_eq = Eq_of_positions source_position source_injective
