-- ===== src/Identity/Vocabulary.antt =====
-- The vocabulary of contexts/identity/domain.py. UnitStatus and TeamRole are stored and never tested
-- by the rules, so they are left out.
use aiworkos.Base.{ℕ, ◌≡◌, arith, Eq, Eq_of_positions}

pub data PersonStatus : Type 0 where
  active inactive departed : PersonStatus

abbrev pub person_status_position : PersonStatus → ℕ
person_status_position PersonStatus.active = 0
person_status_position PersonStatus.inactive = 1
person_status_position PersonStatus.departed = 2

pub person_status_injective :
    (a b : PersonStatus) → person_status_position a ≡ person_status_position b → a ≡ b
person_status_injective a b h = ground arith

instance abbrev pub person_status_eq : Eq PersonStatus
person_status_eq = Eq_of_positions person_status_position person_status_injective

pub data MembershipStatus : Type 0 where
  active suspended ended : MembershipStatus

abbrev pub membership_status_position : MembershipStatus → ℕ
membership_status_position MembershipStatus.active = 0
membership_status_position MembershipStatus.suspended = 1
membership_status_position MembershipStatus.ended = 2

pub membership_status_injective :
    (a b : MembershipStatus) → membership_status_position a ≡ membership_status_position b → a ≡ b
membership_status_injective a b h = ground arith

instance abbrev pub membership_status_eq : Eq MembershipStatus
membership_status_eq = Eq_of_positions membership_status_position membership_status_injective

pub data ScopeType : Type 0 where
  organization department team project : ScopeType

abbrev pub scope_type_position : ScopeType → ℕ
scope_type_position ScopeType.organization = 0
scope_type_position ScopeType.department = 1
scope_type_position ScopeType.team = 2
scope_type_position ScopeType.project = 3

pub scope_type_injective : (a b : ScopeType) → scope_type_position a ≡ scope_type_position b → a ≡ b
scope_type_injective a b h = ground arith

instance abbrev pub scope_type_eq : Eq ScopeType
scope_type_eq = Eq_of_positions scope_type_position scope_type_injective
