-- ===== src/Work/Dependency.antt =====
-- Dependencies: find_cycle and validate_dependency of contexts/work/domain.py. The dictionary that
-- find_cycle builds is read as the function from a key to its list; the stack's top is the head of a
-- list. An endpoint's type is one of the two that its constructor admits.
pub mod Relation
pub mod Bound
pub mod Closed
pub mod Walks
pub mod Acyclic
use aiworkos.Base.{
  ℕ, zero, suc, ◌+◌, ◌≡◌, ◌↔◌, Bool, true, not, ◌&&◌, List, [], ◌∷◌, ◌++◌, map, arith, Eq, ◌==◌,
  nat_eq, Eq_of_positions, &&_iff, any, filter, contains, length, if◌then◌else◌,
}
use aiworkos.Base.Result.{Result, ok, ◌>>=◌, ◌>>◌, raise_if, br_d_01, br_d_02, br_d_04, br_d_06}
use aiworkos.Work.Vocabulary.{
  DependencyKind, DependencyStatus, dependency_kind_eq, dependency_status_eq,
}

pub data EndpointType : Type 0 where
  work milestone : EndpointType

abbrev pub endpoint_type_position : EndpointType → ℕ
endpoint_type_position EndpointType.work = 0
endpoint_type_position EndpointType.milestone = 1

pub endpoint_type_injective :
    (a b : EndpointType) → endpoint_type_position a ≡ endpoint_type_position b → a ≡ b
endpoint_type_injective a b h = ground arith

instance abbrev pub endpoint_type_eq : Eq EndpointType
endpoint_type_eq = Eq_of_positions endpoint_type_position endpoint_type_injective

pub record Endpoint : Type 0 where
  pub type : EndpointType
  pub id : ℕ

abbrev pub endpoint_beq : Endpoint → Endpoint → Bool
endpoint_beq a b = (a.type == b.type) && (a.id == b.id)

pub endpoint_beq_iff : (a b : Endpoint) → (endpoint_beq a b ≡ true) ↔ (a ≡ b)
endpoint_beq_iff a b = (λ h. ground arith, λ h. ground arith)

instance abbrev pub endpoint_eq : Eq Endpoint
endpoint_eq = record { beq = endpoint_beq; beq_iff = endpoint_beq_iff }

pub record DependencyEdge : Type 0 where
  pub blocker : Endpoint
  pub blocked : Endpoint
  pub kind : DependencyKind
  pub status : DependencyStatus

-- Only active `blocks` edges constrain scheduling.
abbrev pub constrains : DependencyEdge → Bool
constrains e = (e.kind == DependencyKind.blocks) && (e.status == DependencyStatus.active)

-- `graph.get(key, [])`
abbrev pub successors : List DependencyEdge → Endpoint → List Endpoint
successors edges key = map (λ e. e.blocked) (filter (λ e. constrains e && (e.blocker == key)) edges)

-- A node that waits on the stack, with the path that led to it.
abbrev pub Frame : Type 0
Frame = Endpoint × List Endpoint

-- The loop that pushes each successor in turn.
abbrev pub push : List Endpoint → List Endpoint → List Frame → List Frame
push [] path stack = stack
push (nxt ∷ rest) path stack = push rest path ((nxt, path) ∷ stack)

pub data Outcome : Type 0 where
  closes : List Endpoint → Outcome
  no_cycle out_of_fuel : Outcome

-- The `while stack` loop.
unfoldable pub search_from :
    List DependencyEdge → Endpoint → ℕ → List Frame → List Endpoint → Outcome
search_from edges target zero [] seen = no_cycle
search_from edges target zero (frame ∷ stack) seen = out_of_fuel
search_from edges target (suc fuel) [] seen = no_cycle
search_from edges target (suc fuel) ((node, path) ∷ stack) seen =
    let skip = search_from edges target fuel stack seen in
    let deeper =
      search_from edges target fuel (push (successors edges node) (path ++ node ∷ []) stack)
        (node ∷ seen) in
    if node == target
    then closes (path ++ node ∷ [])
    else if contains node seen
    then skip
    else deeper

-- `None` is `no_cycle`. The fuel is one round for the start and one for each edge.
unfoldable pub find_cycle : List DependencyEdge → DependencyEdge → Outcome
find_cycle edges candidate =
    let searched =
      search_from edges candidate.blocker (length edges + 1)
        ((candidate.blocked, candidate.blocker ∷ []) ∷ []) [] in
    if not (candidate.kind == DependencyKind.blocks) then no_cycle else searched

abbrev pub is_no_cycle : Outcome → Bool
is_no_cycle no_cycle = true
is_no_cycle _ = Bool.false

-- An active edge with the endpoints and the kind of the candidate.
abbrev pub is_duplicate : DependencyEdge → DependencyEdge → Bool
is_duplicate candidate e =
    (e.status == DependencyStatus.active)
    && (e.blocker == candidate.blocker)
    && (e.blocked == candidate.blocked)
    && (e.kind == candidate.kind)

-- `candidate`, `existing`, `blocker_org`, `blocked_org`
unfoldable pub validate_dependency :
    DependencyEdge → List DependencyEdge → ℕ → ℕ → Result (Unit {0})
validate_dependency candidate existing blocker_org blocked_org = do
  raise_if (candidate.blocker == candidate.blocked) br_d_01
  raise_if (not (blocker_org == blocked_org)) br_d_04
  raise_if (any (is_duplicate candidate) existing) br_d_06
  raise_if (not (is_no_cycle (find_cycle existing candidate))) br_d_02
  ok tt
