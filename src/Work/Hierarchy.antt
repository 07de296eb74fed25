-- ===== src/Work/Hierarchy.antt =====
-- validate_work_hierarchy of contexts/work/domain.py, over the parent pointers that
-- contexts/work/repository.py reads; its recursive query returns at most ten ancestors.
pub mod Placement
use aiworkos.Base.{ℕ, ◌+◌, Option, none, some, List, ◌==◌, nat_eq, ltb, contains, length}
use aiworkos.Base.Forest.{Forest, ancestors}
use aiworkos.Base.Result.{Result, ok, ◌>>=◌, ◌>>◌, raise_if, br_w_06}

-- `chain.depth < 10` in `_ANCESTORS`
abbrev pub query_depth : ℕ
query_depth = 10

unfoldable pub ancestor_ids : Forest → ℕ → List ℕ
ancestor_ids parents work_id = ancestors parents query_depth work_id

unfoldable pub validate_work_hierarchy : ℕ → Option ℕ → List ℕ → Result (Unit {0})
validate_work_hierarchy work_id none chain = ok tt
validate_work_hierarchy work_id (some parent_id) chain = do
  raise_if (parent_id == work_id) br_w_06
  raise_if (contains work_id chain) br_w_06
  raise_if (ltb 3 (length chain + 2)) br_w_06
  ok tt
