-- ===== src/Platform/Outbox.antt =====
-- `relay_once` of platform/outbox.py. Rows stand in the order of `seq`; `locked` are the rows that
-- other relays hold. The publisher is a parameter: it raises an error or returns.
pub mod Progress
use aiworkos.Base.{
  ℕ, zero, suc, ◌+◌, Bool, true, false, ◌&&◌, Option, none, some, List, [], ◌∷◌, map, ◌==◌, nat_eq,
  contains, is_none, length, if◌then◌else◌,
}
use aiworkos.Base.Text.{Text}

pub record OutboxRow (Event : Type 0) : Type 0 where
  pub id : ℕ
  pub event : Event
  pub published_at : Option ℕ
  pub attempts : ℕ
  pub last_error : Option Text

-- The error is cut to its first 500 characters.
abbrev pub first_chars : ℕ → Text → Text
first_chars zero text = []
first_chars (suc n) [] = []
first_chars (suc n) (c ∷ text) = c ∷ first_chars n text

module _ {Event : Type 0} where
  abbrev pub row_id : OutboxRow Event → ℕ
  row_id r = r.id

  abbrev pub is_unpublished : OutboxRow Event → Bool
  is_unpublished r = is_none r.published_at

  -- `_CLAIM`: at most `limit` unpublished rows that are not locked.
  unfoldable pub claim_batch : ℕ → List ℕ → List (OutboxRow Event) → List (OutboxRow Event)
  claim_batch zero locked rows = []
  claim_batch (suc limit) locked [] = []
  claim_batch (suc limit) locked (r ∷ rows) =
      let taken = r ∷ claim_batch limit locked rows in
      let passed_over = claim_batch (suc limit) locked rows in
      if is_unpublished r && (if contains r.id locked then false else true)
      then taken
      else passed_over

  -- `UPDATE outbox SET ... WHERE id = ANY(:ids)`
  abbrev pub update_any :
      List ℕ → (OutboxRow Event → OutboxRow Event) → List (OutboxRow Event) → List (OutboxRow Event)
  update_any ids g rows = map (λ r. if contains r.id ids then g r else r) rows

  abbrev pub mark_published : ℕ → OutboxRow Event → OutboxRow Event
  mark_published now r = record r { published_at = some now; attempts = r.attempts + 1 }

  abbrev pub mark_unpublished : Text → OutboxRow Event → OutboxRow Event
  mark_unpublished error r = record r {
    attempts = r.attempts + 1;
    last_error = some (first_chars 500 error);
  }

  -- The publisher answers with the error that it raises, if it raises one.
  abbrev pub settle :
      ℕ
      → (List Event → Option Text)
      → List (OutboxRow Event)
      → List (OutboxRow Event)
      → ℕ × List (OutboxRow Event)
  settle now publish rows [] = (0, rows)
  settle now publish rows (r ∷ batch) =
      let ids = map row_id (r ∷ batch) in
      elim (publish (map (λ x. x.event) (r ∷ batch))) [
        | some error ↦ (0, update_any ids (mark_unpublished error) rows)
        | none ↦ (length (r ∷ batch), update_any ids (mark_published now) rows)
      ]

  unfoldable pub relay_once :
      ℕ
      → (List Event → Option Text)
      → ℕ
      → List ℕ
      → List (OutboxRow Event)
      → ℕ × List (OutboxRow Event)
  unfolding claim_batch
  relay_once now publish limit locked rows = settle now publish rows (claim_batch limit locked rows)
