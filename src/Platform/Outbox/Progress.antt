-- ===== src/Platform/Outbox/Progress.antt =====
-- What one turn of the relay does to the events that wait.
use aiworkos.Base.{
  ℕ, zero, suc, ◌+◌, ◌≡◌, refl, ap, inl, inr, true, false, ◌&&◌, Option, none, List, [], ◌∷◌, map,
  arith, nat_eq, contains, length, count, Bool-cases, Option-cases, beq_refl, if◌then◌else◌,
}
use aiworkos.Base.Text.{Text}
use aiworkos.Base.Table.{find, IsKeyed}
use aiworkos.Platform.Outbox.{
  OutboxRow, row_id, is_unpublished, claim_batch, update_any, mark_published, mark_unpublished,
  settle, relay_once,
}

module _ {Event : Type 0} where
  -- An id that no row has is not in a batch.
  claim_batch-absent :
      (k limit : ℕ) (locked : List ℕ) (rows : List (OutboxRow Event))
      → find row_id k rows ≡ none
      → contains k (map row_id (claim_batch limit locked rows)) ≡ false
  unfolding claim_batch
  claim_batch-absent k zero locked rows h = refl
  claim_batch-absent k (suc limit) locked [] h = refl
  claim_batch-absent k (suc limit) locked (r ∷ rows) h = ground (
    arith,
    claim_batch-absent k limit locked rows,
    claim_batch-absent k (suc limit) locked rows,
    nat_eq.beq_iff r.id k,
    nat_eq.beq_iff k r.id,
  )

  -- A further id that no row has changes nothing.
  update_any-absent :
      (k : ℕ) (ids : List ℕ) (g : OutboxRow Event → OutboxRow Event) (rows : List (OutboxRow Event))
      → find row_id k rows ≡ none
      → update_any (k ∷ ids) g rows ≡ update_any ids g rows
  update_any-absent k ids g [] h = refl
  update_any-absent k ids g (r ∷ rows) h =
      ground (arith, update_any-absent k ids g rows, nat_eq.beq_iff r.id k)

  update_any-none :
      (g : OutboxRow Event → OutboxRow Event) (rows : List (OutboxRow Event))
      → update_any [] g rows ≡ rows
  update_any-none g [] = refl
  update_any-none g (r ∷ rows) = ap (λ rest. r ∷ rest) (update_any-none g rows)

  published-count :
      (now limit : ℕ) (locked : List ℕ) (rows : List (OutboxRow Event))
      → IsKeyed row_id rows
      → count is_unpublished
            (update_any (map row_id (claim_batch limit locked rows)) (mark_published now) rows)
          + length (claim_batch limit locked rows)
        ≡ count is_unpublished rows
  unfolding claim_batch
  published-count now zero locked rows keyed =
      omega (arith, ap (count is_unpublished) (update_any-none (mark_published now) rows))
  published-count now (suc limit) locked [] keyed = omega arith
  published-count now (suc limit) locked (r ∷ rows) keyed =
      elim (Bool-cases (is_unpublished r && (if contains r.id locked then false else true))) [
        | inl taken ↦ ground (
          arith,
          published-count now limit locked rows keyed.1,
          update_any-absent r.id (map row_id (claim_batch limit locked rows)) (mark_published now)
              rows keyed.0,
          beq_refl r.id,
        )
        | inr skipped ↦ ground (
          arith,
          published-count now (suc limit) locked rows keyed.1,
          claim_batch-absent r.id (suc limit) locked rows keyed.0,
        )
      ]

  failed-count :
      (ids : List ℕ) (error : Text) (rows : List (OutboxRow Event))
      → count is_unpublished (update_any ids (mark_unpublished error) rows)
        ≡ count is_unpublished rows
  failed-count ids error [] = refl
  failed-count ids error (r ∷ rows) = ground (arith, failed-count ids error rows)

  events-update_any :
      (ids : List ℕ) (g : OutboxRow Event → OutboxRow Event) (rows : List (OutboxRow Event))
      → ((r : OutboxRow Event) → (g r).event ≡ r.event)
      → map (λ r. r.event) (update_any ids g rows) ≡ map (λ r. r.event) rows
  events-update_any ids g [] keeps = refl
  events-update_any ids g (r ∷ rows) keeps =
      ground (arith, events-update_any ids g rows keeps, keeps r)

  settled :
      (now : ℕ) (publish : List Event → Option Text) (rows batch : List (OutboxRow Event))
      → count is_unpublished (update_any (map row_id batch) (mark_published now) rows)
          + length batch
        ≡ count is_unpublished rows
      → let (handled, after) = settle now publish rows batch in
        (count is_unpublished after + handled ≡ count is_unpublished rows)
        × (map (λ r. r.event) after ≡ map (λ r. r.event) rows)
  settled now publish rows [] h = (omega arith, refl)
  settled now publish rows (r ∷ batch) h =
      elim (Option-cases (publish (map (λ x. x.event) (r ∷ batch)))) [
        | inr (error, e) ↦
            rw (e, settle)
              (
                omega (arith, failed-count (map row_id (r ∷ batch)) error rows),
                events-update_any (map row_id (r ∷ batch)) (mark_unpublished error) rows
                    (λ x. refl),
              )
        | inl e ↦
            rw (e, settle)
              (h, events-update_any (map row_id (r ∷ batch)) (mark_published now) rows (λ x. refl))
      ]

  -- Where ids are unique, one turn of the relay reports exactly as many events as stop waiting, and
  -- no event is lost, changed or moved, whether the publisher returns or raises.
  pub relay_once_counts :
      (now : ℕ) (publish : List Event → Option Text) (limit : ℕ) (locked : List ℕ)
      (rows : List (OutboxRow Event))
      → IsKeyed row_id rows
      → let (handled, after) = relay_once now publish limit locked rows in
        (count is_unpublished after + handled ≡ count is_unpublished rows)
        × (map (λ r. r.event) after ≡ map (λ r. r.event) rows)
  unfolding relay_once
  relay_once_counts now publish limit locked rows keyed =
      settled now publish rows (claim_batch limit locked rows)
        (published-count now limit locked rows keyed)
