-- ===== src/Platform/Jobs/Runnable.antt =====
-- The WHERE and ORDER BY of a claim, in words of their own.
use aiworkos.Base.{
  ℕ, ◌≤◌, ◌<◌, ◌≡◌, ◌⊎◌, inl, inr, refl, ◌↔◌, true, false, List, [], ◌∷◌, arith, nat_eq, contains,
  All,
}
use aiworkos.Platform.Jobs.{JobStatus, job_status_eq, Job, is_asked, is_runnable, comes_before}

-- A job that a worker may take: it is queued, due, of a kind that is asked for if any are, and not
-- held by another worker.
pub record IsRunnable (now : ℕ) (kinds locked : List ℕ) (j : Job) : Type 0 where
  pub is_pending : j.status ≡ JobStatus.pending
  pub is_due : j.run_after ≤ now
  pub is_of_kind : (kinds ≡ []) ⊎ (contains j.kind kinds ≡ true)
  pub is_free : contains j.id locked ≡ false

-- Earlier by time, and at one time no later by id.
abbrev pub IsBefore : Job → Job → Type 0
IsBefore a b = (a.run_after < b.run_after) ⊎ ((a.run_after ≡ b.run_after) × (a.id ≤ b.id))

is_asked_iff :
    (kinds : List ℕ) (kind : ℕ)
    → (is_asked kinds kind ≡ true) ↔ ((kinds ≡ []) ⊎ (contains kind kinds ≡ true))
is_asked_iff [] kind = (λ h. inl refl, λ h. refl)
is_asked_iff (k ∷ kinds) kind = (λ h. inr h, λ h. elim h [ inl e ↦ absurd (cc e) | inr e ↦ e ])

module _ (now : ℕ) (kinds locked : List ℕ) (j : Job) where
  pub IsRunnable-of_test : is_runnable now kinds locked j ≡ true → IsRunnable now kinds locked j
  IsRunnable-of_test h = record {
    is_pending = ground arith;
    is_due = ground arith;
    is_of_kind = (is_asked_iff kinds j.kind).0 (ground arith);
    is_free = ground arith;
  }

  pub IsRunnable-test : IsRunnable now kinds locked j → is_runnable now kinds locked j ≡ true
  IsRunnable-test h =
      ground (arith, h.is_pending, h.is_due, (is_asked_iff kinds j.kind).1 h.is_of_kind, h.is_free)

pub comes_before-IsBefore : (a b : Job) → comes_before a b ≡ true → IsBefore a b
comes_before-IsBefore a b h = ground arith

pub All-map :
    {P Q : Job → Type 0} (jobs : List Job) → ((x : Job) → P x → Q x) → All P jobs → All Q jobs
All-map [] f h = tt
All-map (x ∷ jobs) f h = (f x h.0, All-map jobs f h.1)
