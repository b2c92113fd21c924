-- ===== src/Db/LogJobs/Frame.antt =====
-- Which rows of the jobs a statement leaves alone.
use rainlogs.Prelude.{
  ℕ, ◌+◌, ◌≡◌, refl, ◌∙◌, Bool, not, List, [], ◌∷◌, ◌++◌, append-nil, arith, length, length-append,
  length-update_where, select, update_where,
}
use rainlogs.Models.{LogJob}
use rainlogs.Db.LogJobs.{Table, has_id, create, assign, update, mark_expired, mark_verified}

-- The rows of every other job, in order.
abbrev pub others : ℕ → Table → Table
others id = select (λ j. not (has_id id j))

pub select-append {ℓ} :
    {A : Type ℓ} (p : A → Bool) (xs ys : List A) → select p (xs ++ ys) ≡ select p xs ++ select p ys
select-append p [] ys = refl
select-append p (x ∷ xs) ys = ground (arith, select-append p xs ys)

-- An update of the rows of one job, which keeps their identifier.
others-update_where :
    (id : ℕ) (f : LogJob → LogJob) (t : Table)
    → ((j : LogJob) → (f j).id ≡ j.id)
    → others id (update_where (has_id id) f t) ≡ others id t
others-update_where id f [] keep = refl
others-update_where id f (j ∷ t) keep = ground (arith, keep j, others-update_where id f t keep)

pub others-create :
    (now : ℕ) (j : LogJob) (t : Table) → others j.id (create now j t) ≡ others j.id t
unfolding create
others-create now j t =
    select-append (λ k. not (has_id j.id k)) t _ ∙ ground (arith, append-nil (others j.id t))

pub others-update :
    (now : ℕ) (j : LogJob) (t : Table) → others j.id (update now j t) ≡ others j.id t
unfolding update
others-update now j t = others-update_where j.id (assign now j) t (λ _. refl)

pub others-mark_expired : (now id : ℕ) (t : Table) → others id (mark_expired now id t) ≡ others id t
unfolding mark_expired
others-mark_expired now id t = others-update_where id _ t (λ _. refl)

pub others-mark_verified :
    (now id : ℕ) (t : Table) → others id (mark_verified now id t) ≡ others id t
unfolding mark_verified
others-mark_verified now id t = others-update_where id _ t (λ _. refl)

pub length-create : (now : ℕ) (j : LogJob) (t : Table) → length (create now j t) ≡ length t + 1
unfolding create
length-create now j t = length-append t _

pub length-update : (now : ℕ) (j : LogJob) (t : Table) → length (update now j t) ≡ length t
unfolding update
length-update now j t = length-update_where (has_id j.id) (assign now j) t
