-- ===== src/Db/LogJobs/Rows.antt =====
-- What a read of the jobs finds after a statement that writes them.
use rainlogs.Prelude.{
  ℕ, ◌≡◌, refl, ap, ◌∙◌, Bool, true, false, ◌&&◌, none, some, [], ◌∷◌, ◌++◌, append-nil, arith,
  ◌==◌, ==_iff, ==_refl, select, update_where, leb, sum_of, find_first, find_first_hit,
  find_first_miss, select_miss, Bool-cases, inl, inr,
}
use rainlogs.Calendar.{month_start}
use rainlogs.Models.{LogJob, is_done}
use rainlogs.Db.LogJobs.{
  Table, has_id, inserted, create, assign, update, get_by_id, get_last_job, latest,
  get_current_usage,
}
use rainlogs.Db.LogJobs.Frame.{select-append}

pub get_by_id-create :
    (now : ℕ) (j : LogJob) (t : Table)
    → get_by_id j.id t ≡ none
    → get_by_id j.id (create now j t) ≡ some (inserted now j)
unfolding get_by_id create
get_by_id-create now j [] h = rw (==_refl j.id) refl
get_by_id-create now j (k ∷ t) h = ground (arith, get_by_id-create now j t)

pub find-update_where :
    (id : ℕ) (f : LogJob → LogJob) (t : Table) {r : LogJob}
    → ((j : LogJob) → (f j).id ≡ j.id)
    → find_first (has_id id) t ≡ some r
    → find_first (has_id id) (update_where (has_id id) f t) ≡ some (f r)
find-update_where id f [] keep h = ground arith
find-update_where id f (k ∷ t) {r} keep h = elim (Bool-cases (has_id id k)) [
  | inl hit ↦
      let same : k ≡ r = cc (h, find_first_hit (has_id id) k t hit) in
      rw (hit, ← same) (find_first_hit (has_id id) (f k) _ (rw (keep k) hit))
  | inr miss ↦ rw miss (
      find_first_miss (has_id id) k _ miss
      ∙ find-update_where id f t keep (cc (h, find_first_miss (has_id id) k t miss)))
]

pub get_by_id-update :
    (now : ℕ) (j : LogJob) (t : Table) {r : LogJob}
    → get_by_id j.id t ≡ some r
    → get_by_id j.id (update now j t) ≡ some (assign now j r)
unfolding get_by_id update
get_by_id-update now j t h = find-update_where j.id (assign now j) t (λ _. refl) h

pub get_by_id-id : (id : ℕ) (t : Table) {r : LogJob} → get_by_id id t ≡ some r → r.id ≡ id
unfolding get_by_id
get_by_id-id id [] h = ground arith
get_by_id-id id (k ∷ t) {r} h = elim (Bool-cases (has_id id k)) [
  | inl hit ↦
      let same : k ≡ r = cc (h, find_first_hit (has_id id) k t hit) in
      rw (← same) ((==_iff k.id id).0 hit)
  | inr miss ↦ get_by_id-id id t {r = r} (cc (h, find_first_miss (has_id id) k t miss))
]

&&-false : (b : Bool) → (b && false) ≡ false
&&-false true = refl
&&-false false = refl

-- A new job that is not done is no last job.
pub get_last_job-create :
    (now zone : ℕ) (j : LogJob) (t : Table)
    → is_done j.status ≡ false
    → get_last_job zone (create now j t) ≡ get_last_job zone t
unfolding get_last_job create
get_last_job-create now zone j t h =
    let wanted : LogJob → Bool = λ k. (k.zone_id == zone) && is_done k.status in
    ap latest (
      select-append wanted t _
      ∙ ap (λ r. select wanted t ++ r) (select_miss wanted (inserted now j) [] (rw h (&&-false _)))
      ∙ append-nil _)

&&-false_middle : (a b : Bool) → (a && false && b) ≡ false
&&-false_middle true b = refl
&&-false_middle false b = refl

pub get_current_usage-create :
    (now customer : ℕ) (j : LogJob) (t : Table)
    → is_done j.status ≡ false
    → get_current_usage now customer (create now j t) ≡ get_current_usage now customer t
unfolding get_current_usage create
get_current_usage-create now customer j t h =
    let counted : LogJob → Bool =
      λ k. (k.customer_id == customer) && is_done k.status && leb (month_start now) k.created_at in
    ap (sum_of (λ k. k.byte_count)) (
      select-append counted t _
      ∙ ap (λ r. select counted t ++ r)
          (select_miss counted (inserted now j) [] (rw h (&&-false_middle _ _)))
      ∙ append-nil _)
