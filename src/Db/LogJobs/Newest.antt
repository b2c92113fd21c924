-- ===== src/Db/LogJobs/Newest.antt =====
-- Which row GetLastJob of internal/db/repositories.go answers.
use mathlib.Core.List.{Memᴰ}
use rainlogs.Prelude.{
  ℕ, ◌≤◌, ◌≡◌, refl, ap, sym, ◌∙◌, subst, ◌⊎◌, inl, inr, arith, Bool, true, false, ◌&&◌, ◌==◌,
  ==_iff, Option, none, some, if◌then◌else◌, List, [], ◌∷◌, select, Bool-cases, All,
}
use rainlogs.Models.{LogJob, JobStatus, is_done}
use rainlogs.Db.Selected.{select-All_rows, select-All_only}
use rainlogs.Db.LogJobs.{Table, later_than, later_of, latest, get_last_job}

-- A row that was not created after the other one, or at the same time with no greater identifier.
abbrev pub NotAfter : LogJob → LogJob → Type 0
NotAfter k j = (k.created_at ≤ j.created_at) × (k.created_at ≡ j.created_at → k.id ≤ j.id)

abbrev pub IsOf : ℕ → LogJob → Type 0
IsOf zone j = (j.zone_id ≡ zone) × (j.status ≡ JobStatus.done)

-- The newest done job of the zone, or none where there is none.
abbrev pub IsNewest : ℕ → Table → Option LogJob → Type 0
IsNewest zone t last = elim last [
  | none ↦ All (λ j. ¬ IsOf zone j) t
  | some j ↦ Memᴰ j t × IsOf zone j × All (λ k. IsOf zone k → NotAfter k j) t
]

All-imp :
    {P Q : LogJob → Type 0} (js : List LogJob) → ((j : LogJob) → P j → Q j) → All P js → All Q js
All-imp [] f h = tt
All-imp (j ∷ js) f h = (f j h.0, All-imp js f h.1)

later_than-NotAfter :
    (k j : LogJob)
    → ((later_than k j ≡ true) × NotAfter j k) ⊎ ((later_than k j ≡ false) × NotAfter k j)
unfolding later_than
later_than-NotAfter k j = elim (Bool-cases (later_than k j)) [
  | inl e ↦ inl (e, (ground arith, λ s. ground arith))
  | inr e ↦ inr (e, (ground arith, λ s. ground arith))
]

abbrev Best : (LogJob → Type 0) → List LogJob → Option LogJob → Type 0
Best P js o = elim o [ none ↦ js ≡ [] | some j ↦ P j × All (λ k. NotAfter k j) js ]

NotAfter-trans : (x k j : LogJob) → NotAfter k j → NotAfter x k → NotAfter x j
NotAfter-trans x k j (p, q) (r, s) = (ground arith, λ e. ground arith)

later_of-Best :
    (P : LogJob → Type 0) (j : LogJob) (js : List LogJob) (o : Option LogJob)
    → P j
    → Best P js o
    → Best P (j ∷ js) (some (later_of j o))
unfolding later_of
later_of-Best P j js none p nil =
    (p, ((ground arith, λ e. ground arith), subst (λ l. All (λ k. NotAfter k j) l) (sym nil) tt))
later_of-Best P j js (some k) p (q, all) = elim (later_than-NotAfter k j) [
  | inl (later, before) ↦
      subst (λ b. Best P (j ∷ js) (some (if b then k else j))) (sym later) (q, (before, all))
  | inr (not_later, after) ↦
      subst (λ b. Best P (j ∷ js) (some (if b then k else j))) (sym not_later)
        (
          p,
          ((ground arith, λ e. ground arith), All-imp js (λ x h. NotAfter-trans x k j after h) all),
        )
]

latest-Best : (P : LogJob → Type 0) (js : List LogJob) → All P js → Best P js (latest js)
unfolding latest
latest-Best P [] h = refl
latest-Best P (j ∷ js) h = later_of-Best P j js (latest js) h.0 (latest-Best P js h.1)

is_done_lem : (s : JobStatus) → is_done s ≡ true → s ≡ JobStatus.done
is_done_lem JobStatus.done h = refl
is_done_lem JobStatus.pending h = cc
is_done_lem JobStatus.running h = cc
is_done_lem JobStatus.failed h = cc
is_done_lem JobStatus.expired h = cc

abbrev passes : ℕ → LogJob → Bool
passes zone j = (j.zone_id == zone) && is_done j.status

passes-IsOf : (zone : ℕ) (j : LogJob) → passes zone j ≡ true → IsOf zone j
passes-IsOf zone j h = elim (Bool-cases (j.zone_id == zone)) [
  | inl same ↦ ((==_iff _ _).0 same, is_done_lem _ (sym (ap (λ b. b && is_done j.status) same) ∙ h))
  | inr other ↦ ground (arith, other, h)
]

IsOf-passes : (zone : ℕ) (j : LogJob) → IsOf zone j → passes zone j ≡ true
IsOf-passes zone j (own, finished) = rw ((==_iff _ _).1 own, finished) refl

-- GetLastJob answers the newest job of the zone that is done.
pub get_last_job-IsNewest : (zone : ℕ) (t : Table) → IsNewest zone t (get_last_job zone t)
unfolding get_last_job
get_last_job-IsNewest zone t =
    let js = select (passes zone) t in
    newest_lem (latest js) (
      latest-Best (λ j. Memᴰ j t × IsOf zone j) js
        (select-All_rows _ (passes zone) t (λ j there h. (there, passes-IsOf zone j h))))
  where
    newest_lem :
        (o : Option LogJob)
        → Best (λ j. Memᴰ j t × IsOf zone j) (select (passes zone) t) o
        → IsNewest zone t o
    newest_lem none nil =
        All-imp t (λ j h own. h (IsOf-passes zone j own))
          (select-All_only (λ j. ⊥) (passes zone) t (subst (λ l. All (λ j. ⊥) l) (sym nil) tt))
    newest_lem (some j) ((there, own), all) = (
      there,
      own,
      All-imp t (λ k h mine. h (IsOf-passes zone k mine))
          (select-All_only (λ k. NotAfter k j) (passes zone) t all),
    )
