-- ===== src/Worker/Expire/Marks.antt =====
-- Rows that are expired stay expired, and objects that are gone stay gone.
use rainlogs.Prelude.{
  ℕ, ◌≡◌, refl, subst, sym, ◌∙◌, inl, inr, arith, Bool, none, some, List, [], ◌∷◌, Bytes, bytes_eq,
  bytes_eq_iff, ◌==◌, ==_iff, ==_refl, Bool-cases, All, select, select_hit, select_miss,
  find_first_hit, find_first_miss,
}
use rainlogs.Models.{LogJob, JobStatus}
use rainlogs.Storage.{Codec, Backend, object}
use rainlogs.Storage.Deletion.{cleared, object-remove_object, object-remove_object_ne}
use rainlogs.Db.LogJobs
use rainlogs.Db.LogJobs.{has_id, get_by_id, list_expired, mark_expired}
use rainlogs.Db.LogJobs.Rows.{find-update_where}
use rainlogs.Worker.Expire.Retention.{All-imp, get_by_id-mark_expired_ne}

-- The row of the identifier is expired.
abbrev pub IsExpired : ℕ → LogJobs.Table → Type 0
IsExpired id t = (r : LogJob) × (get_by_id id t ≡ some r) × (r.status ≡ JobStatus.expired)

-- No provider holds the key.
abbrev pub IsGone : Bytes → List Backend → Type 0
IsGone key bs = All (λ b. object key b.objects ≡ none) bs

abbrev pub Present : ℕ → LogJobs.Table → Type 0
Present id t = (r : LogJob) × (get_by_id id t ≡ some r)

pub mark_expired-IsExpired :
    (now id : ℕ) (t : LogJobs.Table) → Present id t → IsExpired id (mark_expired now id t)
unfolding get_by_id mark_expired
mark_expired-IsExpired now id t (r, found) = (
  _,
  find-update_where id (λ r. record r { status = JobStatus.expired; updated_at = now }) t
      (λ _. refl) found,
  refl,
)

pub keep-IsExpired :
    (now i id : ℕ) (t : LogJobs.Table) → IsExpired id t → IsExpired id (mark_expired now i t)
keep-IsExpired now i id t (r, found, expired) = elim (Bool-cases (i == id)) [
  | inl same ↦
      let e : i ≡ id = (==_iff i id).0 same in rw e (mark_expired-IsExpired now id t (r, found))
  | inr differ ↦ (
    r,
    get_by_id-mark_expired_ne now i id t (λ e. let h = (==_iff i id).1 e in ground arith) ∙ found,
    expired,
  )
]

pub keep-Present :
    (now i id : ℕ) (t : LogJobs.Table) → Present id t → Present id (mark_expired now i t)
keep-Present now i id t (r, found) = elim (Bool-cases (i == id)) [
  | inl same ↦
      let e : i ≡ id = (==_iff i id).0 same in
      let (s, there, expired) = mark_expired-IsExpired now id t (r, found) in rw e (s, there)
  | inr differ ↦ (
    r,
    get_by_id-mark_expired_ne now i id t (λ e. let h = (==_iff i id).1 e in ground arith) ∙ found,
  )
]

pub cleared-IsGone :
    (codec : Codec) (key : Bytes) (bs : List Backend) → IsGone key (cleared codec key bs)
cleared-IsGone codec key [] = tt
cleared-IsGone codec key (b ∷ bs) =
    (object-remove_object key b.objects, cleared-IsGone codec key bs)

pub keep-IsGone :
    (codec : Codec) (k key : Bytes) (bs : List Backend)
    → IsGone key bs
    → IsGone key (cleared codec k bs)
keep-IsGone codec k key [] h = tt
keep-IsGone codec k key (b ∷ bs) h = elim (Bool-cases (bytes_eq k key)) [
  | inl same ↦
      let e : k ≡ key = (bytes_eq_iff k key).0 same in
      subst (λ x. IsGone key (cleared codec x (b ∷ bs))) (sym e) (cleared-IsGone codec key (b ∷ bs))
  | inr differ ↦ (
    object-remove_object_ne k key b.objects (λ e. let h = (bytes_eq_iff k key).1 e in ground arith)
        ∙ h.0,
    keep-IsGone codec k key bs h.1,
  )
]

Present-weaken : (id : ℕ) (j : LogJob) (t : LogJobs.Table) → Present id t → Present id (j ∷ t)
unfolding get_by_id
Present-weaken id j t (r, found) = elim (Bool-cases (has_id id j)) [
  | inl hit ↦ (j, find_first_hit (has_id id) j t hit)
  | inr miss ↦ (r, find_first_miss (has_id id) j t miss ∙ found)
]

select-Present : (p : LogJob → Bool) (t : LogJobs.Table) → All (λ j. Present j.id t) (select p t)
unfolding get_by_id
select-Present p [] = tt
select-Present p (j ∷ t) =
    let rest : All (λ k. Present k.id (j ∷ t)) (select p t) =
      All-imp (select p t) (λ k there. Present-weaken k.id j t there) (select-Present p t) in
    elim (Bool-cases (p j)) [
      | inl hit ↦
          rw (select_hit p j t hit) ((j, find_first_hit (has_id j.id) j t (==_refl j.id)), rest)
      | inr miss ↦ rw (select_miss p j t miss) rest
    ]

pub list_expired-Present :
    (now customer days : ℕ) (t : LogJobs.Table)
    → All (λ j. Present j.id t) (list_expired now customer days t)
unfolding list_expired
list_expired-Present now customer days t = select-Present _ t
