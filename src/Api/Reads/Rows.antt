-- ===== src/Api/Reads/Rows.antt =====
-- What is a customer's in a reply, and the rows that the statements of the handlers select.
use mathlib.Core.List.{Memᴰ}
use rainlogs.Prelude.{
  ℕ, ◌≡◌, refl, sym, ap, ◌∙◌, arith, inl, inr, Bool, true, false, not, ◌&&◌, ◌==◌, ==_iff, some,
  List, [], ◌∷◌, Bool-cases, find_first, find_first_hit, find_first_miss, All,
}
use rainlogs.Models.{LogJob, AuditEvent}
use rainlogs.Storage
use rainlogs.Storage.{Codec}
use rainlogs.Exec.{World}
use rainlogs.Db.Zones
use rainlogs.Db.ApiKeys
use rainlogs.Db.LogJobs
use rainlogs.Db.Audit
use rainlogs.Db.Order.{newest_first-All, page-All, select-All}
use rainlogs.Api.Reads.{
  Archive, CustomerData, Reply, status, one_customer, jobs, one_job, archive, customer_data, events,
  one_export,
}

pub first_test {ℓ} :
    {A : Type ℓ} (p : A → Bool) (xs : List A) (a : A) → find_first p xs ≡ some a → p a ≡ true
first_test p [] a h = cc
first_test p (x ∷ xs) a h = elim (Bool-cases (p x)) [
  | inl hit ↦ let same : x ≡ a = cc (h, find_first_hit p x xs hit) in ap p (sym same) ∙ hit
  | inr miss ↦ first_test p xs a (sym (find_first_miss p x xs miss) ∙ h)
]

pub and_left : (a b : Bool) → (a && b) ≡ true → a ≡ true
and_left true b h = refl
and_left false b h = h

pub unnegated : (b : Bool) → not b ≡ false → b ≡ true
unnegated true h = refl
unnegated false h = sym h

module _ (codec : Codec) (customer : ℕ) (w : World) where
  -- A download is that of a row of the customer: it carries the hashes of the row, and its body is what
  -- the storage gives for the row's key.
  pub record OfOwnJob (a : Archive) : Type 0 where
    pub job : LogJob
    pub member : Memᴰ job w.db.log_jobs
    pub own : job.customer_id ≡ customer
    pub sha256 : a.sha256 ≡ job.sha256
    pub chain_hash : a.chain_hash ≡ job.chain_hash
    pub body : Storage.get_logs codec job.s3_key w.backends ≡ some a.body

  pub record OwnData (d : CustomerData) : Type 0 where
    pub customer_id : d.customer.id ≡ customer
    pub zones : All (λ z. z.customer_id ≡ customer) d.zones
    pub api_keys : All (λ k. k.customer_id ≡ customer) d.api_keys
    pub log_jobs : All (λ j. j.customer_id ≡ customer) d.log_jobs

  abbrev pub IsOwn : Reply → Type 0
  IsOwn (status n) = Unit
  IsOwn (one_customer c) = c.id ≡ customer
  IsOwn (jobs js) = All (λ j. j.customer_id ≡ customer) js
  IsOwn (one_job j) = j.customer_id ≡ customer
  IsOwn (archive a) = OfOwnJob a
  IsOwn (customer_data d) = OwnData d
  IsOwn (events es) = All (λ e. e.customer_id ≡ some customer) es
  IsOwn (one_export e) = e.customer_id ≡ customer

module _ (customer : ℕ) where
  pub jobs-own :
      (limit offset : ℕ) (t : LogJobs.Table)
      → All (λ j. j.customer_id ≡ customer) (LogJobs.list_by_customer customer limit offset t)
  unfolding LogJobs.list_by_customer
  jobs-own limit offset t =
      page-All _ (λ j. j.created_at) limit offset _
        (select-All _ (λ j. j.customer_id == customer) t (λ j e. (==_iff _ _).0 e))

  pub zone_jobs-own :
      (zone limit offset : ℕ) (t : LogJobs.Table)
      → All (λ j. j.customer_id ≡ customer) (LogJobs.list_by_zone customer zone limit offset t)
  unfolding LogJobs.list_by_zone
  zone_jobs-own zone limit offset t =
      page-All _ (λ j. j.created_at) limit offset _
        (select-All _ (λ j. (j.customer_id == customer) && (j.zone_id == zone)) t
          (λ j e. (==_iff _ _).0 (and_left _ (j.zone_id == zone) e)))

  pub zones-own :
      (t : Zones.Table) → All (λ z. z.customer_id ≡ customer) (Zones.list_by_customer customer t)
  unfolding Zones.list_by_customer
  zones-own t =
      select-All _ (λ z. (z.customer_id == customer) && Zones.is_live z) t
        (λ z e. (==_iff _ _).0 (and_left _ (Zones.is_live z) e))

  pub keys-own :
      (t : ApiKeys.Table)
      → All (λ k. k.customer_id ≡ customer) (ApiKeys.list_by_customer customer t)
  unfolding ApiKeys.list_by_customer
  keys-own t =
      newest_first-All (λ k. k.created_at) _ _
        (select-All _ (λ k. k.customer_id == customer) t (λ k e. (==_iff _ _).0 e))

  event_owner :
      (e : AuditEvent) → Audit.belongs_to customer e ≡ true → e.customer_id ≡ some customer
  event_owner e h = ground arith

  pub events-own :
      (limit offset : ℕ) (t : Audit.Table)
      → All (λ e. e.customer_id ≡ some customer) (Audit.list_by_customer customer limit offset t)
  unfolding Audit.list_by_customer
  events-own limit offset t =
      page-All _ (λ e. e.created_at) limit offset _
        (select-All _ (Audit.belongs_to customer) t event_owner)
