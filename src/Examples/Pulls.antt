-- ===== src/Examples/Pulls.antt =====
-- The pull, the verification and the expiry of a job in the small world.
use rainlogs.Prelude.{
  ◌+◌, ◌*◌, ◌≡◌, refl, ◌≢◌, ◌⊎◌, inl, arith, Option, true, false, some, [], ◌∷◌, codes, length, All,
  bytes_eq_iff,
}
use rainlogs.Models.{LogJob, JobStatus}
use rainlogs.Calendar.{day}
use rainlogs.Hex.{encode}
use rainlogs.Storage
use rainlogs.Storage.{Upload, Backend, prepare_blob}
use rainlogs.Storage.RoundTrip.{after_put, put_logs_taken}
use rainlogs.Db.LogJobs
use rainlogs.Db.Zones
use rainlogs.Db.Customers
use rainlogs.Queue.{LogExpirePayload}
use rainlogs.Cloudflare.Logpull.{pull_logs, read_response}
use rainlogs.Exec.{World, ok}
use rainlogs.Worker.Pull
use rainlogs.Worker.Pull.{new_job, wait_time}
use rainlogs.Worker.Pull.Frame.{SameBut, process_task-SameBut}
use rainlogs.Worker.Pull.Stored.{zone_head, stored_row, upload_for}
use rainlogs.Db.LogJobs.Newest.{IsNewest}
use rainlogs.Worker.Pull.Success.{process_task-chains}
use rainlogs.Worker.Pull.Leads.{Ending}
use rainlogs.Worker.Pull.Endings.{process_task-Ending}
use rainlogs.Worker.Verify
use rainlogs.Worker.Verify.Soundness.{Verdict, process_task-Verdict, process_task-put_logs}
use rainlogs.Worker.Expire
use rainlogs.Worker.Expire.Retention.{IsDue, Spared, process_task-Spared}
use rainlogs.Worker.Expire.Complete.{IsPruned, process_task-IsPruned}
use rainlogs.Examples.Setup.{
  codec, env, customer, zone, provider, noon, world, logs, inputs, payload, db,
}

abbrev upload : Upload
upload = upload_for payload customer zone logs

process_task-Ending_example :
    let (r, w') = Pull.process_task env inputs payload world in
    Ending codec inputs payload world.backends r w'
unfolding LogJobs.get_by_id
process_task-Ending_example = process_task-Ending env inputs payload world (λ n. refl) refl

process_task-chains_example :
    let (r, w') = Pull.process_task env inputs payload world in
    (r ≡ ok tt)
    × (w'.backends ≡ after_put codec upload provider ∷ [])
    × (last : Option LogJob) × IsNewest 2 [] last
    × (LogJobs.get_by_id 7 w'.db.log_jobs
        ≡ some (
            stored_row env inputs payload world.now
              (world.now + wait_time zone.plan)
              (prepare_blob codec upload)
              (codes "garage")
              (zone_head last)
              logs))
unfolding LogJobs.get_by_id Customers.get_by_id Zones.get_by_id pull_logs read_response
process_task-chains_example =
    process_task-chains env inputs payload world customer zone (codes "token") logs (codes "garage")
      (after_put codec upload provider ∷ []) (λ n. refl) refl refl refl (inl refl) refl refl refl
      refl (put_logs_taken codec upload provider [] refl)

process_task-SameBut_example :
    let d = (Pull.process_task env inputs payload world).1.db in
    SameBut 7 db d × ((length d.log_jobs ≡ 0) ⊎ (length d.log_jobs ≡ 1))
process_task-SameBut_example = process_task-SameBut env inputs payload world

-- A world in which that blob is stored.
abbrev stored_job : LogJob
stored_job = record (new_job 7 payload) {
  status = JobStatus.done;
  s3_key = (prepare_blob codec upload).key;
  sha256 = (prepare_blob codec upload).sha256;
}

abbrev stored_world : World
stored_world = record world {
  db = record db { log_jobs = stored_job ∷ [] };
  backends = after_put codec upload provider ∷ [];
}

process_task-Verdict_example :
    let (r, w') = Verify.process_task env 7 stored_world in Verdict env 7 stored_world r w'
process_task-Verdict_example = process_task-Verdict env 7 stored_world

process_task-put_logs_example :
    let (r, w') = Verify.process_task env 7 stored_world in (r ≢ ok tt) × (w'.db ≡ stored_world.db)
unfolding LogJobs.get_by_id encode Storage.object prepare_blob
process_task-put_logs_example =
    process_task-put_logs env 7 stored_world upload (provider ∷ []) (codes "garage") stored_job
      (put_logs_taken codec upload provider [] refl) (inl refl, tt) ((λ e. refl), tt) refl refl refl
      (λ e. let h : false ≡ true = (bytes_eq_iff _ _).1 e in ground (arith, h))

abbrev expiry : LogExpirePayload
expiry = record { customer_id = 1; retention_days = 30 }

abbrev late_world : World
late_world = record stored_world { now = noon + 60 * day }

process_task-Spared_example :
    Spared env 7 stored_world.db (Expire.process_task env expiry stored_world).1.db
process_task-Spared_example =
    process_task-Spared env expiry 7 stored_world ((λ e due. absurd (omega (arith, due.2))), tt)

process_task-IsPruned_example :
    let (r, w') = Expire.process_task env expiry late_world in
    (r ≡ ok tt) × All (λ j. IsDue late_world.now 1 30 j → IsPruned w' j) (stored_job ∷ [])
process_task-IsPruned_example = process_task-IsPruned env (λ n. refl) expiry late_world (refl, tt)
