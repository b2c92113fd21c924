-- ===== src/Examples/Streams.antt =====
-- The waits, the shutdown and the buffer of the streams, and a poll for security events.
use rainlogs.Prelude.{◌≡◌, refl, ◌≢◌, ◌⊎◌, true, none, some, List, [], ◌∷◌, ◌++◌, codes, length}
use rainlogs.GoError.{text}
use rainlogs.Kms
use rainlogs.Cloudflare.Graphql
use rainlogs.Worker.Streams.{
  disconnected, clean_exit, run_zone_stream, min_backoff, streaming, finished, serving, stopping,
  System, at_rest,
}
use rainlogs.Worker.Streams.Backoff.{IsPaced, run_zone_stream-IsPaced}
use rainlogs.Worker.Streams.Shutdown.{stop_all-stopping}
use rainlogs.Worker.Streams.Buffer.{
  Turn, Session, message, tick, context_done, running, raw_of, run, run_turn, receive, upload,
  upload_lines, upload_some,
}
use rainlogs.Worker.Streams.Buffer.Complete.{content, content-run}
use rainlogs.Worker.Pull.Frame.{SameBut}
use rainlogs.Worker.Security
use rainlogs.Worker.Security.Frame.{process_task-Framed}
use rainlogs.Examples.Setup.{env, payload, world, db}

run_zone_stream-IsPaced_example :
    IsPaced min_backoff
      (run_zone_stream (disconnected (text []) ∷ disconnected (text []) ∷ clean_exit ∷ []))
run_zone_stream-IsPaced_example =
    run_zone_stream-IsPaced (disconnected (text []) ∷ disconnected (text []) ∷ clean_exit ∷ [])

abbrev one_stream : System
one_stream = record { phase = serving; streams = streaming ∷ finished ∷ [] }

stop_all-stopping_example : (record one_stream { phase = stopping }).phase ≡ stopping
stop_all-stopping_example =
    stop_all-stopping one_stream (record one_stream { phase = stopping }) refl refl refl at_rest

abbrev turns : List Turn
turns =
    record { event = message (codes "a"); now = 1; accepted = true }
    ∷ record { event = tick; now = 2; accepted = true }
    ∷ record { event = message (codes "b"); now = 3; accepted = true }
    ∷ record { event = context_done; now = 4; accepted = true }
    ∷ []

abbrev fresh : Session
fresh = record { buffer = []; last_upload = 0; stored = [] }

content-run_example :
    content (run 1 2 turns fresh).0 ≡ content fresh ++ raw_of (codes "a" ∷ codes "b" ∷ [])
content-run_example = content-run 1 2 turns fresh (refl, (refl, (refl, (refl, tt))))

session_is_over : (run 1 2 turns fresh).1 ≢ running
unfolding run run_turn receive upload upload_lines upload_some
session_is_over e = cc

abbrev poll_inputs : Security.Inputs
poll_inputs = record {
  new_id = 8;
  decrypt = λ _. Kms.ok (codes "token");
  limiter = none;
  cloudflare = λ token zone_id from to.
      Graphql.response 200 []
        (some (record { zones = (some (codes "{}") ∷ []) ∷ []; errors = [] }));
}

process_task-Framed_example :
    let d = (Security.process_task env poll_inputs payload world).1.db in
    SameBut 8 db d × ((length d.log_jobs ≡ 0) ⊎ (length d.log_jobs ≡ 1))
process_task-Framed_example = process_task-Framed env poll_inputs payload world
