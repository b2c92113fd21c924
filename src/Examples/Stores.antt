-- ===== src/Examples/Stores.antt =====
-- Uploads, downloads and deletions over two providers.
use rainlogs.Prelude.{◌≡◌, refl, ◌⊎◌, inl, false, none, some, List, [], ◌∷◌, Bytes, codes, All}
use rainlogs.Storage
use rainlogs.Storage.{Backend, Upload, prepare_blob}
use rainlogs.Storage.RoundTrip.{after_put, put_logs_taken, put_logs_passed, get_logs-put_logs}
use rainlogs.Storage.Failover.{Refuses, TakenBy, put_logs_outcome}
use rainlogs.Examples.Setup.{codec, provider, noon, logs}

abbrev pub upload : Upload
upload = record {
  customer_id = 1;
  zone_id = 2;
  from = noon;
  to = noon;
  raw = logs;
  log_type = codes "logs";
}

-- A provider that takes no upload and no deletion.
abbrev down : Backend
down = record provider { provider = codes "hetzner"; accepts_put = false; accepts_delete = false }

get_logs-put_logs_example :
    Storage.get_logs codec
      (prepare_blob codec upload).key
      (down ∷ after_put codec upload provider ∷ [])
    ≡ some logs
unfolding Storage.object
get_logs-put_logs_example =
    get_logs-put_logs codec upload (down ∷ provider ∷ [])
      (down ∷ after_put codec upload provider ∷ []) (codes "garage") (inl refl, (inl refl, tt))
      ((λ e. refl), ((λ e. refl), tt))
      (put_logs_passed codec upload down (provider ∷ []) _ (codes "garage") refl
        (put_logs_taken codec upload provider [] refl))

put_logs_outcome_example :
    ((Storage.put_logs codec upload (down ∷ provider ∷ []) ≡ none)
      × All (Refuses codec upload) (down ∷ provider ∷ []))
    ⊎ ((label : Bytes) × (cs : List Backend) × (Storage.put_logs codec upload (down ∷ provider ∷ [])
          ≡ some (label, cs))
        × TakenBy codec upload (down ∷ provider ∷ []) cs label)
put_logs_outcome_example = put_logs_outcome codec upload (down ∷ provider ∷ [])

-- A provider that holds an object under "k".
abbrev holding : Backend
holding = record provider { objects = (codes "k", 31 ∷ logs) ∷ [] }

abbrev stubborn : Backend
stubborn = record holding { accepts_delete = false }
