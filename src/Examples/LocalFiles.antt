-- ===== src/Examples/LocalFiles.antt =====
-- An upload to the local file system, call by call.
use mathlib.Core.Bool.{true≢false}
use rainlogs.Prelude.{
  ◌≡◌, ◌≢◌, ◌⊎◌, refl, sym, ◌∙◌, true, false, some, [], Bytes, bytes_eq, bytes_eq_iff, codes,
}
use rainlogs.Storage.{
  object, store_object, remove_object, prepare_blob, compressed, put_one, get_one, delete_one,
}
use rainlogs.Storage.Files.{Files, Stage, Step, Reach, join, get_file, delete_file}
use rainlogs.Storage.Files.Atomic.{put_atomic, store_self}
use rainlogs.Storage.Files.Refine.{Holds, objects_or, files_or, put_one-get_one-delete_one}
use rainlogs.Examples.Setup.{codec, provider}
use rainlogs.Examples.Stores.{upload}

differ : (a b : Bytes) → bytes_eq a b ≡ false → a ≢ b
differ a b h e = true≢false (sym ((bytes_eq_iff a b).1 e) ∙ h)

-- In an empty file system: the directory is made, the temporary file is written, closed and renamed.
abbrev written_temp : Bytes → Bytes → Files
written_temp temp blob = store_object temp blob (store_object temp [] [])

abbrev after_run : (full temp blob : Bytes) → Files
after_run full temp blob =
    remove_object temp (remove_object temp (store_object full blob (written_temp temp blob)))

opened :
    (full temp blob : Bytes) → Reach full temp blob [] (store_object temp [] []) Stage.permitted
unfolding object
opened full temp blob =
    Reach.next (Reach.next (Reach.next Reach.here (Step.mkdir [])) (Step.create [] refl))
      (Step.chmod (store_object temp [] []))

finished :
    (full temp blob : Bytes)
    → Reach full temp blob [] (after_run full temp blob) (Stage.returned true)
finished full temp blob =
    Reach.next
      (Reach.next
        (Reach.next (Reach.next (opened full temp blob) (Step.write (store_object temp [] [])))
          (Step.close (written_temp temp blob)))
        (Step.rename (written_temp temp blob) blob
          (store_self temp blob (store_object temp [] []))))
      (Step.remove_renamed (remove_object temp (store_object full blob (written_temp temp blob))))

-- The process stops in the middle of the write.
put_atomic_example :
    ((object
          (codes "/d/a")
          (store_object (codes "/d/t.tmp") (codes "x") (store_object (codes "/d/t.tmp") [] []))
        ≡ object (codes "/d/a") [])
      ⊎ (object
            (codes "/d/a")
            (store_object (codes "/d/t.tmp") (codes "x") (store_object (codes "/d/t.tmp") [] []))
          ≡ some (codes "xyz")))
    × (Stage.permitted ≡ Stage.returned true
        → object
            (codes "/d/a")
            (store_object (codes "/d/t.tmp") (codes "x") (store_object (codes "/d/t.tmp") [] []))
          ≡ some (codes "xyz"))
    × (Stage.permitted ≡ Stage.returned false
        → object
            (codes "/d/a")
            (store_object (codes "/d/t.tmp") (codes "x") (store_object (codes "/d/t.tmp") [] []))
          ≡ object (codes "/d/a") [])
    × (object
          (codes "/d/b")
          (store_object (codes "/d/t.tmp") (codes "x") (store_object (codes "/d/t.tmp") [] []))
        ≡ object (codes "/d/b") [])
put_atomic_example =
    put_atomic (codes "/d/a") (codes "/d/t.tmp") (codes "xyz") []
      (differ (codes "/d/t.tmp") (codes "/d/a") refl) (codes "/d/b")
      (differ (codes "/d/b") (codes "/d/a") refl) (differ (codes "/d/b") (codes "/d/t.tmp") refl)
      (Reach.next (opened (codes "/d/a") (codes "/d/t.tmp") (codes "xyz"))
        (Step.write_part (store_object (codes "/d/t.tmp") [] []) 1))

abbrev temp_name : Bytes
temp_name = codes "rainlog-1.tmp"

abbrev after_upload : Files
after_upload =
    after_run (join (codes "/data") (prepare_blob codec upload).key)
      (join (codes "/data") temp_name) (compressed codec upload)

put_one-get_one-delete_one_example :
    Holds
      (codes "/data")
      after_upload
      (objects_or [] (put_one codec upload (record provider { accepts_put = true })))
    × (get_file codec (codes "/data") (codes "logs/a.ndjson.gz") []
        ≡ get_one codec (codes "logs/a.ndjson.gz") (record provider { accepts_get = true }))
    × Holds
        (codes "/data")
        (files_or [] (delete_file true (codes "/data") (codes "logs/a.ndjson.gz") []))
        (objects_or []
          (delete_one codec (codes "logs/a.ndjson.gz") (record provider { accepts_delete = true })))
unfolding object
put_one-get_one-delete_one_example =
    put_one-get_one-delete_one codec (codes "/data") temp_name refl upload
      (codes "logs/a.ndjson.gz") provider true true refl (λ k plain. refl)
      (finished (join (codes "/data") (prepare_blob codec upload).key)
        (join (codes "/data") temp_name) (compressed codec upload))
