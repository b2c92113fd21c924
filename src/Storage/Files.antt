-- ===== src/Storage/Files.antt =====
-- internal/storage/fs.go: FSStore, one provider in the local file system, system call by system call.
--
-- The file system is the map from paths to contents, and an upload is a step relation on it, so that what
-- stands between two calls is seen: by a reader, or when the process is killed. A call may fail at every
-- step. PutLogs never calls Sync, so nothing here says what the disk has after a crash of the operating
-- system or a loss of power. A key
-- that PrepareBlob makes has no empty, `.` or `..` element, so filepath.Join only puts a slash before it.
pub mod Atomic
pub mod Refine
use rainlogs.Prelude.{
  ℕ, ◌≡◌, Bool, true, false, Option, none, some, List, [], ◌∷◌, ◌++◌, take, Bytes,
}
use rainlogs.Storage.{Codec, object, store_object, remove_object, decompress_blob}

abbrev pub Files : Type 0
Files = List (Bytes × Bytes)

-- filepath.Join(root, key)
abbrev pub join : Bytes → Bytes → Bytes
join root key = root ++ (b'/' ∷ key)

-- How far an upload is. `failing` and `renamed` have the deferred os.Remove before them.
pub data Stage : Type 0 where
  start ready open_temp permitted filled closed renamed failing : Stage
  returned : Bool → Stage

-- What the calls of PutLogs do to what the system shows, from MkdirAll on: the path of the blob, that of the temporary file, and the blob. CreateTemp
-- takes a name that is free. A write may be seen half done, and may fail half done.
pub data Step (full temp blob : Bytes) : Files → Stage → Files → Stage → Type 0 where
  mkdir : (f : Files) → Step full temp blob f start f ready
  mkdir_fails : (f : Files) → Step full temp blob f start f (returned false)
  create :
      (f : Files)
      → object temp f ≡ none
      → Step full temp blob f ready (store_object temp [] f) open_temp
  create_fails : (f : Files) → Step full temp blob f ready f (returned false)
  chmod : (f : Files) → Step full temp blob f open_temp f permitted
  chmod_fails : (f : Files) → Step full temp blob f open_temp f failing
  write_part :
      (f : Files) (n : ℕ)
      → Step full temp blob f permitted (store_object temp (take n blob) f) permitted
  write : (f : Files) → Step full temp blob f permitted (store_object temp blob f) filled
  write_fails : (f : Files) → Step full temp blob f permitted f failing
  close : (f : Files) → Step full temp blob f filled f closed
  close_fails : (f : Files) → Step full temp blob f filled f failing
  rename :
      (f : Files) (content : Bytes)
      → object temp f ≡ some content
      → Step full temp blob f closed (remove_object temp (store_object full content f)) renamed
  rename_fails : (f : Files) → Step full temp blob f closed f failing
  remove : (f : Files) → Step full temp blob f failing (remove_object temp f) (returned false)
  remove_fails : (f : Files) → Step full temp blob f failing f (returned false)
  remove_renamed :
      (f : Files) → Step full temp blob f renamed (remove_object temp f) (returned true)

-- What an upload that found the files f0 may have come to.
pub data Reach (full temp blob : Bytes) (f0 : Files) : Files → Stage → Type 0 where
  here : Reach full temp blob f0 f0 start
  next :
      {f g : Files} {s t : Stage}
      → Reach full temp blob f0 f s
      → Step full temp blob f s g t
      → Reach full temp blob f0 g t

-- GetLogs
unfoldable pub get_file : Codec → Bytes → Bytes → Files → Option Bytes
unfolding decompress_blob
get_file codec root key f = decompress_blob codec (object (join root key) f)

-- DeleteObject: a missing file is a success. `none` is an error of os.Remove.
unfoldable pub delete_file : Bool → Bytes → Bytes → Files → Option Files
delete_file true root key f = some (remove_object (join root key) f)
delete_file false root key f = none
