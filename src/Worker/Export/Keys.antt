-- ===== src/Worker/Export/Keys.antt =====
-- Under which keys an export puts its files.
use rainlogs.Prelude.{
  ◌≡◌, refl, sym, ap, ◌∙◌, false, [], ◌∷◌, ◌++◌, ◌==◌, Bytes, codes, All, All-append,
}
use mathlib.Core.List.{append_cancel_right}
use rainlogs.Calendar.{format_day}
use rainlogs.Paths.Base.{IsPlain, long-IsPlain, last_element, last_element-join}
use rainlogs.Models.{LogJob, ExportS3Config}
use rainlogs.Exec.{Env}
use rainlogs.Worker.Export.{dest_key}

abbrev pub suffix : Bytes
suffix = codes ".log.gz"

-- As of an identifier's text.
abbrev pub NoSlash : Bytes → Type 0
NoSlash = All (λ c. (c == b'/') ≡ false)

file_name-IsPlain : (u : Bytes) → NoSlash u → IsPlain (u ++ suffix)
file_name-IsPlain u h =
    go u (All-append _ u suffix h (refl, (refl, (refl, (refl, (refl, (refl, (refl, tt))))))))
  where
    go : (u : Bytes) → NoSlash (u ++ suffix) → IsPlain (u ++ suffix)
    go [] h = long-IsPlain _ _ _ _ h
    go (c ∷ []) h = long-IsPlain _ _ _ _ h
    go (c ∷ d ∷ []) h = long-IsPlain _ _ _ _ h
    go (c ∷ d ∷ f ∷ u) h = long-IsPlain _ _ _ _ h

last_element-dest_key :
    (env : Env) (config : ExportS3Config) (log : LogJob)
    → NoSlash (env.codec.uuid_text log.id)
    → last_element (dest_key env config log) ≡ env.codec.uuid_text log.id ++ suffix
unfolding dest_key
last_element-dest_key env config log h =
    last_element-join (config.path_prefix ∷ format_day log.period_start ∷ []) _
      (file_name-IsPlain _ h)

-- Two jobs that an export puts under one key have one identifier, in whichever day they are and whatever
-- prefix the customer asks for, so no file of an export is written over another's. The text of an
-- identifier holds no slash.
pub dest_key-injective :
    (env : Env) (config : ExportS3Config) (log other : LogJob)
    → NoSlash (env.codec.uuid_text log.id)
    → NoSlash (env.codec.uuid_text other.id)
    → dest_key env config log ≡ dest_key env config other
    → env.codec.uuid_text log.id ≡ env.codec.uuid_text other.id
dest_key-injective env config log other h k same = append_cancel_right _ _ suffix (
    sym (last_element-dest_key env config log h)
    ∙ ap last_element same
    ∙ last_element-dest_key env config other k)
