-- ===== src/Worker/Export/Delivery.antt =====
-- What an export puts into the customer's bucket.
use rainlogs.Prelude.{
  ℕ, ◌+◌, ◌≡◌, refl, sym, ap, ◌∙◌, arith, inl, inr, true, false, Option, none, some, List, [], ◌∷◌,
  ◌++◌, append_assoc, append-nil, if◌then◌else◌, length, sum_of, Bytes, Bool-cases, Option-cases,
}
use rainlogs.Models.{LogJob, ExportS3Config}
use rainlogs.GoError.{text}
use rainlogs.Storage
use rainlogs.Storage.{Backend}
use rainlogs.Exec.{World, Put, Env, Outcome, ok, err, pure}
use rainlogs.Exec.Steps.{on_ok, on_err, get_done, get_failed}
use rainlogs.Worker.Export.{Inputs, dest_key, put_of, put_object, export_logs}

module _ (env : Env) (inputs : Inputs) (config : ExportS3Config) where
  -- The files of the jobs whose logs can be read and which the bucket accepts.
  abbrev pub with_file : LogJob → Option Bytes → List Put → List Put
  with_file log none ps = ps
  with_file log (some raw) ps =
      record { config = config; key = dest_key env config log; body = raw } ∷ ps

  abbrev pub readable : List Backend → List LogJob → List Put
  readable bs [] = []
  readable bs (log ∷ logs) =
      with_file log (Storage.get_logs env.codec log.s3_key bs) (readable bs logs)

  abbrev pub accepted : List Put → List Put
  accepted [] = []
  accepted (p ∷ ps) = if inputs.accepts p then p ∷ accepted ps else accepted ps

  abbrev pub delivered : List Backend → List LogJob → List Put
  delivered bs logs = accepted (readable bs logs)

  module _ (bs : List Backend) (log : LogJob) (logs : List LogJob) where
    delivered_unread :
        Storage.get_logs env.codec log.s3_key bs ≡ none
        → delivered bs (log ∷ logs) ≡ delivered bs logs
    delivered_unread e = ap (λ o. accepted (with_file log o (readable bs logs))) e

    delivered_refused :
        (raw : Bytes)
        → Storage.get_logs env.codec log.s3_key bs ≡ some raw
        → inputs.accepts (put_of env config log raw) ≡ false
        → delivered bs (log ∷ logs) ≡ delivered bs logs
    delivered_refused raw e closed =
        ap (λ o. accepted (with_file log o (readable bs logs))) e ∙ rw closed refl

    delivered_put :
        (raw : Bytes)
        → Storage.get_logs env.codec log.s3_key bs ≡ some raw
        → inputs.accepts (put_of env config log raw) ≡ true
        → delivered bs (log ∷ logs) ≡ put_of env config log raw ∷ delivered bs logs
    delivered_put raw e open_ =
        ap (λ o. accepted (with_file log o (readable bs logs))) e ∙ rw open_ refl

  abbrev pub byte_sum : List Put → ℕ
  byte_sum = sum_of (λ p. length p.body)

  abbrev put_into : List Put → World → World
  put_into ps w = record w { exported = w.exported ++ ps }

  put_accepted :
      (p : Put) (w : World)
      → inputs.accepts p ≡ true
      → put_object env inputs p w ≡ (ok tt, put_into (p ∷ []) w)
  unfolding put_object
  put_accepted p w e = rw (e, put_object) refl

  put_refused :
      (p : Put) (w : World)
      → inputs.accepts p ≡ false
      → put_object env inputs p w ≡ (err (text []), w)
  unfolding put_object
  put_refused p w e = rw (e, put_object) refl

  -- What the loop returns, and where it leaves the world, after it has delivered `ps`.
  abbrev outcome : (files bytes : ℕ) → List Put → World → Outcome (ℕ × ℕ) × World
  outcome files bytes ps w = (ok (files + length ps, bytes + byte_sum ps), put_into ps w)

  outcome_none : (files bytes : ℕ) (w : World) → outcome files bytes [] w ≡ (ok (files, bytes), w)
  outcome_none files bytes w =
      let f : files + 0 ≡ files = omega arith in
      let b : bytes + 0 ≡ bytes = omega arith in cc (f, b, append-nil w.exported)

  outcome_one :
      (files bytes : ℕ) (p : Put) (ps : List Put) (w : World)
      → outcome (files + 1) (bytes + length p.body) ps (put_into (p ∷ []) w)
        ≡ outcome files bytes (p ∷ ps) w
  outcome_one files bytes p ps w =
      let f : (files + 1) + length ps ≡ files + length (p ∷ ps) = omega arith in
      let b : (bytes + length p.body) + byte_sum ps ≡ bytes + byte_sum (p ∷ ps) = omega arith in
      cc (f, b, append_assoc w.exported (p ∷ []) ps)

  export_logs_lem :
      (logs : List LogJob) (files bytes : ℕ) (w : World)
      → export_logs env inputs config logs files bytes w
        ≡ outcome files bytes (delivered w.backends logs) w
  unfolding export_logs pure
  export_logs_lem [] files bytes w = sym (outcome_none files bytes w)
  export_logs_lem (log ∷ logs) files bytes w =
      elim (Option-cases (Storage.get_logs env.codec log.s3_key w.backends)) [
        | inl missing ↦
            on_err _ _ _ w (get_failed env log.s3_key w missing)
            ∙ export_logs_lem logs files bytes w
            ∙ ap (λ ps. outcome files bytes ps w) (sym (delivered_unread _ log logs missing))
        | inr (raw, found) ↦
            on_ok _ _ _ w (get_done env log.s3_key w found)
            ∙ elim (Bool-cases (inputs.accepts (put_of env config log raw))) [
              | inl taken ↦
                  on_ok _ _ _ w (put_accepted _ w taken)
                  ∙ export_logs_lem logs (files + 1) (bytes + length raw) _
                  ∙ outcome_one files bytes _ _ w
                  ∙ ap (λ ps. outcome files bytes ps w)
                      (sym (delivered_put _ log logs raw found taken))
              | inr refused ↦
                  on_err _ _ _ w (put_refused _ w refused)
                  ∙ export_logs_lem logs files bytes w
                  ∙ ap (λ ps. outcome files bytes ps w)
                      (sym (delivered_refused _ log logs raw found refused))
            ]
      ]

  -- Step 5 delivers each file once, in the order of the jobs, and counts files and bytes.
  pub export_logs_start :
      (logs : List LogJob) (w : World)
      → let ps = delivered w.backends logs in
        export_logs env inputs config logs 0 0 w ≡ (ok (length ps, byte_sum ps), put_into ps w)
  export_logs_start logs w =
      let ps = delivered w.backends logs in
      let f : 0 + length ps ≡ length ps = omega arith in
      let b : 0 + byte_sum ps ≡ byte_sum ps = omega arith in export_logs_lem logs 0 0 w ∙ cc (f, b)
