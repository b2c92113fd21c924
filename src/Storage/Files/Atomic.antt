-- ===== src/Storage/Files/Atomic.antt =====
-- An upload is atomic for readers: its key shows the old content or the whole new one, between any two
-- calls.
use rainlogs.Prelude.{
  ◌≡◌, ◌≢◌, ◌⊎◌, refl, sym, ap, subst, ◌∙◌, inl, inr, arith, true, false, Option, none, some, [],
  ◌∷◌, take, Bytes, bytes_eq, bytes_eq_iff, if◌then◌else◌,
}
use rainlogs.Storage.{object, store_object, remove_object}
use rainlogs.Storage.Files.{Files, Stage, Step, Reach}

object-store_any :
    (k j v : Bytes) (m : Files)
    → object j (store_object k v m) ≡ (if bytes_eq k j then some v else object j m)
unfolding object store_object
object-store_any k j v [] = refl
object-store_any k j v ((i, w) ∷ m) =
    ground (arith, bytes_eq_iff i k, bytes_eq_iff i j, bytes_eq_iff k j, object-store_any k j v m)

object-remove_any :
    (k j : Bytes) (m : Files)
    → object j (remove_object k m) ≡ (if bytes_eq k j then none else object j m)
unfolding object remove_object
object-remove_any k j [] = ground arith
object-remove_any k j ((i, w) ∷ m) =
    ground (arith, bytes_eq_iff i k, bytes_eq_iff i j, bytes_eq_iff k j, object-remove_any k j m)

module _ (k j : Bytes) (m : Files) where
  pub store_ne : (v : Bytes) → k ≢ j → object j (store_object k v m) ≡ object j m
  store_ne v h = ground (arith, object-store_any k j v m, bytes_eq_iff k j)

  pub remove_ne : k ≢ j → object j (remove_object k m) ≡ object j m
  remove_ne h = ground (arith, object-remove_any k j m, bytes_eq_iff k j)

pub store_self : (k v : Bytes) (m : Files) → object k (store_object k v m) ≡ some v
store_self k v m = ground (arith, object-store_any k k v m, bytes_eq_iff k k)

pub remove_self : (k : Bytes) (m : Files) → object k (remove_object k m) ≡ none
remove_self k m = ground (arith, object-remove_any k k m, bytes_eq_iff k k)

module _ (full temp blob : Bytes) (f0 : Files) where
  -- What the key of the upload has.
  abbrev pub target : Stage → Option Bytes
  target Stage.renamed = some blob
  target (Stage.returned true) = some blob
  target _ = object full f0

  -- What is known of the temporary file.
  abbrev pub Scratch : Stage → Option Bytes → Type 0
  Scratch Stage.filled content = content ≡ some blob
  Scratch Stage.closed content = content ≡ some blob
  Scratch (Stage.returned true) content = content ≡ none
  Scratch _ content = Unit

  pub record IsAtomic (f : Files) (s : Stage) : Type 0 where
    pub holds : object full f ≡ target s
    pub others : (k : Bytes) → k ≢ full → k ≢ temp → object k f ≡ object k f0
    pub scratch : Scratch s (object temp f)

  module _ (apart : temp ≢ full) where
    write_temp :
        {f : Files} {s : Stage} (t : Stage) (v : Bytes)
        → IsAtomic f s
        → target s ≡ target t
        → Scratch t (some v)
        → IsAtomic (store_object temp v f) t
    write_temp {f} t v i same done = record {
      holds = store_ne temp full f v apart ∙ i.holds ∙ same;
      others = λ k h j. store_ne temp k f v (λ e. j (sym e)) ∙ i.others k h j;
      scratch = subst (Scratch t) (sym (store_self temp v f)) done;
    }

    drop_temp :
        {f : Files} {s : Stage} (t : Stage)
        → IsAtomic f s
        → target s ≡ target t
        → Scratch t none
        → IsAtomic (remove_object temp f) t
    drop_temp {f} t i same done = record {
      holds = remove_ne temp full f apart ∙ i.holds ∙ same;
      others = λ k h j. remove_ne temp k f (λ e. j (sym e)) ∙ i.others k h j;
      scratch = subst (Scratch t) (sym (remove_self temp f)) done;
    }

    -- Nothing is written: the stage alone moves on.
    move :
        {f : Files} {s : Stage} (t : Stage)
        → IsAtomic f s
        → target s ≡ target t
        → Scratch t (object temp f)
        → IsAtomic f t
    move t i same done = record { holds = i.holds ∙ same; others = i.others; scratch = done }

    rename_temp :
        {f : Files} (content : Bytes)
        → IsAtomic f Stage.closed
        → object temp f ≡ some content
        → IsAtomic (remove_object temp (store_object full content f)) Stage.renamed
    rename_temp {f} content i there = record {
      holds =
          remove_ne temp full (store_object full content f) apart
          ∙ store_self full content f
          ∙ sym there
          ∙ i.scratch;
      others = λ k h j.
          remove_ne temp k (store_object full content f) (λ e. j (sym e))
          ∙ store_ne full k f content (λ e. h (sym e))
          ∙ i.others k h j;
      scratch = tt;
    }

    Step-IsAtomic :
        {f g : Files} {s t : Stage} → Step full temp blob f s g t → IsAtomic f s → IsAtomic g t
    Step-IsAtomic (Step.mkdir f) i = move Stage.ready i refl tt
    Step-IsAtomic (Step.mkdir_fails f) i = move (Stage.returned false) i refl tt
    Step-IsAtomic (Step.create f free) i = write_temp Stage.open_temp [] i refl tt
    Step-IsAtomic (Step.create_fails f) i = move (Stage.returned false) i refl tt
    Step-IsAtomic (Step.chmod f) i = move Stage.permitted i refl tt
    Step-IsAtomic (Step.chmod_fails f) i = move Stage.failing i refl tt
    Step-IsAtomic (Step.write_part f n) i = write_temp Stage.permitted (take n blob) i refl tt
    Step-IsAtomic (Step.write f) i = write_temp Stage.filled blob i refl refl
    Step-IsAtomic (Step.write_fails f) i = move Stage.failing i refl tt
    Step-IsAtomic (Step.close f) i = move Stage.closed i refl i.scratch
    Step-IsAtomic (Step.close_fails f) i = move Stage.failing i refl tt
    Step-IsAtomic (Step.rename f content there) i = rename_temp content i there
    Step-IsAtomic (Step.rename_fails f) i = move Stage.failing i refl tt
    Step-IsAtomic (Step.remove f) i = drop_temp (Stage.returned false) i refl tt
    Step-IsAtomic (Step.remove_fails f) i = move (Stage.returned false) i refl tt
    Step-IsAtomic (Step.remove_renamed f) i = drop_temp (Stage.returned true) i refl refl

    pub Reach-IsAtomic : {f : Files} {s : Stage} → Reach full temp blob f0 f s → IsAtomic f s
    Reach-IsAtomic Reach.here = record { holds = refl; others = λ k h j. refl; scratch = tt }
    Reach-IsAtomic (Reach.next r st) = Step-IsAtomic st (Reach-IsAtomic r)

    target_cases : (s : Stage) → (target s ≡ object full f0) ⊎ (target s ≡ some blob)
    target_cases Stage.start = inl refl
    target_cases Stage.ready = inl refl
    target_cases Stage.open_temp = inl refl
    target_cases Stage.permitted = inl refl
    target_cases Stage.filled = inl refl
    target_cases Stage.closed = inl refl
    target_cases Stage.renamed = inr refl
    target_cases Stage.failing = inl refl
    target_cases (Stage.returned true) = inr refl
    target_cases (Stage.returned false) = inl refl

    -- Between any two system calls of an upload, whichever of them fail, and so for every reader and
    -- where the process is killed there, the running system shows under its path the content that it had or
    -- the whole blob (the blob once it has returned a success, the old content once it has returned an
    -- error), and every path that is neither this one nor the temporary file's is as before.
    pub put_atomic :
        (k : Bytes) {f : Files} {s : Stage}
        → k ≢ full
        → k ≢ temp
        → Reach full temp blob f0 f s
        → ((object full f ≡ object full f0) ⊎ (object full f ≡ some blob))
          × (s ≡ Stage.returned true → object full f ≡ some blob)
          × (s ≡ Stage.returned false → object full f ≡ object full f0)
          × (object k f ≡ object k f0)
    put_atomic k {f} {s} h j r =
        let i = Reach-IsAtomic r in
        (
          elim (target_cases s) [ inl e ↦ inl (i.holds ∙ e) | inr e ↦ inr (i.holds ∙ e) ],
          (λ e. i.holds ∙ ap target e),
          (λ e. i.holds ∙ ap target e),
          i.others k h j,
        )
