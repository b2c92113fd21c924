-- ===== src/Storage/Deletion.antt =====
-- What the deletion of an object leaves behind.
use rainlogs.Prelude.{
  ℕ, suc, ◌≤◌, ◌≡◌, refl, ap, ◌∙◌, ◌≢◌, ◌↔◌, ◌⊎◌, inl, inr, true, false, none, some, List, [], ◌∷◌,
  arith, Bool-cases, Bytes, bytes_eq_iff, All,
}
use rainlogs.Storage.RoundTrip.{get_logs_found, get_logs_missed}
use rainlogs.Storage.{
  Codec, Backend, object, remove_object, delete_one, delete_loop, delete_object, get_one, get_logs,
}

pub object-remove_object :
    (k : Bytes) (m : List (Bytes × Bytes)) → object k (remove_object k m) ≡ none
unfolding object remove_object
object-remove_object k [] = refl
object-remove_object k ((j, w) ∷ m) = ground (arith, object-remove_object k m)

pub object-remove_object_ne :
    (k j : Bytes) (m : List (Bytes × Bytes)) → k ≢ j → object j (remove_object k m) ≡ object j m
unfolding object remove_object
object-remove_object_ne k j [] h = refl
object-remove_object_ne k j ((i, w) ∷ m) h =
    ground (arith, bytes_eq_iff i k, bytes_eq_iff i j, object-remove_object_ne k j m)

module _ (codec : Codec) (key : Bytes) where
  -- One provider before and after: it has lost the object and nothing else, or it is as before.
  abbrev pub Deleted : Backend → Backend → Type 0
  Deleted b c =
      ((b.accepts_delete ≡ true)
        × (object key c.objects ≡ none)
        × ((j : Bytes) → key ≢ j → object j c.objects ≡ object j b.objects))
      ⊎ ((b.accepts_delete ≡ false) × (c ≡ b))

  abbrev pub AllDeleted : List Backend → List Backend → Type 0
  AllDeleted [] [] = Unit {0}
  AllDeleted (b ∷ bs) (c ∷ cs) = Deleted b c × AllDeleted bs cs
  AllDeleted _ _ = ⊥

  abbrev pub Refuses : Backend → Type 0
  Refuses b = b.accepts_delete ≡ false

  abbrev pub after_delete : Backend → Backend
  after_delete b = record b { objects = remove_object key b.objects }

  delete_loop_taken :
      (b : Backend) (bs : List Backend) (n : ℕ)
      → b.accepts_delete ≡ true
      → delete_loop codec key (b ∷ bs) n ≡ (
        after_delete b ∷ (delete_loop codec key bs (suc n)).0,
        (delete_loop codec key bs (suc n)).1,
      )
  unfolding delete_loop delete_one
  delete_loop_taken b bs n h = rw h

  delete_loop_refused :
      (b : Backend) (bs : List Backend) (n : ℕ)
      → b.accepts_delete ≡ false
      → delete_loop codec key (b ∷ bs) n
        ≡ (b ∷ (delete_loop codec key bs n).0, (delete_loop codec key bs n).1)
  unfolding delete_loop delete_one
  delete_loop_refused b bs n h = rw h

  delete_loop-AllDeleted :
      (bs : List Backend) (n : ℕ) → AllDeleted bs (delete_loop codec key bs n).0
  delete_loop-AllDeleted [] n = unfold delete_loop in tt
  delete_loop-AllDeleted (b ∷ bs) n = elim (Bool-cases b.accepts_delete) [
    | inl takes ↦ rw (delete_loop_taken b bs n takes) (
      inl (
        takes,
        object-remove_object key b.objects,
        λ j h. object-remove_object_ne key j b.objects h,
      ),
      delete_loop-AllDeleted bs (suc n),
    )
    | inr refuses ↦
        rw (delete_loop_refused b bs n refuses) (inr (refuses, refl), delete_loop-AllDeleted bs n)
  ]

  le-delete_loop : (bs : List Backend) (n : ℕ) → n ≤ (delete_loop codec key bs n).1
  unfolding delete_loop delete_one
  le-delete_loop [] n = omega arith
  le-delete_loop (b ∷ bs) n = ground (arith, le-delete_loop bs n, le-delete_loop bs (suc n))

  delete_loop_iff :
      (bs : List Backend) (n : ℕ) → ((delete_loop codec key bs n).1 ≡ n) ↔ All Refuses bs
  delete_loop_iff [] n = unfold delete_loop in (λ _. tt, λ _. refl)
  delete_loop_iff (b ∷ bs) n = elim (Bool-cases b.accepts_delete) [
    | inl takes ↦
        rw (delete_loop_taken b bs n takes)
          (λ e. absurd (omega (arith, le-delete_loop bs (suc n))), λ r. cc (takes, r.0))
    | inr refuses ↦
        let ih = delete_loop_iff bs n in
        rw (delete_loop_refused b bs n refuses) (λ e. (refuses, ih.0 e), λ r. ih.1 r.1)
  ]

  -- DeleteObject removes the object, and nothing else, from every provider that accepts, and leaves
  -- the others as they were. It fails exactly when there are providers and all of them refuse.
  delete_object_lem :
      (bs : List Backend)
      → AllDeleted bs (delete_object codec key bs).1
        × (((delete_object codec key bs).0 ≡ false) ↔ ((bs ≢ []) × All Refuses bs))
  unfolding delete_object
  delete_object_lem [] = unfold delete_loop in (tt, (λ e. cc, λ h. absurd (h.0 refl)))
  delete_object_lem (b ∷ bs) =
      let iff = delete_loop_iff (b ∷ bs) 0 in
      (
        delete_loop-AllDeleted (b ∷ bs) 0,
        (λ e. (λ p. cc, iff.0 (ground arith)), λ h. let z = iff.1 h.1 in ground arith),
      )

  get_one-after_delete : (b : Backend) → get_one codec key (after_delete b) ≡ none
  unfolding get_one
  get_one-after_delete b = ground (arith, object-remove_object key b.objects)

  -- A deletion that one provider carries out and another refuses is a success, and the object can
  -- still be downloaded from the one that refused.
  delete_object_residue :
      (a b : Backend) (raw : Bytes)
      → a.accepts_delete ≡ true
      → b.accepts_delete ≡ false
      → get_one codec key b ≡ some raw
      → ((delete_object codec key (a ∷ b ∷ [])).0 ≡ true)
        × (get_logs codec key (delete_object codec key (a ∷ b ∷ [])).1 ≡ some raw)
  unfolding delete_object
  delete_object_residue a b raw takes refuses held =
      rw (delete_loop_taken a (b ∷ []) 0 takes, delete_loop_refused b [] 1 refuses)
        (unfold delete_loop in
          (
            refl,
            get_logs_missed codec key (after_delete a) (b ∷ []) (get_one-after_delete a)
                ∙ get_logs_found codec key b [] raw held,
          ))

-- Where every provider deletes.
abbrev pub Accepts : Backend → Type 0
Accepts b = b.accepts_delete ≡ true

-- The providers after each of them deleted the key.
abbrev pub cleared : Codec → Bytes → List Backend → List Backend
cleared codec key [] = []
cleared codec key (b ∷ bs) = after_delete codec key b ∷ cleared codec key bs

pub cleared-Accepts :
    (codec : Codec) (key : Bytes) (bs : List Backend)
    → All Accepts bs
    → All Accepts (cleared codec key bs)
cleared-Accepts codec key [] h = tt
cleared-Accepts codec key (b ∷ bs) h = (h.0, cleared-Accepts codec key bs h.1)

delete_loop-cleared :
    (codec : Codec) (key : Bytes) (bs : List Backend) (n : ℕ)
    → All Accepts bs
    → (delete_loop codec key bs n).0 ≡ cleared codec key bs
delete_loop-cleared codec key [] n h = unfold delete_loop in refl
delete_loop-cleared codec key (b ∷ bs) n h =
    rw (delete_loop_taken codec key b bs n h.0)
      (ap (λ cs. after_delete codec key b ∷ cs) (delete_loop-cleared codec key bs (suc n) h.1))

pub delete_object-cleared :
    (codec : Codec) (key : Bytes) (bs : List Backend)
    → All Accepts bs
    → delete_object codec key bs ≡ (true, cleared codec key bs)
unfolding delete_object
delete_object-cleared codec key [] h = unfold delete_loop in refl
delete_object-cleared codec key (b ∷ bs) h =
    let all = delete_loop-cleared codec key (b ∷ bs) 0 h in
    let one : 1 ≤ (delete_loop codec key (b ∷ bs) 0).1 =
      rw (delete_loop_taken codec key b bs 0 h.0) (le-delete_loop codec key bs 1) in
    ground (arith, all, one)
