-- ===== src/Worker/Streams/Sync/Exact.antt =====
-- After a synchronisation exactly the zones that should have a stream have one.
use rainlogs.Prelude.{
  ℕ, ◌≡◌, refl, sym, ap, ◌∙◌, inl, inr, arith, Bool, true, false, if◌then◌else◌, not, ◌||◌, ◌&&◌,
  ◌==◌, ==_iff, some, List, [], ◌∷◌, ◌++◌, Bool-cases,
}
use rainlogs.Models.{Zone, PlanType}
use rainlogs.Worker.Streams.Sync.{
  contains_id, is_business, business_zones, Streams, remove_stopped, start_new, sync_streams,
}

contains_id-append :
    (id : ℕ) (xs ys : List ℕ) → contains_id id (xs ++ ys) ≡ (contains_id id xs || contains_id id ys)
contains_id-append id [] ys = refl
contains_id-append id (x ∷ xs) ys = ground (arith, contains_id-append id xs ys)

same_test : (x id : ℕ) (xs : List ℕ) → (x == id) ≡ true → contains_id x xs ≡ contains_id id xs
same_test x id xs e = ap (λ i. contains_id i xs) ((==_iff x id).0 e)

or_false : (b : Bool) → (b || false) ≡ b
or_false true = refl
or_false false = refl

kept_lem :
    (same r k b : Bool) → (same ≡ true → b ≡ true) → r ≡ (k && b) → (same || r) ≡ ((same || k) && b)
kept_lem true r k b h e = sym (h refl)
kept_lem false r k b h e = e

left_lem : (same r k b : Bool) → (same ≡ true → b ≡ false) → r ≡ (k && b) → r ≡ ((same || k) && b)
left_lem true r true b h e = e
left_lem true r false b h e = e ∙ sym (h refl)
left_lem false r k b h e = e

known_lem : (same a c : Bool) → (same ≡ true → a ≡ true) → (a || c) ≡ (a || (same || c))
known_lem true true c h = refl
known_lem true false c h = cc (h refl)
known_lem false a c h = refl

added_lem : (same a c : Bool) → ((a || (same || false)) || c) ≡ (a || (same || c))
added_lem true true c = refl
added_lem true false c = refl
added_lem false true c = refl
added_lem false false c = refl

there_lem :
    (same a c r : Bool)
    → (same ≡ true → r ≡ true)
    → (a || (c && not r)) ≡ (a || ((same || c) && not r))
there_lem true true c r h = refl
there_lem true false true r h = refl
there_lem true false false true h = refl
there_lem true false false false h = cc (h refl)
there_lem false a c r h = refl

missing_lem :
    (same a c r : Bool)
    → (same ≡ true → r ≡ false)
    → ((a || (same || false)) || (c && not (r || (same || false)))) ≡ (a || ((same || c) && not r))
missing_lem true true c r h = refl
missing_lem true false c true h = cc (h refl)
missing_lem true false c false h = refl
missing_lem false true c r h = refl
missing_lem false false true true h = refl
missing_lem false false true false h = refl
missing_lem false false false r h = refl

module _ (wanted : List ℕ) (s : Streams) (id : ℕ) where
  abbrev remaining : List ℕ → Streams
  remaining keys = remove_stopped wanted keys (record s { running = [] })

  remove_stopped-running :
      (keys : List ℕ)
      → contains_id id (remaining keys).running ≡ (contains_id id keys && contains_id id wanted)
  unfolding remove_stopped
  remove_stopped-running [] = refl
  remove_stopped-running (x ∷ keys) = elim (Bool-cases (contains_id x wanted)) [
    | inl stays ↦ rw stays (
        kept_lem (x == id) _ _ (contains_id id wanted) (λ e. sym (same_test x id wanted e) ∙ stays)
          (remove_stopped-running keys))
    | inr stops ↦ rw stops (
        left_lem (x == id) _ _ (contains_id id wanted) (λ e. sym (same_test x id wanted e) ∙ stops)
          (remove_stopped-running keys))
  ]

  remove_stopped-cancelled :
      (keys : List ℕ)
      → s.cancelled ≡ []
      → contains_id id (remaining keys).cancelled
        ≡ (contains_id id keys && not (contains_id id wanted))
  unfolding remove_stopped
  remove_stopped-cancelled [] none_yet = ap (contains_id id) none_yet
  remove_stopped-cancelled (x ∷ keys) none_yet = elim (Bool-cases (contains_id x wanted)) [
    | inl stays ↦ rw stays (
        left_lem (x == id) _ _ (not (contains_id id wanted))
          (λ e. ap not (sym (same_test x id wanted e) ∙ stays))
          (remove_stopped-cancelled keys none_yet))
    | inr stops ↦ rw stops (
        kept_lem (x == id) _ _ (not (contains_id id wanted))
          (λ e. ap not (sym (same_test x id wanted e) ∙ stops))
          (remove_stopped-cancelled keys none_yet))
  ]

  remove_stopped-started : (keys : List ℕ) → (remaining keys).started ≡ s.started
  unfolding remove_stopped
  remove_stopped-started [] = refl
  remove_stopped-started (x ∷ keys) = elim (Bool-cases (contains_id x wanted)) [
    | inl stays ↦ rw stays (remove_stopped-started keys)
    | inr stops ↦ rw stops (remove_stopped-started keys)
  ]

module _ (id : ℕ) where
  start_new-running :
      (wanted : List ℕ) (s : Streams)
      → contains_id id (start_new wanted s).running
        ≡ (contains_id id s.running || contains_id id wanted)
  unfolding start_new
  start_new-running [] s = sym (or_false (contains_id id s.running))
  start_new-running (x ∷ wanted) s = elim (Bool-cases (contains_id x s.running)) [
    | inl there ↦ rw there (
        start_new-running wanted s
        ∙ known_lem (x == id) _ (contains_id id wanted)
            (λ e. sym (same_test x id s.running e) ∙ there))
    | inr missing ↦ rw missing (
        start_new-running wanted _
        ∙ ap (λ b. b || contains_id id wanted) (contains_id-append id s.running (x ∷ []))
        ∙ added_lem (x == id) (contains_id id s.running) (contains_id id wanted))
  ]

  start_new-started :
      (wanted : List ℕ) (s : Streams)
      → contains_id id (start_new wanted s).started
        ≡ (contains_id id s.started || (contains_id id wanted && not (contains_id id s.running)))
  unfolding start_new
  start_new-started [] s = sym (or_false (contains_id id s.started))
  start_new-started (x ∷ wanted) s = elim (Bool-cases (contains_id x s.running)) [
    | inl there ↦ rw there (
        start_new-started wanted s
        ∙ there_lem (x == id) _ (contains_id id wanted) (contains_id id s.running)
            (λ e. sym (same_test x id s.running e) ∙ there))
    | inr missing ↦ rw missing (
        start_new-started wanted _
        ∙ cc (contains_id-append id s.started (x ∷ []), contains_id-append id s.running (x ∷ []))
        ∙ missing_lem (x == id) (contains_id id s.started) (contains_id id wanted)
            (contains_id id s.running) (λ e. sym (same_test x id s.running e) ∙ missing))
  ]

  start_new-cancelled :
      (wanted : List ℕ) (s : Streams) → (start_new wanted s).cancelled ≡ s.cancelled
  unfolding start_new
  start_new-cancelled [] s = refl
  start_new-cancelled (x ∷ wanted) s = elim (Bool-cases (contains_id x s.running)) [
    | inl there ↦ rw there (start_new-cancelled wanted s)
    | inr missing ↦ rw missing (start_new-cancelled wanted _)
  ]

absorb : (a b : Bool) → ((a && b) || b) ≡ b
absorb true true = refl
absorb true false = refl
absorb false b = refl

unstarted : (a b : Bool) → (b && not (a && b)) ≡ (b && not a)
unstarted true true = refl
unstarted true false = refl
unstarted false true = refl
unstarted false false = refl

-- Whether a zone of the business plan with the identifier is among the zones.
abbrev pub has_business : ℕ → List Zone → Bool
has_business id [] = false
has_business id (z ∷ zones) =
    elim z.plan [ PlanType.business ↦ z.id == id | _ ↦ false ] || has_business id zones

plan_cases :
    (plan : PlanType) (z : Zone) (id : ℕ) (zones : List ℕ)
    → contains_id id (if is_business plan then z.id ∷ zones else zones)
      ≡ (elim plan [ PlanType.business ↦ z.id == id | _ ↦ false ] || contains_id id zones)
plan_cases PlanType.business z id zones = refl
plan_cases PlanType.enterprise z id zones = refl
plan_cases PlanType.free_pro z id zones = refl
plan_cases PlanType.unset z id zones = refl
plan_cases (PlanType.other p) z id zones = refl

business_zones_lem :
    (id : ℕ) (zones : List Zone) → contains_id id (business_zones zones) ≡ has_business id zones
unfolding business_zones
business_zones_lem id [] = refl
business_zones_lem id (z ∷ zones) =
    plan_cases z.plan z id (business_zones zones)
    ∙ ap (λ b. elim z.plan [ PlanType.business ↦ z.id == id | _ ↦ false ] || b)
        (business_zones_lem id zones)

-- After a synchronisation a zone has a stream if and only if the query answered it and it is of the
-- business plan, whatever streams there were and in whichever order the map gives them; those streams
-- are cancelled whose zone is no such zone, and no others, and such a zone's is started if it had none.
pub sync_streams-exact :
    (zones : List Zone) (s : Streams) (id : ℕ)
    → s.cancelled ≡ []
    → s.started ≡ []
    → let t = sync_streams (some zones) s in
      let wanted = has_business id zones in
      let had = contains_id id s.running in
      (contains_id id t.running ≡ wanted)
      × (contains_id id t.cancelled ≡ (had && not wanted))
      × (contains_id id t.started ≡ (wanted && not had))
unfolding sync_streams
sync_streams-exact zones s id no_cancelled no_started =
    let wanted = business_zones zones in
    let known = business_zones_lem id zones in
    let left = remove_stopped wanted s.running (record s { running = [] }) in
    let running = remove_stopped-running wanted s id s.running in
    (
      start_new-running id wanted left
          ∙ ap (λ b. b || contains_id id wanted) running
          ∙ absorb (contains_id id s.running) (contains_id id wanted)
          ∙ known,
      ap (contains_id id) (start_new-cancelled id wanted left)
          ∙ remove_stopped-cancelled wanted s id s.running no_cancelled
          ∙ ap (λ b. contains_id id s.running && not b) known,
      start_new-started id wanted left
          ∙ cc (remove_stopped-started wanted s id s.running, no_started, running)
          ∙ unstarted (contains_id id s.running) (contains_id id wanted)
          ∙ ap (λ b. b && not (contains_id id s.running)) known,
    )
