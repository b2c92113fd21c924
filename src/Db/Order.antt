-- ===== src/Db/Order.antt =====
-- ORDER BY created_at DESC: later rows first, rows of one time in the order of the table.
use rainlogs.Prelude.{
  ℕ, zero, suc, Bool, true, List, [], ◌∷◌, ltb, if◌then◌else◌, take, drop, select, select_hit,
  select_miss, ◌≡◌, Bool-cases, inl, inr, All,
}

module _ {ℓ} {A : Type ℓ} (created_at : A → ℕ) where
  unfoldable pub insert_by_age : A → List A → List A
  insert_by_age x [] = x ∷ []
  insert_by_age x (y ∷ ys) =
      let later = y ∷ insert_by_age x ys in
      if ltb (created_at x) (created_at y) then later else x ∷ y ∷ ys

  unfoldable pub newest_first : List A → List A
  unfolding insert_by_age
  newest_first [] = []
  newest_first (x ∷ xs) = insert_by_age x (newest_first xs)

  module _ {κ} (P : A → Type κ) where
    insert_by_age-All : (x : A) (xs : List A) → P x → All P xs → All P (insert_by_age x xs)
    unfolding insert_by_age
    insert_by_age-All x [] p h = (p, tt)
    insert_by_age-All x (y ∷ ys) p h = elim (Bool-cases (ltb (created_at x) (created_at y))) [
      | inl older ↦ rw older (h.0, insert_by_age-All x ys p h.1)
      | inr newer ↦ rw newer (p, h)
    ]

    pub newest_first-All : (xs : List A) → All P xs → All P (newest_first xs)
    unfolding newest_first
    newest_first-All [] h = tt
    newest_first-All (x ∷ xs) h =
        insert_by_age-All x (newest_first xs) h.0 (newest_first-All xs h.1)

module _ {ℓ κ} {A : Type ℓ} (P : A → Type κ) where
  take-All : (n : ℕ) (xs : List A) → All P xs → All P (take n xs)
  take-All zero xs h = tt
  take-All (suc n) [] h = tt
  take-All (suc n) (x ∷ xs) h = (h.0, take-All n xs h.1)

  drop-All : (n : ℕ) (xs : List A) → All P xs → All P (drop n xs)
  drop-All zero xs h = h
  drop-All (suc n) [] h = tt
  drop-All (suc n) (x ∷ xs) h = drop-All n xs h.1

  -- A page of a table has only rows that the test takes.
  pub page-All :
      (created_at : A → ℕ) (limit offset : ℕ) (rows : List A)
      → All P rows
      → All P (take limit (drop offset (newest_first created_at rows)))
  page-All created_at limit offset rows h =
      take-All limit _ (drop-All offset _ (newest_first-All created_at P rows h))

  pub select-All : (p : A → Bool) (xs : List A) → ((x : A) → p x ≡ true → P x) → All P (select p xs)
  select-All p [] h = tt
  select-All p (x ∷ xs) h = elim (Bool-cases (p x)) [
    | inl hit ↦ rw (select_hit p x xs hit) (h x hit, select-All p xs h)
    | inr miss ↦ rw (select_miss p x xs miss) (select-All p xs h)
  ]
