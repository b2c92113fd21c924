-- ===== src/Db/Selected.antt =====
-- What the rows that a query returns have in common with the table, for the queries of
-- internal/db/repositories.go.
use mathlib.Core.List.{Memᴰ}
use rainlogs.Prelude.{
  ◌≡◌, refl, ap, sym, ◌∙◌, subst, inl, inr, arith, Bool, true, none, some, List, [], ◌∷◌,
  find_first, find_first_hit, find_first_miss, select, select_hit, select_miss, Bool-cases, All,
}

module _ {ℓ} {A : Type ℓ} where
  pub find_first-Memᴰ :
      (p : A → Bool) (xs : List A) (x : A) → find_first p xs ≡ some x → Memᴰ x xs × (p x ≡ true)
  find_first-Memᴰ p [] x h = cc
  find_first-Memᴰ p (y ∷ xs) x h = elim (Bool-cases (p y)) [
    | inl hit ↦
        let same : y ≡ x =
          ap (λ o. elim o as (λ _. A) [ some z ↦ z | none ↦ y ])
            (sym (find_first_hit p y xs hit) ∙ h) in
        (Memᴰ.head (sym same), ap p (sym same) ∙ hit)
    | inr miss ↦
        let (there, holds) = find_first-Memᴰ p xs x (sym (find_first_miss p y xs miss) ∙ h) in
        (Memᴰ.tail there, holds)
  ]

  -- What holds of the rows of a table that pass the test holds of the selected rows.
  pub select-All_rows {κ} :
      (P : A → Type κ) (p : A → Bool) (xs : List A)
      → ((x : A) → Memᴰ x xs → p x ≡ true → P x)
      → All P (select p xs)
  select-All_rows P p [] h = tt
  select-All_rows P p (y ∷ xs) h =
      let rest : All P (select p xs) = select-All_rows P p xs (λ x there. h x (Memᴰ.tail there)) in
      elim (Bool-cases (p y)) [
        | inl hit ↦ rw (select_hit p y xs hit) (h y (Memᴰ.head refl) hit, rest)
        | inr miss ↦ rw (select_miss p y xs miss) rest
      ]

  -- What holds of the selected rows holds of every row that passes the test.
  pub select-All_only {κ} :
      (P : A → Type κ) (p : A → Bool) (xs : List A)
      → All P (select p xs)
      → All (λ x. p x ≡ true → P x) xs
  select-All_only P p [] h = tt
  select-All_only P p (y ∷ xs) h = elim (Bool-cases (p y)) [
    | inl hit ↦
        let both : All P (y ∷ select p xs) = subst (λ ys. All P ys) (select_hit p y xs hit) h in
        ((λ _. both.0), select-All_only P p xs both.1)
    | inr miss ↦ (
      (λ e. ground (arith, e, miss)),
      select-All_only P p xs (subst (λ ys. All P ys) (select_miss p y xs miss) h),
    )
  ]
