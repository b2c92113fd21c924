-- ===== src/Worm/Audit.antt =====
-- What the loop of rainlogs-verify decides.
use rainlogs.Prelude.{
  ℕ, ◌+◌, ◌<◌, lt→ltb, ◌≡◌, inl, inr, ◌↔◌, List, [], ◌∷◌, ◌++◌, arith, Bool-cases, Bytes, bytes_eq,
  bytes_eq_iff,
}
use rainlogs.Worm.{Row, Verdict, broken, intact, row_hash, verify_rows, verify_chain}

module _ (sha256 : Bytes → Bytes) where
  -- Each row names the hash of the row before it, the first one `prev`.
  abbrev pub FollowsFrom : Bytes → List Row → Type 0
  FollowsFrom prev [] = Unit {0}
  FollowsFrom prev (r ∷ rows) = (r.previous_hash ≡ prev) × FollowsFrom (row_hash sha256 r) rows

  -- The first row may name any hash.
  abbrev pub IsLinked : List Row → Type 0
  IsLinked [] = Unit {0}
  IsLinked (r ∷ rows) = FollowsFrom (row_hash sha256 r) rows

  abbrev pub IsIntact : Verdict → Type 0
  IsIntact (broken _ _ _) = ⊥
  IsIntact (intact _ _ _) = Unit {0}

  verify_rows_iff :
      (prev : Bytes) (count last : ℕ) (rows : List Row)
      → 0 < count
      → IsIntact (verify_rows sha256 prev count last rows) ↔ FollowsFrom prev rows
  unfolding verify_rows
  verify_rows_iff prev count last [] h = (λ _. tt, λ _. tt)
  verify_rows_iff prev count last (r ∷ rows) h =
      let ih = verify_rows_iff (row_hash sha256 r) (count + 1) r.id rows (omega arith) in
      elim (Bool-cases (bytes_eq r.previous_hash prev)) [
        | inl same ↦
            rw (lt→ltb 0 count h, same) (λ i. ((bytes_eq_iff _ _).0 same, ih.0 i), λ f. ih.1 f.1)
        | inr differ ↦
            rw (lt→ltb 0 count h, differ)
              (λ i. absurd i, λ f. cc (differ, (bytes_eq_iff _ _).1 f.0))
      ]

  -- The tool reports an intact chain exactly when every row after the first names the recomputed
  -- hash of the row before it.
  pub verify_chain_iff : (rows : List Row) → IsIntact (verify_chain sha256 rows) ↔ IsLinked rows
  unfolding verify_chain verify_rows
  verify_chain_iff [] = (λ _. tt, λ _. tt)
  verify_chain_iff (r ∷ rows) = verify_rows_iff (row_hash sha256 r) 1 r.id rows (omega arith)

  FollowsFrom-last :
      (prev : Bytes) (rows : List Row) (r : Row) (payload : Bytes)
      → FollowsFrom prev (rows ++ r ∷ [])
      → FollowsFrom prev (rows ++ record r { payload = payload } ∷ [])
  FollowsFrom-last prev [] r payload (e, _) = (e, tt)
  FollowsFrom-last prev (x ∷ rows) r payload (e, h) =
      (e, FollowsFrom-last (row_hash sha256 x) rows r payload h)

  IsLinked-last :
      (rows : List Row) (r : Row) (payload : Bytes)
      → IsLinked (rows ++ r ∷ [])
      → IsLinked (rows ++ record r { payload = payload } ∷ [])
  IsLinked-last [] r payload h = tt
  IsLinked-last (x ∷ rows) r payload h = FollowsFrom-last (row_hash sha256 x) rows r payload h

  -- Whatever the payload of the last row is replaced by, a chain that the tool calls intact is
  -- still called intact.
  verify_chain_last :
      (rows : List Row) (r : Row) (payload : Bytes)
      → IsIntact (verify_chain sha256 (rows ++ r ∷ []))
      → IsIntact (verify_chain sha256 (rows ++ record r { payload = payload } ∷ []))
  verify_chain_last rows r payload h =
      (verify_chain_iff (rows ++ record r { payload = payload } ∷ [])).1
        (IsLinked-last rows r payload ((verify_chain_iff (rows ++ r ∷ [])).0 h))
