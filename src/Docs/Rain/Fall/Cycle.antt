-- ===== src/Docs/Rain/Fall/Cycle.antt =====
-- How a drop falls.
use rainlogs.Prelude.{ℕ, ◌+◌, ◌*◌, ◌%◌, ◌<◌, ◌≡◌, ◌⊎◌, sym, ap, ◌∙◌, inl, inr, arith}
use native.Mathlib.Nat.{mod-lt, add-mod_right, mod-add-mod, mod-eq_of_lt, mod_self}
use native.Mathlib.Decide.{dec_lt}
use rainlogs.Docs.Rain.Fall.{phase, fall_from, fall_to}

phase-suc :
    (cycle delay elapsed : ℕ)
    → 0 < cycle
    → ((phase cycle delay elapsed + 1 < cycle)
        × (phase cycle delay (elapsed + 1) ≡ phase cycle delay elapsed + 1))
      ⊎ ((phase cycle delay elapsed + 1 ≡ cycle) × (phase cycle delay (elapsed + 1) ≡ 0))
unfolding phase
phase-suc cycle delay elapsed h =
    let now : ℕ = (elapsed + delay) % cycle in
    let below = mod-lt (elapsed + delay) h in
    let stepped : (elapsed + 1 + delay) % cycle ≡ (now + 1) % cycle =
      ap (λ n. n % cycle) (omega arith) ∙ sym (mod-add-mod (elapsed + delay) cycle 1) in
    elim (dec_lt (now + 1) cycle) [
      | yes more ↦ inl (more, stepped ∙ mod-eq_of_lt more)
      | no last ↦
          let full : now + 1 ≡ cycle = omega arith in
          inr (full, stepped ∙ ap (λ n. n % cycle) full ∙ mod_self cycle)
    ]

-- At every moment a drop is less than the whole way, 160vh, below its start; at the next tick it is one
-- tick's share of the way further down, or again at its start where that share was the last one; and
-- after a whole cycle it is where it was.
fall_cycle :
    (cycle delay elapsed : ℕ)
    → 0 < cycle
    → ((fall_from + fall_to) * phase cycle delay elapsed < 160 * cycle)
      × (((phase cycle delay elapsed + 1 < cycle)
            × (phase cycle delay (elapsed + 1) ≡ phase cycle delay elapsed + 1))
          ⊎ ((phase cycle delay elapsed + 1 ≡ cycle) × (phase cycle delay (elapsed + 1) ≡ 0)))
      × (phase cycle delay (elapsed + cycle) ≡ phase cycle delay elapsed)
unfolding phase
fall_cycle cycle delay elapsed h =
    let below = mod-lt (elapsed + delay) h in
    (
      omega arith,
      phase-suc cycle delay elapsed h,
      ap (λ n. n % cycle) (omega arith) ∙ add-mod_right (elapsed + delay) cycle,
    )
