-- ===== src/Ring/Modulo.antt =====
-- Numbers within one round of the ring have slots of their own.
use market_feed_platform.Prelude.{ℕ, ◌+◌, ◌-◌, ◌%◌, ◌<◌, ◌≡◌, ◌≢◌, ◌∙◌, ap, arith}
use native.Mathlib.Nat.{mod-add-mod, mod-eq_of_lt, mod-eq-sub-mod}
use native.Mathlib.Decide.{dec_lt}

-- Fewer than `cap` steps round the ring do not come back to the start.
add-mod-ne_self : (cap h k : ℕ) → h < cap → 0 < k → k < cap → (h + k) % cap ≢ h
add-mod-ne_self cap h k hh hp hk = elim (dec_lt (h + k) cap) [
  | yes p ↦ omega (arith, mod-eq_of_lt p)
  | no p ↦ omega (
    arith,
    mod-eq-sub-mod {n = h + k} {m = cap} (omega arith),
    mod-eq_of_lt {n = h + k - cap} {m = cap} (omega arith),
  )
]

pub mod-ne_of_near : (cap s t : ℕ) → s < t → t < s + cap → t % cap ≢ s % cap
mod-ne_of_near cap s t p q e =
    add-mod-ne_self cap (s % cap) (t - s) (omega arith) (omega arith) (omega arith)
      (mod-add-mod s cap (t - s) ∙ ap (λ k. k % cap) back ∙ e)
  where
    back : s + (t - s) ≡ t
    back = omega arith
