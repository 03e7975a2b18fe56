-- ===== src/Timing/Engine/Targets.antt =====
-- When the engine gives targets, and what they are.
use raise.Schema.{not_finite}
use raise.Prelude.{
  ◌≤ℤ◌, All, ◌≡◌, ◌⊎◌, arith, pos, false, Any, ◌∷◌, ◌<ℤ◌, some, ◌↔◌, inl, ◌≢◌, inr, [], refl, ◌+ℤ◌,
  sym, ◌-ℤ◌, ◌*ℤ◌, int_laws,
}
use raise.Timing.Engine.{
  compute_timing_targets, targets_for, max_from, List, Instant, ℤ, Number, any, finite,
  RestaurantTimingSettings, is_bad_prep_time, TimingTargets, minutes_of, max_ℤ, add_minutes,
}

abbrev pub IsPrepTime : Number → Type 0
IsPrepTime not_finite = ⊥
IsPrepTime (finite n) = pos 0 <ℤ n

any_bad-All : (ms : List Number) → any is_bad_prep_time ms ≡ false → All IsPrepTime ms
any_bad-All [] h = tt
any_bad-All (finite n ∷ ms) h = (ground arith, any_bad-All ms (ground arith))
any_bad-All (not_finite ∷ ms) h = cc

All-any_bad : (ms : List Number) → All IsPrepTime ms → any is_bad_prep_time ms ≡ false
All-any_bad [] h = refl
All-any_bad (finite n ∷ ms) (p, h) = ground (arith, All-any_bad ms h)
All-any_bad (not_finite ∷ ms) (p, h) = absurd p

-- The engine refuses exactly an empty order and an order with a prep time that is not a positive
-- finite number.
pub compute_timing_targets-some_iff :
    (eta : Instant) (ms : List Number) (s : RestaurantTimingSettings)
    → ((t : TimingTargets) × (compute_timing_targets eta ms s ≡ some t))
      ↔ ((ms ≢ []) × All IsPrepTime ms)
unfolding compute_timing_targets
compute_timing_targets-some_iff eta [] s = (λ h. cc h.1, λ h. absurd (h.0 refl))
compute_timing_targets-some_iff eta (m ∷ ms) s = (
  λ h. (λ e. cc, any_bad-All (m ∷ ms) (ground (arith, h.1))),
  λ h. (targets_for eta (max_from (minutes_of m) ms) s, rw (All-any_bad (m ∷ ms) h.1)),
)

max_from-le : (longest : ℤ) (ms : List Number) → longest ≤ℤ max_from longest ms
unfolding max_from
max_from-le a [] = omega arith
max_from-le a (m ∷ ms) = ground (arith, max_from-le (max_ℤ a (minutes_of m)) ms)

max_from-All : (longest : ℤ) (ms : List Number) → All (λ m. minutes_of m ≤ℤ max_from longest ms) ms
unfolding max_from
max_from-All a [] = tt
max_from-All a (m ∷ ms) = (
  ground (arith, max_from-le (max_ℤ a (minutes_of m)) ms),
  max_from-All (max_ℤ a (minutes_of m)) ms,
)

max_from-mem :
    (longest : ℤ) (ms : List Number)
    → (max_from longest ms ≡ longest) ⊎ Any (λ m. minutes_of m ≡ max_from longest ms) ms
unfolding max_from
max_from-mem a [] = inl refl
max_from-mem a (m ∷ ms) = elim (max_from-mem (max_ℤ a (minutes_of m)) ms) [
  | inl e ↦ ground (arith, e)
  | inr i ↦ inr (inr i)
]

-- One item is the longest, and the others are no longer.
longest-Any :
    (m : Number) (ms : List Number) → Any (λ k. minutes_of k ≡ max_from (minutes_of m) ms) (m ∷ ms)
longest-Any m ms = elim (max_from-mem (minutes_of m) ms) [ inl e ↦ inl (sym e) | inr i ↦ inr i ]

longest-All :
    (m : Number) (ms : List Number) → All (λ k. minutes_of k ≤ℤ max_from (minutes_of m) ms) (m ∷ ms)
longest-All m ms = (max_from-le (minutes_of m) ms, max_from-All (minutes_of m) ms)

targets_for-start :
    (eta longest : ℤ) (s : RestaurantTimingSettings)
    → (targets_for eta longest s).kitchen_start_target
        +ℤ (longest +ℤ s.avg_prep_buffer_minutes) *ℤ pos 60000
      ≡ eta
unfolding targets_for add_minutes
targets_for-start eta longest s = omega int_laws

targets_for-food_out :
    (eta longest : ℤ) (s : RestaurantTimingSettings)
    → (targets_for eta longest s).food_out_target
      ≡ eta +ℤ (s.expo_buffer_minutes -ℤ s.avg_prep_buffer_minutes) *ℤ pos 60000
unfolding targets_for add_minutes
targets_for-food_out eta longest s = omega int_laws

-- What targets mean: for the longest prep time of the order, prep that begins at the kitchen's
-- target ends one buffer before the arrival, and food is out at the arrival shifted by the
-- difference of the two buffers, whatever was ordered.
pub compute_timing_targets-formula :
    (eta : Instant) (ms : List Number) (s : RestaurantTimingSettings) (t : TimingTargets)
    → compute_timing_targets eta ms s ≡ some t
    → (longest : ℤ) × Any (λ m. minutes_of m ≡ longest) ms
      × All (λ m. minutes_of m ≤ℤ longest) ms
      × (t.kitchen_start_target +ℤ (longest +ℤ s.avg_prep_buffer_minutes) *ℤ pos 60000 ≡ eta)
      × (t.food_out_target
          ≡ eta +ℤ (s.expo_buffer_minutes -ℤ s.avg_prep_buffer_minutes) *ℤ pos 60000)
unfolding compute_timing_targets
compute_timing_targets-formula eta [] s t h = cc
compute_timing_targets-formula eta (m ∷ ms) s t h =
    let longest = max_from (minutes_of m) ms in
    let is : t ≡ targets_for eta longest s = ground arith in
    (
      longest,
      longest-Any m ms,
      longest-All m ms,
      rw is (targets_for-start eta longest s),
      rw is (targets_for-food_out eta longest s),
    )
