-- ===== src/Timing/Engine.antt =====
-- apps/api/src/timing/timing-engine.ts. Minutes are JavaScript numbers, whole or not finite; instants are
-- milliseconds.
pub mod Targets
use raise.Schema.{Number, Instant, finite, not_finite}
use raise.Prelude.{
  ℤ, pos, ◌+ℤ◌, ◌-ℤ◌, ◌*ℤ◌, if◌then◌else◌, List, Bool, Option, ◌∷◌, leb_ℤ, none, true, any, some,
  [],
}

pub record RestaurantTimingSettings : Type 0 where
  pub avg_prep_buffer_minutes : ℤ
  pub expo_buffer_minutes : ℤ

pub record TimingTargets : Type 0 where
  pub kitchen_start_target : Instant
  pub food_out_target : Instant

pub add_minutes : Instant → ℤ → Instant
add_minutes date minutes = date +ℤ minutes *ℤ pos 60000

-- `!Number.isFinite(minutes) || minutes <= 0`
abbrev pub is_bad_prep_time : Number → Bool
is_bad_prep_time not_finite = true
is_bad_prep_time (finite n) = leb_ℤ n (pos 0)

abbrev pub max_ℤ : ℤ → ℤ → ℤ
max_ℤ a b = if leb_ℤ a b then b else a

abbrev pub minutes_of : Number → ℤ
minutes_of (finite n) = n
minutes_of not_finite = pos 0

-- `Math.max(...items)` of a list that begins with `longest`, once no item is NaN or infinite.
pub max_from : ℤ → List Number → ℤ
max_from longest [] = longest
max_from longest (m ∷ ms) = max_from (max_ℤ longest (minutes_of m)) ms

targets_for : Instant → ℤ → RestaurantTimingSettings → TimingTargets
targets_for arrival_eta longest_prep_minutes settings =
    let start =
      add_minutes arrival_eta
        (pos 0 -ℤ (longest_prep_minutes +ℤ settings.avg_prep_buffer_minutes)) in
    record {
      kitchen_start_target = start;
      food_out_target = add_minutes start (longest_prep_minutes +ℤ settings.expo_buffer_minutes);
    }

-- `none` is the `InvalidTimingInputError`.
unfoldable pub compute_timing_targets :
    Instant → List Number → RestaurantTimingSettings → Option TimingTargets
unfolding max_from targets_for add_minutes
compute_timing_targets arrival_eta [] settings = none
compute_timing_targets arrival_eta (m ∷ ms) settings =
    if any is_bad_prep_time (m ∷ ms)
    then none
    else some (targets_for arrival_eta (max_from (minutes_of m) ms) settings)
