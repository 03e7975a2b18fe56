-- ===== src/Timing/Service.antt =====
-- apps/api/src/timing/timing.service.ts
pub mod Recompute
pub mod Accept
use raise.World.{
  Line, M, World, err, for_restaurant, not_found, pure, internal_error, ok, lines_of, ◌>>◌, ◌>>=◌,
  elsewhere, find_visit, update_visits, or_throw, emit, log_status,
}
use raise.Prelude.{
  List, ℤ, Option, Bool, none, leb_ℤ, true, some, ◌∷◌, ◌&&◌, false, map, if◌then◌else◌, [], pos,
  not, ◌==◌,
}
use raise.Store.{Client, Key}
use raise.Schema.{
  Instant, SettingValue, Visit, Restaurant, VisitStatus, Number, number, Reason, finite,
  kitchen_started, table_set, is_confirmed, guest_arrived, other, food_out, not_finite, completed,
  eta_changed, visit_timing_recomputed, staff_actor, kitchen_accept_endpoint,
  visit_kitchen_accepted,
}
use raise.Timing.Engine.{TimingTargets, compute_timing_targets, RestaurantTimingSettings}

pub data RecomputeRejection : Type 0 where
  visit_not_confirmed visit_not_ready stale_update : RecomputeRejection

pub data RecomputeResult : Type 0 where
  applied : TimingTargets → RecomputeResult
  rejected : RecomputeRejection → RecomputeResult

-- `accepted` with the instant unless it was accepted before, or the one rejection, `not_confirmed`.
pub data KitchenAcceptResult : Type 0 where
  accepted_at : Instant → KitchenAcceptResult
  already_accepted : KitchenAcceptResult
  not_confirmed : KitchenAcceptResult

abbrev pub post_kitchen : VisitStatus → Bool
post_kitchen kitchen_started = true
post_kitchen table_set = true
post_kitchen guest_arrived = true
post_kitchen food_out = true
post_kitchen completed = true
post_kitchen _ = false

-- `isValidBufferMinutes`, with the number that it lets through.
abbrev valid_buffer_minutes : SettingValue → Option ℤ
valid_buffer_minutes other = none
valid_buffer_minutes (number not_finite) = none
valid_buffer_minutes (number (finite n)) = if leb_ℤ (pos 0) n then some n else none

abbrev settings_from : Option ℤ → Option ℤ → Option RestaurantTimingSettings
settings_from none expo = none
settings_from (some prep) none = none
settings_from (some prep) (some expo) =
    some (record { avg_prep_buffer_minutes = prep; expo_buffer_minutes = expo })

timing_settings : Restaurant → Option RestaurantTimingSettings
timing_settings r =
    settings_from (valid_buffer_minutes r.avg_prep_buffer_minutes)
      (valid_buffer_minutes r.expo_buffer_minutes)

abbrev prep_times : List Line → List Number
prep_times ls = map (λ l. finite l.menu_item.prep_time_minutes) ls

abbrev ready_targets :
    Option Instant → List Line → Option RestaurantTimingSettings → Option TimingTargets
ready_targets none ls s = none
ready_targets (some eta) [] s = none
ready_targets (some eta) (l ∷ ls) none = none
ready_targets (some eta) (l ∷ ls) (some s) = compute_timing_targets eta (prep_times (l ∷ ls)) s

-- Everything between the status check and the write: `none` is `visit_not_ready`.
unfoldable pub targets_of : Visit → List Line → Restaurant → Option TimingTargets
unfolding timing_settings
targets_of v ls r = ready_targets v.arrival_eta ls (timing_settings r)

abbrev pub eq_ℤ : ℤ → ℤ → Bool
eq_ℤ a b = leb_ℤ a b && leb_ℤ b a

module _ (c : Client) where
  abbrev restaurant_of : Key → World → Option Restaurant
  restaurant_of r w = c.find_first w.db.restaurants r (λ _. true)

  -- The conditional write; `meanwhile` is what other requests commit since the row was read.
  unfoldable pub write_targets :
      (World → World)
      → Instant
      → Key
      → Key
      → Reason
      → Visit
      → Option TimingTargets
      → M RecomputeResult
  write_targets meanwhile now restaurant_id visit_id reason v none = pure (rejected visit_not_ready)
  write_targets meanwhile now restaurant_id visit_id reason v (some t) = do
    elsewhere meanwhile
    written ←
        update_visits c restaurant_id visit_id (λ row. is_confirmed row.status)
          λ row. record row {
            kitchen_start_target = some t.kitchen_start_target;
            food_out_target = some t.food_out_target;
            updated_at = now;
          }
    if written == 0 then pure (rejected visit_not_confirmed) else do
      emit (
          visit_timing_recomputed restaurant_id visit_id t.kitchen_start_target t.food_out_target
            v.kitchen_start_target reason)
      pure (applied t)

  abbrev pub compute_and_write :
      (World → World) → Instant → Key → Key → Reason → Visit → Option Restaurant → M RecomputeResult
  compute_and_write meanwhile now restaurant_id visit_id reason v none w = (err internal_error, w)
  compute_and_write meanwhile now restaurant_id visit_id reason v (some r) w =
      if not (is_confirmed v.status)
      then (ok (rejected visit_not_confirmed), w)
      else write_targets meanwhile now restaurant_id visit_id reason v
          (targets_of v (lines_of c v.id w) r) w

  unfoldable pub recompute_targets :
      (World → World) → Instant → Key → Key → Reason → M RecomputeResult
  recompute_targets meanwhile now restaurant_id visit_id reason = do
    found ← find_visit c restaurant_id visit_id
    v ← or_throw found not_found
    (λ w.
        compute_and_write meanwhile now restaurant_id visit_id reason v
          (restaurant_of v.restaurant_id w) w)

  unfoldable pub recompute : (World → World) → Instant → Key → Key → Reason → M RecomputeResult
  recompute meanwhile now restaurant_id visit_id reason =
      for_restaurant (recompute_targets meanwhile now restaurant_id visit_id reason)

  -- Why an ETA change was refused: the visit moved on, or its row did.
  abbrev eta_refusal : Option Visit → M RecomputeResult
  eta_refusal none w = (err not_found, w)
  eta_refusal (some v) w =
      (ok (rejected (if is_confirmed v.status then stale_update else visit_not_confirmed)), w)

  unfoldable pub recompute_for_eta_change :
      (World → World) → Instant → Key → Key → Instant → Instant → M RecomputeResult
  recompute_for_eta_change meanwhile now restaurant_id visit_id new_arrival_eta
        expected_updated_at =
      for_restaurant do
        claimed ←
            update_visits c restaurant_id visit_id
              (λ v. is_confirmed v.status && eq_ℤ v.updated_at expected_updated_at)
              λ v. record v { arrival_eta = some new_arrival_eta; updated_at = now }
        if claimed == 0
            then (do current ← find_visit c restaurant_id visit_id; eta_refusal current)
            else recompute_targets meanwhile now restaurant_id visit_id eta_changed

  abbrev accept_refusal : Option Visit → M KitchenAcceptResult
  accept_refusal none w = (err not_found, w)
  accept_refusal (some v) w =
      (ok (if post_kitchen v.status then already_accepted else not_confirmed), w)

  unfoldable pub accept_kitchen_start : Instant → Key → Key → Key → M KitchenAcceptResult
  accept_kitchen_start now restaurant_id visit_id staff_user_id = for_restaurant do
    claimed ←
        update_visits c restaurant_id visit_id (λ v. is_confirmed v.status)
          λ v. record v { status = kitchen_started; updated_at = now }
    if claimed == 0
        then (do current ← find_visit c restaurant_id visit_id; accept_refusal current)
        else do
          log_status (record {
            restaurant_id = restaurant_id;
            visit_id = visit_id;
            status = kitchen_started;
            occurred_at = now;
            actor_type = staff_actor;
            actor_id = staff_user_id;
            mechanism = kitchen_accept_endpoint;
          })
          emit (visit_kitchen_accepted restaurant_id visit_id now staff_user_id)
          pure (accepted_at now)
