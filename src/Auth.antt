-- ===== src/Auth.antt =====
-- apps/api/src/auth/guards: who may call a route. A guard lets the request pass, with what it
-- verified attached, or throws. The JWT library and the configured secrets are parameters; a bearer
-- token arrives cut out of its header, and a missing, malformed or empty header is `none`.
pub mod Staff
pub mod Guest
pub mod Otp
pub mod Login
pub mod StaffLogin
pub mod GuestLogin
use raise.Visits.{is_empty}
use raise.World.{
  M, for_restaurant, ◌>>=◌, pure, or_throw, unauthorized, not_found, internal_error, throw, ok,
  forbidden,
}
use raise.Store.{Key, Client}
use raise.Prelude.{
  Option, List, some, ℕ, Bool, if◌then◌else◌, none, false, any, ◌==◌, ◌||◌, ◌&&◌, true,
}
use raise.Schema.{StaffRole, owner, foh}

pub data Audience : Type 0 where
  staff_audience customer_audience intake_draft_audience : Audience

pub record IntakeDraftTokenPayload : Type 0 where
  pub visit_id : Key
  pub restaurant_id : Key

-- `JwtService.verify` with a secret and an audience, for the two payloads; `none` is a throw.
pub record Jwt : Type 0 where
  pub verify_sub : Key → Audience → Key → Option Key
  pub verify_draft : Key → Audience → Key → Option IntakeDraftTokenPayload

pub record Request : Type 0 where
  pub bearer_token : Option Key
  pub customer_token : Option Key
  pub restaurant_param : Key
  pub visit_param : Key
  pub staff_user_id : Option Key
  pub staff_role : Option StaffRole
  pub customer_id : Option Key

abbrev role_code : StaffRole → ℕ
role_code owner = 0
role_code foh = 1
role_code StaffRole.kitchen = 2

abbrev pub includes_role : List StaffRole → Option StaffRole → Bool
includes_role required none = false
includes_role required (some role) = any (λ r. role_code r == role_code role) required

abbrev pub and_then {ℓ κ} : {A : Type ℓ} {B : Type κ} → Option A → (A → Option B) → Option B
and_then none f = none
and_then (some a) f = f a

module _ (secrets : Audience → Option Key) (jwt : Jwt) where
  -- The `verify` of the three token services: an unset secret is a throw too.
  unfoldable pub verify_staff : Key → Option Key
  verify_staff token = and_then (secrets staff_audience) λ s. jwt.verify_sub s staff_audience token

  unfoldable pub verify_customer : Key → Option Key
  verify_customer token =
      and_then (secrets customer_audience) λ s. jwt.verify_sub s customer_audience token

  unfoldable pub verify_intake : Key → Option IntakeDraftTokenPayload
  verify_intake token =
      and_then (secrets intake_draft_audience) λ s. jwt.verify_draft s intake_draft_audience token

  unfoldable pub staff_jwt_guard : Request → M Request
  staff_jwt_guard request = do
    token ← or_throw request.bearer_token unauthorized
    sub ← or_throw (verify_staff token) unauthorized
    pure (record request { staff_user_id = some sub })

  unfoldable customer_jwt_guard : Request → M Request
  customer_jwt_guard request = do
    token ← or_throw request.bearer_token unauthorized
    sub ← or_throw (verify_customer token) unauthorized
    pure (record request { customer_id = some sub })

  abbrev pub attach : Request → Option Key → Request
  attach request none = request
  attach request (some sub) = record request { customer_id = some sub }

  unfoldable pub optional_customer_jwt_guard : Request → M Request
  optional_customer_jwt_guard request =
      pure (attach request (and_then request.bearer_token verify_customer))

  unfoldable pub confirm_customer_guard : Request → M Request
  confirm_customer_guard request = do
    token ← or_throw request.customer_token unauthorized
    sub ← or_throw (verify_customer token) unauthorized
    pure (record request { customer_id = some sub })

  unfoldable pub intake_draft_guard : Request → M Request
  intake_draft_guard request = do
    token ← or_throw request.bearer_token not_found
    payload ← or_throw (verify_intake token) not_found
    if payload.restaurant_id == request.restaurant_param && payload.visit_id == request.visit_param
        then pure request
        else throw not_found

unfoldable pub roles_guard : List StaffRole → Request → M Request
roles_guard required request =
    if is_empty required || includes_role required request.staff_role
    then pure request
    else throw forbidden

module _ (c : Client) where
  unfoldable pub staff_restaurant_guard : Request → M Request
  staff_restaurant_guard request = for_restaurant do
    user ← or_throw request.staff_user_id internal_error
    membership ← (λ w.
        (ok (c.find_first (w.db.staff_memberships request.restaurant_param) user (λ _. true)), w))
    m ← or_throw membership not_found
    pure (record request { staff_role = some m.role })
