-- ===== src/Auth/Staff.antt =====
-- The staff routes: `@UseGuards(StaffJwtGuard, StaffRestaurantGuard, RolesGuard)`.
use raise.Visits.{is_empty}
use raise.World.{World, Result, M, err, unauthorized, ◌>>=◌, not_found, ok, forbidden}
use raise.Schema.{StaffRole, StaffMembership}
use raise.Prelude.{
  none, Option, List, ◌≡◌, some, Option-cases, inl, arith, inr, if◌then◌else◌, ◌||◌,
}
use raise.Store.{Client, IsDocumented, Key, client-eq, documented}
use raise.Auth.{
  Request, Audience, Jwt, staff_jwt_guard, and_then, staff_restaurant_guard, verify_staff,
  roles_guard, includes_role,
}

-- The answer by what is known of the caller: the verified user, and the membership.
abbrev pub staff_answer :
    Request → List StaffRole → Option Key → (Key → Option StaffMembership) → Result Request
staff_answer request required none memberships = err unauthorized
staff_answer request required (some user) memberships = elim (memberships user) [
  | none ↦ err not_found
  | some m ↦
      if is_empty required || includes_role required (some m.role)
      then ok (record request { staff_user_id = some user; staff_role = some m.role })
      else err forbidden
]

module _ (c : Client) (secrets : Audience → Option Key) (jwt : Jwt)
    (required : List StaffRole) where
  unfoldable pub staff_guards : Request → M Request
  staff_guards request =
      staff_jwt_guard secrets jwt request >>= staff_restaurant_guard c >>= roles_guard required

module _ (secrets : Audience → Option Key) (jwt : Jwt) (required : List StaffRole)
    (request : Request) (w : World) where
  staff_guards_computed : staff_guards documented secrets jwt required request w ≡ (
    staff_answer request required
        (and_then request.bearer_token (verify_staff secrets jwt))
        (w.db.staff_memberships request.restaurant_param).at,
    w,
  )
  unfolding staff_guards staff_jwt_guard staff_restaurant_guard roles_guard
  staff_guards_computed = elim (Option-cases request.bearer_token) [
    | inl e ↦ ground arith
    | inr (token, e) ↦ elim (Option-cases (verify_staff secrets jwt token)) [
      | inl f ↦ ground arith
      | inr (user, f) ↦ ground arith
    ]
  ]

-- A staff route runs for no one but a verified staff user who is a member of the restaurant in the
-- path with one of the required roles; a caller without a valid staff token is told 401, one without
-- a membership 404, and one with another role 403; and no guard writes anything.
pub staff_guards-answer :
    (c : Client)
    → IsDocumented c
    → (secrets : Audience → Option Key) (jwt : Jwt) (required : List StaffRole) (request : Request)
      (w : World)
    → staff_guards c secrets jwt required request w ≡ (
      staff_answer request required
          (and_then request.bearer_token (verify_staff secrets jwt))
          (w.db.staff_memberships request.restaurant_param).at,
      w,
    )
staff_guards-answer c l = rw (client-eq c l) staff_guards_computed
