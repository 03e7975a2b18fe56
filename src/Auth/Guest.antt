-- ===== src/Auth/Guest.antt =====
-- apps/api/src/visits/visits.controller.ts: the confirmation route behind its two guards.
use raise.Schema.{Instant}
use raise.World.{ok, World, M, ◌>>=◌, or_throw, internal_error, ok, Result-cases}
use raise.Visits.{Others, ConfirmVisitResponse, confirm}
use raise.Prelude.{inl, inr, Option-cases, Option, ◌≡◌, some, arith}
use raise.Auth.{
  Audience, Jwt, Request, intake_draft_guard, verify_intake, confirm_customer_guard,
  verify_customer, IntakeDraftTokenPayload,
}
use raise.Store.{Client, Key}

-- The two guards in their order.
unfoldable pub confirm_guards : (Audience → Option Key) → Jwt → Request → M Request
confirm_guards secrets jwt request =
    intake_draft_guard secrets jwt request >>= confirm_customer_guard secrets jwt

-- What a request that passes has shown: the token of this very draft, and a verified customer's.
pub record Authorized (secrets : Audience → Option Key) (jwt : Jwt) (request : Request)
    (customer : Key) : Type 0 where
  pub draft_token : Key
  pub session_token : Key
  pub draft_shown : request.bearer_token ≡ some draft_token
  pub draft_named :
      verify_intake secrets jwt draft_token
      ≡ some (record { visit_id = request.visit_param; restaurant_id = request.restaurant_param })
  pub session_shown : request.customer_token ≡ some session_token
  pub session_named : verify_customer secrets jwt session_token ≡ some customer

-- `VisitsController.confirm`
unfoldable pub confirm_route :
    Client → (Audience → Option Key) → Jwt → Others → Instant → Request → M ConfirmVisitResponse
confirm_route c secrets jwt others now request = do
  passed ← confirm_guards secrets jwt request
  customer ← or_throw passed.customer_id internal_error
  confirm c others now passed.restaurant_param passed.visit_param customer

module _ (secrets : Audience → Option Key) (jwt : Jwt) (request : Request) (w : World) where
  guards_passed :
      (token session customer : Key) (payload : IntakeDraftTokenPayload) (p : Request) (w' : World)
      → request.bearer_token ≡ some token
      → request.customer_token ≡ some session
      → verify_intake secrets jwt token ≡ some payload
      → verify_customer secrets jwt session ≡ some customer
      → confirm_guards secrets jwt request w ≡ (ok p, w')
      → Authorized secrets jwt request customer
        × ((p ≡ record request { customer_id = some customer }) × (w' ≡ w))
  unfolding confirm_guards intake_draft_guard confirm_customer_guard
  guards_passed token session customer payload p w' et es ep ec h = (
    record {
      draft_token = token;
      session_token = session;
      draft_shown = et;
      draft_named = ground arith;
      session_shown = es;
      session_named = ec;
    },
    (ground arith, ground arith),
  )

  -- A request that passes has shown both tokens.
  guards_of_ok :
      (p : Request) (w' : World)
      → confirm_guards secrets jwt request w ≡ (ok p, w')
      → (customer : Key) × (Authorized secrets jwt request customer
          × ((p ≡ record request { customer_id = some customer }) × (w' ≡ w)))
  unfolding confirm_guards intake_draft_guard confirm_customer_guard
  guards_of_ok p w' h = elim (Option-cases request.bearer_token) [
    | inl e ↦ absurd (ground arith)
    | inr (token, e) ↦ elim (Option-cases (verify_intake secrets jwt token)) [
      | inl f ↦ absurd (ground arith)
      | inr (payload, f) ↦ elim (Option-cases request.customer_token) [
        | inl s ↦ absurd (ground arith)
        | inr (session, s) ↦ elim (Option-cases (verify_customer secrets jwt session)) [
          | inl q ↦ absurd (ground arith)
          | inr (customer, q) ↦
              (customer, guards_passed token session customer payload p w' e s f q h)
        ]
      ]
    ]
  ]

module _ (c : Client) (secrets : Audience → Option Key) (jwt : Jwt) (others : Others)
    (now : Instant) (request : Request) (w w' : World) (x : ConfirmVisitResponse) where
  route_guards :
      confirm_route c secrets jwt others now request w ≡ (ok x, w')
      → (p : Request) × (confirm_guards secrets jwt request w
          ≡ (ok p, (confirm_guards secrets jwt request w).1))
  unfolding confirm_route
  route_guards h = elim (Result-cases (confirm_guards secrets jwt request w).0) [
    | inl (p, e) ↦ (p, ground arith)
    | inr (f, e) ↦ absurd (ground arith)
  ]

  route_confirm :
      (customer : Key) (p : Request) (m : World)
      → confirm_guards secrets jwt request w ≡ (ok p, m)
      → p ≡ record request { customer_id = some customer }
      → m ≡ w
      → confirm_route c secrets jwt others now request w ≡ (ok x, w')
      → confirm c others now request.restaurant_param request.visit_param customer w ≡ (ok x, w')
  unfolding confirm_route
  route_confirm customer p m g e f h = ground arith

-- Neither token alone confirms a booking: when the confirmation route answers, the request carried a
-- live draft token for exactly the visit and restaurant in the path and a live session token of a
-- verified customer, and the answer is that of `confirm` for this visit and this customer.
pub confirm_route-Authorized :
    (c : Client) (secrets : Audience → Option Key) (jwt : Jwt) (others : Others) (now : Instant)
    (request : Request) (w w' : World) (x : ConfirmVisitResponse)
    → confirm_route c secrets jwt others now request w ≡ (ok x, w')
    → (customer : Key) × (Authorized secrets jwt request customer
        × (confirm c others now request.restaurant_param request.visit_param customer w
            ≡ (ok x, w')))
confirm_route-Authorized c secrets jwt others now request w w' x h =
    let (p, g) = route_guards c secrets jwt others now request w w' x h in
    let (customer, (a, (e, f))) = guards_of_ok secrets jwt request w p _ g in
    (customer, (a, route_confirm c secrets jwt others now request w w' x customer p _ g e f h))
