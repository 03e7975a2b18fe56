-- ===== src/Examples/Auth.antt =====
-- A JWT library that knows a staff, a guest and a draft token, and requests that carry them.
use raise.Auth.Otp.{Guess, code_ttl_ms}
use raise.World.{World, ok}
use raise.Store.{Key, documented}
use raise.Visits.{
  confirm, confirm_claim, confirm_checks, confirm_tx, to_confirmed_dto, get_visit_or_throw,
}
use raise.Auth.Guest.{confirm_route, confirm_guards, Authorized, confirm_route-Authorized}
use raise.Auth.{
  intake_draft_guard, confirm_customer_guard, verify_intake, verify_customer, Audience, Jwt,
  IntakeDraftTokenPayload, Request,
}
use raise.Prelude.{
  refl, none, Option, some, if◌then◌else◌, ◌≡◌, ◌∷◌, ◌==◌, [], List, ◌+ℤ◌, leb_ℤ, pos, true,
}
use raise.Examples.{evening, now, alone}
use raise.Examples.Booking.{answer}

abbrev pub secret : Audience → Option Key
secret a = some 99

abbrev known : Key → Option Key
known token = if token == 60 then some 6 else if token == 70 then some 7 else none

abbrev known_draft : Key → Option IntakeDraftTokenPayload
known_draft token = if token == 80 then some (record { visit_id = 10; restaurant_id = 1 }) else none

abbrev pub library : Jwt
library = record {
  verify_sub = λ s a token. known token;
  verify_draft = λ s a token. known_draft token;
}

abbrev pub request_with : Option Key → Option Key → Request
request_with bearer session = record {
  bearer_token = bearer;
  customer_token = session;
  restaurant_param = 1;
  visit_param = 10;
  staff_user_id = none;
  staff_role = none;
  customer_id = none;
}

abbrev route_world : World
route_world =
    (confirm_route documented secret library alone now (request_with (some 80) (some 70)) evening).1

route_books :
    confirm_route documented secret library alone now (request_with (some 80) (some 70)) evening
    ≡ (ok answer, route_world)
unfolding confirm_route confirm_guards intake_draft_guard confirm_customer_guard verify_intake
    verify_customer confirm confirm_claim confirm_checks confirm_tx to_confirmed_dto
    get_visit_or_throw
route_books = refl

confirm_route-Authorized_example :
    (customer : Key) × (Authorized secret library (request_with (some 80) (some 70)) customer
      × (confirm documented alone now 1 10 customer evening ≡ (ok answer, route_world)))
confirm_route-Authorized_example =
    confirm_route-Authorized documented secret library alone now (request_with (some 80) (some 70))
      evening route_world answer route_books

abbrev wrong_guess : List Guess
wrong_guess = record { at = pos 1100; phone = 55; code = 1234 } ∷ []

otp_in_time : leb_ℤ (pos 1200) (pos 1000 +ℤ code_ttl_ms) ≡ true
unfolding ◌+ℤ◌
otp_in_time = refl
