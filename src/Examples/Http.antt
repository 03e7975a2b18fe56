-- ===== src/Examples/Http.antt =====
-- A cook accepts an order at restaurant 1, while restaurant 2 has a visit of its own.
use raise.Timing.Service.{accept_kitchen_start}
use raise.Schema.{confirmed}
use raise.Auth.Staff.{staff_guards}
use raise.Http.Access.{IsRefusal, Granted, handle_staff-Granted, GrantedAny}
use raise.Examples.Auth.{secret, request_with, library}
use raise.Http.Isolation.{handle_staff-Apart}
use raise.Examples.{evening, rows, blank_visit, now}
use raise.Http.{Env, handle_staff, staff_handler, accept_route, accepted_reply}
use raise.Auth.{Request, staff_jwt_guard, staff_restaurant_guard, roles_guard, verify_staff}
use raise.Http.Tenants.{Apart, Apart-same}
use raise.World.{World, Failure, ok, err, not_found}
use raise.Prelude.{◌≡◌, some, none, refl, ◌∷◌, [], arith, ◌⊎◌, false}
use raise.Store.{documented, documented-IsDocumented, Key}

run : Unit {0}
unfolding handle_staff staff_handler staff_guards staff_jwt_guard staff_restaurant_guard roles_guard
    verify_staff accept_kitchen_start
run = tt

abbrev shared : World
shared = record evening {
  db = record (evening.db) {
    visits = rows (
        (12, blank_visit 12 confirmed)
        ∷ (50, record (blank_visit 50 confirmed) { restaurant_id = 2 })
        ∷ []);
  };
}

abbrev env : Env
env = record {
  secrets = secret;
  jwt = library;
  now = now;
  others = λ w. w;
  new_id = λ w. 90;
  order_tables = λ ts. ts;
  order_menu = λ ms. ms;
}

abbrev from_the_cook : Request
from_the_cook = request_with (some 60) none

abbrev accepted_order : World
accepted_order = (handle_staff documented env (accept_route 12) from_the_cook shared).1

accepts :
    handle_staff documented env (accept_route 12) from_the_cook shared
    ≡ (ok (accepted_reply false (some now)), accepted_order)
unfolding run
accepts = refl

-- Another restaurant's visit is not found.
not_theirs : (handle_staff documented env (accept_route 50) from_the_cook shared).0 ≡ err not_found
unfolding run
not_theirs = refl

handle_staff-Granted_example :
    (¬ (GrantedAny env (accept_route 12) from_the_cook shared)
      × (f : Failure) × IsRefusal f
      × (ok (accepted_reply false (some now)) ≡ err f)
      × (accepted_order ≡ shared))
    ⊎ ((user : Key) × Granted env (accept_route 12) from_the_cook shared user
        × (staff_handler documented env (accept_route 12) user 1 shared
            ≡ (ok (accepted_reply false (some now)), accepted_order)))
handle_staff-Granted_example =
    handle_staff-Granted documented documented-IsDocumented env (accept_route 12) from_the_cook
      shared accepted_order (ok (accepted_reply false (some now))) accepts

handle_staff-Apart_example : Apart 2 shared accepted_order
handle_staff-Apart_example =
    handle_staff-Apart documented documented-IsDocumented env (accept_route 12) from_the_cook 2
      shared accepted_order (ok (accepted_reply false (some now))) (λ e. ground arith)
      (λ w. Apart-same 2 w w refl) accepts
