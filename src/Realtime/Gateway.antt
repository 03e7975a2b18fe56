-- ===== src/Realtime/Gateway.antt =====
-- apps/api/src/realtime/visits.gateway.ts: the sockets of each restaurant, and what they are told.
-- The ticket that the upgrade request carries is an argument; how it is cut out of the header is not
-- modelled. A socket is known by a number.
use raise.Realtime.Tickets.{Tickets, TicketClaim, consume}
use Prim.Native.Nat.{ℕ}
use raise.Store.{Key, put}
use raise.Schema.{
  eta_drift, DomainEvent, Instant, visit_confirmed, visit_table_reassigned, visit_timing_recomputed,
  visit_kitchen_accepted, visit_allergy_acknowledged, visit_food_out, new_inbound, eta_drift,
}
use raise.Prelude.{
  none, Option, List, [], some, if◌then◌else◌, ℤ, Bool, any, false, ◌++◌, keep, map, leb, not,
  length, ◌∷◌, ◌==◌,
}

pub record Gateway : Type 0 where
  pub tickets : Tickets
  -- `connectionsByRestaurant`, each restaurant's set in the order of connection
  pub connections : Key → List Key
  -- `restaurantBySocket`
  pub restaurant_by_socket : Key → Option Key

abbrev pub max_connections : ℕ
max_connections = 50

pub data CloseCode : Type 0 where
  origin_not_allowed missing_or_invalid_ticket too_many_connections : CloseCode

-- The configured origin is `none` when the variable is not set; nothing is allowed then.
abbrev pub is_allowed_origin : Option Key → Option Key → Bool
is_allowed_origin configured none = false
is_allowed_origin none (some origin) = false
is_allowed_origin (some expected) (some origin) = origin == expected

abbrev pub has : Key → List Key → Bool
has s xs = any (λ x. x == s) xs

-- `Set.add` and `Set.delete`
abbrev pub add_socket : Key → List Key → List Key
add_socket s xs = if has s xs then xs else xs ++ s ∷ []

abbrev pub delete_socket : Key → List Key → List Key
delete_socket s xs = keep (λ x. not (x == s)) xs

abbrev pub consume_presented : Instant → Option Key → Tickets → Option TicketClaim × Tickets
consume_presented now none s = (none, s)
consume_presented now (some ticket) s = consume now ticket s

-- Room membership comes from the ticket's claim alone.
abbrev pub join : Key → Option TicketClaim → Gateway → Option CloseCode × Gateway
join client none g = (some missing_or_invalid_ticket, g)
join client (some claim) g =
    if leb max_connections (length (g.connections claim.restaurant_id))
    then (some too_many_connections, g)
    else (
      none,
      record g {
        connections =
            put g.connections claim.restaurant_id
              (add_socket client (g.connections claim.restaurant_id));
        restaurant_by_socket = put g.restaurant_by_socket client (some claim.restaurant_id);
      },
    )

-- The answer is the code with which the socket is closed, or `none`.
unfoldable pub handle_connection :
    Option Key → Instant → Key → Option Key → Option Key → Gateway → Option CloseCode × Gateway
handle_connection configured now client origin ticket g =
    if not (is_allowed_origin configured origin)
    then (some origin_not_allowed, g)
    else let (claim, tickets) = consume_presented now ticket g.tickets in
      join client claim (record g { tickets = tickets })

abbrev pub leave : Key → Option Key → Gateway → Gateway
leave client none g = g
leave client (some r) g = record g {
  restaurant_by_socket = put g.restaurant_by_socket client none;
  connections = put g.connections r (delete_socket client (g.connections r));
}

unfoldable pub handle_disconnect : Key → Gateway → Gateway
handle_disconnect client g = leave client (g.restaurant_by_socket client) g

-- The events as the sockets see them: a name, and fewer fields.
pub data Notice : Type 0 where
  confirmed_notice : (visit_id : Key) → Notice
  table_reassigned_notice : (visit_id previous_table_id new_table_id : Key) → Notice
  timing_recomputed_notice :
      (visit_id : Key) (kitchen_start_target food_out_target : Instant) → Notice
  kitchen_accepted_notice : (visit_id : Key) (accepted_at : Instant) → Notice
  allergy_acknowledged_notice : (visit_id : Key) (acknowledged_at : Instant) → Notice
  food_out_notice : (visit_id : Key) (served_at : Instant) → Notice
  new_inbound_notice : (visit_id : Key) → Notice
  eta_drift_notice : (visit_id : Key) (drift_minutes : ℤ) → Notice

-- The handlers `onVisitConfirmed` to `onEtaDriftAlert`: whom an event is for, and the notice.
abbrev pub notice_of : DomainEvent → Key × Notice
notice_of (visit_confirmed r v) = (r, confirmed_notice v)
notice_of (visit_table_reassigned r v old new staff) = (r, table_reassigned_notice v old new)
notice_of (visit_timing_recomputed r v start out previous reason) =
    (r, timing_recomputed_notice v start out)
notice_of (visit_kitchen_accepted r v at staff) = (r, kitchen_accepted_notice v at)
notice_of (visit_allergy_acknowledged r v at staff) = (r, allergy_acknowledged_notice v at)
notice_of (visit_food_out r v at staff) = (r, food_out_notice v at)
notice_of (new_inbound r v) = (r, new_inbound_notice v)
notice_of (eta_drift r v minutes) = (r, eta_drift_notice v minutes)

-- What is sent, and to which socket.
abbrev emit_to_restaurant : (Key → Bool) → Key → Notice → Gateway → List (Key × Notice)
emit_to_restaurant is_open r n g = map (λ s. (s, n)) (keep is_open (g.connections r))

unfoldable pub on_event : (Key → Bool) → DomainEvent → Gateway → List (Key × Notice)
on_event is_open e g = let (r, n) = notice_of e in emit_to_restaurant is_open r n g

abbrev pub no_sockets : Gateway
no_sockets = record { tickets = λ t. none; connections = λ r. []; restaurant_by_socket = λ s. none }
