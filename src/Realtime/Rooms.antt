-- ===== src/Realtime/Rooms.antt =====
-- Who is in a restaurant's room, and so who is told what.
use raise.Realtime.Tickets.{mint, TicketClaim, Tickets}
use raise.Schema.{
  Instant, DomainEvent, visit_confirmed, visit_table_reassigned, visit_timing_recomputed,
  visit_kitchen_accepted, visit_allergy_acknowledged, visit_food_out, new_inbound, eta_drift,
}
use raise.Prelude.{
  List, length, any, Option, Bool, ◌==◌, map, keep, ◌++◌, ◌≡◌, ◌∷◌, none, true, ◌≤◌, ◌&&◌, ◌||◌, [],
  ◌↔◌, Bool-cases, arith, some, inl, suc, inr, refl, not, leb, false, length-append,
}
use raise.Realtime.Gateway.{
  Notice, Gateway, has, no_sockets, add_socket, handle_connection, handle_disconnect,
  max_connections, delete_socket, on_event, is_allowed_origin, leave, join, consume_presented,
  notice_of,
}
use raise.Store.{Key, put}

pub eq_of_test : (x s : Key) → x == s ≡ true → x ≡ s
eq_of_test x s h = ground arith

has-append : (s : Key) (xs : List Key) (c : Key) → has s (xs ++ c ∷ []) ≡ has s xs || c == s
has-append s [] c = ground arith
has-append s (x ∷ xs) c = let ih = has-append s xs c in ground arith

keep-has : (p : Key → Bool) (s : Key) (xs : List Key) → has s (keep p xs) ≡ has s xs && p s
keep-has p s [] = refl
keep-has p s (x ∷ xs) =
    let ih = keep-has p s xs in
    elim (Bool-cases (x == s)) [
      | inl e ↦ let same = eq_of_test x s e in ground arith
      | inr e ↦ ground arith
    ]

pub has-add : (c s : Key) (xs : List Key) → has s (add_socket c xs) ≡ has s xs || c == s
has-add c s xs = elim (Bool-cases (has c xs)) [
  | inl e ↦ elim (Bool-cases (c == s)) [
    | inl f ↦ let same = eq_of_test c s f in ground arith
    | inr f ↦ ground arith
  ]
  | inr e ↦ let at_end = has-append s xs c in ground arith
]

length-keep : (p : Key → Bool) (xs : List Key) → length (keep p xs) ≤ length xs
length-keep p [] = omega arith
length-keep p (x ∷ xs) = let ih = length-keep p xs in ground arith

has-deliveries :
    (n : Notice) (s : Key) (xs : List Key)
    → any (λ (d : Key × Notice). d.0 == s) (map (λ x. (x, n)) xs) ≡ has s xs
has-deliveries n s [] = refl
has-deliveries n s (x ∷ xs) = let ih = has-deliveries n s xs in ground arith

-- The two maps of the gateway agree, and no room is over its cap.
pub record Tracked (g : Gateway) : Type 0 where
  pub members : (r s : Key) → (has s (g.connections r) ≡ true) ↔ (g.restaurant_by_socket s ≡ some r)
  pub few : (r : Key) → length (g.connections r) ≤ max_connections

-- What happens to a gateway: a new socket connects, a socket closes, a ticket is minted.
pub data Step (g : Gateway) : Gateway → Type 0 where
  connects :
      (configured : Option Key) (now : Instant) (client : Key) (origin ticket : Option Key)
      → g.restaurant_by_socket client ≡ none
      → Step g (handle_connection configured now client origin ticket g).1
  disconnects : (client : Key) → Step g (handle_disconnect client g)
  mints_ticket :
      (now : Instant) (ticket staff r : Key)
      → Step g (record g { tickets = mint now ticket staff r g.tickets })

pub data Reached : Gateway → Type 0 where
  opened : Reached no_sockets
  then_step : (g h : Gateway) → Reached g → Step g h → Reached h

module _ (client : Key) (g : Gateway) (t : Tracked g) where
  members_join :
      (claim r s : Key)
      → g.restaurant_by_socket client ≡ none
      → (has s (put g.connections claim (add_socket client (g.connections claim)) r) ≡ true)
        ↔ (put g.restaurant_by_socket client (some claim) s ≡ some r)
  members_join claim r s n = elim (Bool-cases (claim == r)) [
    | inl e ↦
        let here = t.members r s in
        let added = has-add client s (g.connections claim) in
        let same = eq_of_test claim r e in ground arith
    | inr e ↦ let here = t.members r s in ground arith
  ]

  members_leave :
      (room r s : Key)
      → g.restaurant_by_socket client ≡ some room
      → (has s (put g.connections room (delete_socket client (g.connections room)) r) ≡ true)
        ↔ (put g.restaurant_by_socket client none s ≡ some r)
  members_leave room r s n = elim (Bool-cases (room == r)) [
    | inl e ↦
        let here = t.members r s in
        let kept = keep-has (λ x. not (x == client)) s (g.connections room) in
        let same = eq_of_test room r e in ground arith
    | inr e ↦ let here = t.members r s in ground arith
  ]

length-add : (c : Key) (xs : List Key) → length (add_socket c xs) ≤ suc (length xs)
length-add c xs = let longer = length-append xs (c ∷ []) in ground arith

few_join :
    (client claim : Key) (f : Key → List Key)
    → leb max_connections (length (f claim)) ≡ false
    → ((r : Key) → length (f r) ≤ max_connections)
    → (r : Key) → length (put f claim (add_socket client (f claim)) r) ≤ max_connections
few_join client claim f room few r =
    let longer = length-add client (f claim) in let here = few r in ground arith

few_leave :
    (client room : Key) (f : Key → List Key)
    → ((r : Key) → length (f r) ≤ max_connections)
    → (r : Key) → length (put f room (delete_socket client (f room)) r) ≤ max_connections
few_leave client room f few r =
    let shorter = length-keep (λ x. not (x == client)) (f room) in
    let there = few room in let here = few r in ground arith

join-Tracked :
    (client : Key) (claim : Option TicketClaim) (g : Gateway)
    → g.restaurant_by_socket client ≡ none
    → Tracked g
    → Tracked (join client claim g).1
join-Tracked client none g n t = t
join-Tracked client (some claim) g n t =
    elim (Bool-cases (leb max_connections (length (g.connections claim.restaurant_id)))) [
      | inl e ↦ rw e t
      | inr e ↦ rw e record {
        members = λ r s. members_join client g t claim.restaurant_id r s n;
        few = few_join client claim.restaurant_id g.connections e t.few;
      }
    ]

leave-Tracked :
    (client : Key) (o : Option Key) (g : Gateway)
    → g.restaurant_by_socket client ≡ o
    → Tracked g
    → Tracked (leave client o g)
leave-Tracked client none g e t = t
leave-Tracked client (some r) g e t = record {
  members = λ q s. members_leave client g t r q s e;
  few = few_leave client r g.connections t.few;
}

with_tickets-Tracked :
    (tickets : Tickets) (g : Gateway) → Tracked g → Tracked (record g { tickets = tickets })
with_tickets-Tracked tickets g t = record { members = t.members; few = t.few }

Step-Tracked : (g h : Gateway) → Step g h → Tracked g → Tracked h
unfolding handle_connection handle_disconnect
Step-Tracked g _ (connects configured now client origin ticket n) t =
    elim (Bool-cases (is_allowed_origin configured origin)) [
      | inl e ↦ rw e (
          join-Tracked client (consume_presented now ticket g.tickets).0
            (record g { tickets = (consume_presented now ticket g.tickets).1 }) n
            (with_tickets-Tracked _ g t))
      | inr e ↦ rw e t
    ]
Step-Tracked g _ (disconnects client) t = leave-Tracked client _ g refl t
Step-Tracked g _ (mints_ticket now ticket staff r) t = with_tickets-Tracked _ g t

none_Tracked : Tracked no_sockets
none_Tracked = record { members = λ r s. ground arith; few = λ r. omega arith }

-- In every state that connections of new sockets, disconnections and new tickets lead to, a
-- restaurant's room holds exactly the sockets that are registered under it, and at most fifty of them.
Reached-Tracked : (g : Gateway) → Reached g → Tracked g
Reached-Tracked _ opened = none_Tracked
Reached-Tracked _ (then_step g h r s) = Step-Tracked g h s (Reached-Tracked g r)

-- The restaurant that a domain event carries, as `restaurantId`.
abbrev pub named_restaurant : DomainEvent → Key
named_restaurant (visit_confirmed restaurant_id v) = restaurant_id
named_restaurant (visit_table_reassigned restaurant_id v old new staff) = restaurant_id
named_restaurant (visit_timing_recomputed restaurant_id v start out previous reason) = restaurant_id
named_restaurant (visit_kitchen_accepted restaurant_id v at staff) = restaurant_id
named_restaurant (visit_allergy_acknowledged restaurant_id v at staff) = restaurant_id
named_restaurant (visit_food_out restaurant_id v at staff) = restaurant_id
named_restaurant (new_inbound restaurant_id v) = restaurant_id
named_restaurant (eta_drift restaurant_id v minutes) = restaurant_id

notice_of-room : (e : DomainEvent) → (notice_of e).0 ≡ named_restaurant e
notice_of-room (visit_confirmed r v) = refl
notice_of-room (visit_table_reassigned r v old new staff) = refl
notice_of-room (visit_timing_recomputed r v start out previous reason) = refl
notice_of-room (visit_kitchen_accepted r v at staff) = refl
notice_of-room (visit_allergy_acknowledged r v at staff) = refl
notice_of-room (visit_food_out r v at staff) = refl
notice_of-room (new_inbound r v) = refl
notice_of-room (eta_drift r v minutes) = refl

-- Tenants are kept apart: in every reachable state a domain event is sent to a socket exactly if the
-- socket is open and is registered under the restaurant that the event names.
pub on_event-recipients :
    (g : Gateway)
    → Reached g
    → (is_open : Key → Bool) (e : DomainEvent) (s : Key)
    → (any (λ (d : Key × Notice). d.0 == s) (on_event is_open e g) ≡ true)
      ↔ ((g.restaurant_by_socket s ≡ some (named_restaurant e)) × (is_open s ≡ true))
unfolding on_event
on_event-recipients g r is_open e s =
    let room = notice_of-room e in
    let here = (Reached-Tracked g r).members (notice_of e).0 s in
    let sent = has-deliveries (notice_of e).1 s (keep is_open (g.connections (notice_of e).0)) in
    let kept = keep-has is_open s (g.connections (notice_of e).0) in ground arith
