-- ===== src/Examples/Realtime.antt =====
-- Tickets and sockets of two restaurants at concrete moments.
use raise.Schema.{visit_confirmed}
use raise.Store.{Key}
use raise.Realtime.Admission.{Admitted, handle_connection-Admitted}
use raise.Realtime.Gateway.{
  handle_connection, CloseCode, Gateway, Notice, no_sockets, on_event, notice_of,
}
use raise.Realtime.Rooms.{
  on_event-recipients, Reached, then_step, opened, mints_ticket, connects, on_event-recipients,
}
use raise.Realtime.Tickets.{
  consume, mint, TicketCall, minting, run_calls, ticket_ttl_ms, consume_replay, consuming,
}
use raise.Prelude.{
  Option, ◌+ℤ◌, any, List, pos, some, leb_ℤ, ◌≡◌, ◌==◌, ◌∷◌, none, true, refl, [], ◌↔◌,
}

abbrev two_calls : List TicketCall
two_calls = minting (pos 1500) 8 31 2 ∷ consuming (pos 2000) 8 ∷ []

abbrev admission : Option CloseCode × Gateway
admission =
    handle_connection (some 4) (pos 1000) 70 (some 4) (some 7)
      (record no_sockets { tickets = mint (pos 900) 7 30 1 no_sockets.tickets })

connected_gateway : Reached admission.1
connected_gateway =
    then_step _ _ (then_step no_sockets _ opened (mints_ticket (pos 900) 7 30 1))
      (connects (some 4) (pos 1000) 70 (some 4) (some 7) refl)

admission_granted : admission ≡ (none, admission.1)
unfolding handle_connection mint consume ◌+ℤ◌
admission_granted = refl

consume_replay_example :
    (consume
      (pos 3000)
      7
      (run_calls two_calls (consume (pos 1000) 7 (mint (pos 900) 7 30 1 no_sockets.tickets)).1)).0
    ≡ none
consume_replay_example =
    consume_replay (mint (pos 900) 7 30 1 no_sockets.tickets) (pos 1000) (pos 3000) 7 two_calls refl

live_at_3000 : leb_ℤ (pos 3000) (pos 900 +ℤ ticket_ttl_ms) ≡ true
unfolding ◌+ℤ◌
live_at_3000 = refl

on_event-recipients_example :
    (any (λ (d : Key × Notice). d.0 == 70) (on_event (λ s. true) (visit_confirmed 1 10) admission.1)
      ≡ true)
    ↔ ((admission.1.restaurant_by_socket 70 ≡ some (notice_of (visit_confirmed 1 10)).0)
        × (true ≡ true))
on_event-recipients_example =
    on_event-recipients admission.1 connected_gateway (λ s. true) (visit_confirmed 1 10) 70

handle_connection-Admitted_example :
    Admitted
      (some 4)
      (pos 1000)
      70
      (some 4)
      (some 7)
      (record no_sockets { tickets = mint (pos 900) 7 30 1 no_sockets.tickets })
      admission.1
handle_connection-Admitted_example =
    handle_connection-Admitted (some 4) (pos 1000) 70 (some 4) (some 7)
      (record no_sockets { tickets = mint (pos 900) 7 30 1 no_sockets.tickets }) admission.1
      admission_granted
