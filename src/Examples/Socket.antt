-- ===== src/Examples/Socket.antt =====
-- apps/restaurant/src/lib/use-dashboard-socket.ts on a connection that fails once, lives, is lost, and
-- is refused in the end.
use raise.Prelude.{List, true, ◌*◌, ◌≡◌, refl, none, arith, ◌∷◌, some, []}
use raise.Dashboard.Socket.Endings.{Quiet, is_over, use_dashboard_socket-Quiet}
use raise.Dashboard.Socket.{
  use_dashboard_socket, Event, hear_all, answers, fires, closes, opens, receives, hear, connect,
  on_ticket, schedule_retry, on_open, on_close, backoff,
}
use raise.Dashboard.Socket.Ownership.{Owned, use_dashboard_socket-Owned}
use raise.Dashboard.Socket.Retries.{AllBetween, use_dashboard_socket-delays}

abbrev first_connection : List Event
first_connection =
    answers 3 none ∷ fires 0 ∷ answers 4 (some 77) ∷ opens 1 ∷ receives 1 5 ∷ closes 6 1 1006 ∷ []

abbrev refused_connection : List Event
refused_connection = answers 0 (some 78) ∷ closes 6 0 4403 ∷ []

first_connection-messages : (use_dashboard_socket true 10 first_connection).messages ≡ 5 ∷ []
unfolding use_dashboard_socket hear connect on_ticket schedule_retry on_open on_close backoff
first_connection-messages = refl

first_connection-timers : (use_dashboard_socket true 10 first_connection).timers ≡ (2, 16000) ∷ []
unfolding use_dashboard_socket hear connect on_ticket schedule_retry on_open on_close backoff
first_connection-timers = refl

use_dashboard_socket-Owned_example : Owned (use_dashboard_socket true 10 first_connection)
use_dashboard_socket-Owned_example = use_dashboard_socket-Owned true 10 first_connection

use_dashboard_socket-delays_example :
    AllBetween (1000 * 10) (60000 * 10) (use_dashboard_socket true 10 first_connection).timers
use_dashboard_socket-delays_example =
    use_dashboard_socket-delays true 10 first_connection
      (ground arith, (tt, (ground arith, (tt, (tt, (ground arith, tt))))))

refused_connection-is_over : is_over (use_dashboard_socket true 10 refused_connection) ≡ true
unfolding use_dashboard_socket hear connect on_ticket schedule_retry on_open on_close backoff
refused_connection-is_over = refl

use_dashboard_socket-Quiet_example :
    Quiet
      (use_dashboard_socket true 10 refused_connection)
      (hear_all true 10 first_connection (use_dashboard_socket true 10 refused_connection))
use_dashboard_socket-Quiet_example =
    use_dashboard_socket-Quiet true 10 refused_connection refused_connection-is_over
      first_connection
