-- ===== src/Dashboard/Socket/Ownership.antt =====
-- The live connection always has one owner: a timer, a ticket request or a socket.
use raise.Dashboard.Socket.Shapes.{
  Shape, waits, asks, connects, lives, rests, left, left_asking, left_closing,
}
use raise.Dashboard.Socket.Events.{use-Shape}
use raise.Store.{Key}
use raise.Prelude.{
  Bool, ℕ, false, some, [], ◌≡◌, true, refl, arith, ◌+◌, ◌&&◌, List, length, ◌≤◌, any,
}
use raise.Dashboard.Socket.{
  Connection, Event, SocketStatus, is_opened, live, stopped, use_dashboard_socket, named,
}

-- How much the page waits for.
abbrev waiting : Connection → ℕ
waiting c = length c.timers + c.requests + length c.sockets

abbrev pub is_stopped : SocketStatus → Bool
is_stopped (stopped reason) = true
is_stopped _ = false

-- The page waits for one thing at most, for one exactly while it is neither stopped nor unmounted, and
-- for none once it is stopped. A socket that is open and not being closed is the page's own, and the
-- page then says that it is live.
pub record Owned (c : Connection) : Type 0 where
  pub single : waiting c ≤ 1
  pub never_stuck : c.disposed ≡ false → is_stopped c.status ≡ false → waiting c ≡ 1
  pub at_rest : c.disposed ≡ false → is_stopped c.status ≡ true → waiting c ≡ 0
  pub honest :
      (s : Key)
      → any (λ x. named s x && is_opened x.1) c.sockets ≡ true
      → (c.status ≡ live) × (c.socket ≡ some s)
  pub no_timer_left : c.disposed ≡ true → c.timers ≡ []

Shape-Owned : (c : Connection) → Shape c → Owned c
Shape-Owned _ (waits c t delay) = record {
  single = ground arith;
  never_stuck = λ d n. refl;
  at_rest = λ d n. ground arith;
  honest = λ s h. ground arith;
  no_timer_left = λ d. ground arith;
}
Shape-Owned _ (asks c h) = record {
  single = ground arith;
  never_stuck = λ d n. ground arith;
  at_rest = λ d n. ground arith;
  honest = λ k h. ground arith;
  no_timer_left = λ d. ground arith;
}
Shape-Owned _ (connects c s p h shut) = record {
  single = ground arith;
  never_stuck = λ d n. ground arith;
  at_rest = λ d n. ground arith;
  honest = λ k h. ground arith;
  no_timer_left = λ d. ground arith;
}
Shape-Owned _ (lives c s p h) = record {
  single = ground arith;
  never_stuck = λ d n. ground arith;
  at_rest = λ d n. ground arith;
  honest = λ k h. ground arith;
  no_timer_left = λ d. ground arith;
}
Shape-Owned _ (rests c reason) = record {
  single = ground arith;
  never_stuck = λ d n. ground arith;
  at_rest = λ d n. ground arith;
  honest = λ k h. ground arith;
  no_timer_left = λ d. ground arith;
}
Shape-Owned _ (left c) = record {
  single = ground arith;
  never_stuck = λ d n. ground arith;
  at_rest = λ d n. ground arith;
  honest = λ k h. ground arith;
  no_timer_left = λ d. ground arith;
}
Shape-Owned _ (left_asking c) = record {
  single = ground arith;
  never_stuck = λ d n. ground arith;
  at_rest = λ d n. ground arith;
  honest = λ k h. ground arith;
  no_timer_left = λ d. ground arith;
}
Shape-Owned _ (left_closing c s) = record {
  single = ground arith;
  never_stuck = λ d n. ground arith;
  at_rest = λ d n. ground arith;
  honest = λ k h. ground arith;
  no_timer_left = λ d. ground arith;
}

-- Whatever the browser reports in whatever order, the live connection has one owner: one running timer,
-- one ticket request or one socket while it is neither stopped nor unmounted, none of them once it is
-- stopped, never more than one, and no timer after the page is left. A socket that is open and not being
-- closed is the one that the page holds, and the page then says that it is live.
pub use_dashboard_socket-Owned :
    (configured : Bool) (unit : ℕ) (es : List Event)
    → Owned (use_dashboard_socket configured unit es)
use_dashboard_socket-Owned configured unit es =
    Shape-Owned (use_dashboard_socket configured unit es) (use-Shape configured unit es)
