-- ===== src/Dashboard/Socket.antt =====
-- apps/restaurant/src/lib/use-dashboard-socket.ts: how the dashboard keeps its live connection. The
-- locals of the effect are fields; so is what the page has asked of the browser and not yet heard
-- about. Timers and sockets are known by numbers.
use raise.Store.{Key}
use raise.Prelude.{
  ℕ, Bool, true, false, Option, none, some, List, [], ◌∷◌, ◌+◌, ◌*◌, ◌==◌, if◌then◌else◌, not, leb,
  any, keep, map, suc, ◌-◌, ◌&&◌, zero,
}
pub mod Shapes
pub mod Events
pub mod Ownership
pub mod Retries
pub mod Endings

pub data StopReason : Type 0 where
  not_configured refused_origin : StopReason

pub data SocketStatus : Type 0 where
  connecting live reconnecting : SocketStatus
  stopped : (reason : StopReason) → SocketStatus

-- A socket of the browser. The page hears of no opening and no message once it has closed it.
pub data Phase : Type 0 where
  opening opened closing : Phase

pub record Connection : Type 0 where
  pub status : SocketStatus
  pub disposed : Bool
  pub socket : Option Key
  pub timer : Option Key
  pub attempt : ℕ
  -- the timers that run, each with its delay; the ticket requests without an answer; the sockets whose
  -- close is not reported
  pub timers : List (Key × ℕ)
  pub requests : ℕ
  pub sockets : List (Key × Phase)
  pub next : Key
  -- how many tickets were asked for, the tickets presented, the calls of `onResync` and `onMessage`
  pub asked : ℕ
  pub presented : List Key
  pub resyncs : ℕ
  pub messages : List Key

-- CLOSE_ORIGIN_NOT_ALLOWED
abbrev pub close_origin_not_allowed : ℕ
close_origin_not_allowed = 4403

abbrev pub two_to : ℕ → ℕ
two_to zero = 1
two_to (suc n) = 2 * two_to n

-- Between BASE_RETRY_MS and MAX_RETRY_MS.
unfoldable pub backoff : ℕ → ℕ
backoff attempt = if leb (1000 * two_to attempt) 30000 then 1000 * two_to attempt else 30000

abbrev pub named {ℓ} : {A : Type ℓ} → Key → Key × A → Bool
named k x = x.0 == k

abbrev pub is_opening : Phase → Bool
is_opening opening = true
is_opening _ = false

abbrev pub is_opened : Phase → Bool
is_opened opened = true
is_opened _ = false

-- `close()`
abbrev close_socket : Key → List (Key × Phase) → List (Key × Phase)
close_socket s xs = map (λ x. if x.0 == s then (x.0, closing) else x) xs

-- What the page hears from the browser.
pub data Event : Type 0 where
  fires : (timer : Key) → Event
  answers : (draw : ℕ) (ticket : Option Key) → Event
  opens : (s : Key) → Event
  receives : (s raw : Key) → Event
  fails : (s : Key) → Event
  closes : (draw : ℕ) (s : Key) (code : ℕ) → Event
  unmounts : Event

unfoldable pub on_open : Connection → Connection
on_open c =
    if c.disposed then c else record c { attempt = 0; status = live; resyncs = suc c.resyncs }

abbrev pub forget : Key → Option Key → Option Key
forget s none = none
forget s (some t) = if t == s then none else some t

abbrev pub clear_timer : Option Key → List (Key × ℕ) → List (Key × ℕ)
clear_timer none xs = xs
clear_timer (some t) xs = keep (λ x. not (named t x)) xs

abbrev close_current : Option Key → List (Key × Phase) → List (Key × Phase)
close_current none xs = xs
close_current (some s) xs = close_socket s xs

-- the function that the effect returns
unfoldable pub clean_up : Connection → Connection
clean_up c = record c {
  disposed = true;
  timers = clear_timer c.timer c.timers;
  sockets = close_current c.socket c.sockets;
  socket = none;
}

-- the state of the effect before its first `connect`
abbrev pub before : Connection
before = record {
  status = connecting;
  disposed = false;
  socket = none;
  timer = none;
  attempt = 0;
  timers = [];
  requests = 0;
  sockets = [];
  next = 0;
  asked = 0;
  presented = [];
  resyncs = 0;
  messages = [];
}

-- `Math.random()` is `draw / unit`, and a delay is counted in parts of which `2 * unit` are one
-- millisecond. The address is configured or not.
module _ (configured : Bool) (unit : ℕ) where
  unfoldable pub schedule_retry : (draw : ℕ) → Connection → Connection
  schedule_retry draw c = if c.disposed then c else record c {
    attempt = suc c.attempt;
    status = reconnecting;
    timer = some c.next;
    timers = (c.next, backoff c.attempt * (unit + draw)) ∷ c.timers;
    next = suc c.next;
  }

  -- `connect`, up to its first `await`
  unfoldable pub connect : Connection → Connection
  connect c =
      if c.disposed
      then c
      else if configured
      then record c { requests = suc c.requests; asked = suc c.asked }
      else record c { status = stopped not_configured }

  -- the rest of `connect`; `none` is a failed request
  unfoldable pub on_ticket : (draw : ℕ) → Option Key → Connection → Connection
  on_ticket draw none c = schedule_retry draw c
  on_ticket draw (some ticket) c = if c.disposed then c else record c {
    socket = some c.next;
    sockets = (c.next, opening) ∷ c.sockets;
    presented = ticket ∷ c.presented;
    next = suc c.next;
  }

  unfoldable pub on_close : (draw : ℕ) (s : Key) (code : ℕ) → Connection → Connection
  on_close draw s code c =
      let c = record c { socket = forget s c.socket } in
      if c.disposed
      then c
      else if code == close_origin_not_allowed
      then record c { status = stopped refused_origin }
      else schedule_retry draw c

  -- An event that the browser has no occasion for changes nothing.
  unfoldable pub hear : Event → Connection → Connection
  hear (fires t) c =
      if any (named t) c.timers
      then connect (record c { timers = keep (λ x. not (named t x)) c.timers })
      else c
  hear (answers draw ticket) c =
      if c.requests == 0 then c else on_ticket draw ticket (record c { requests = c.requests - 1 })
  hear (opens s) c =
      if any (λ x. named s x && is_opening x.1) c.sockets
      then on_open
          (record c { sockets = map (λ x. if x.0 == s then (x.0, opened) else x) c.sockets })
      else c
  hear (receives s raw) c =
      if any (λ x. named s x && is_opened x.1) c.sockets
      then record c { messages = raw ∷ c.messages }
      else c
  hear (fails s) c = record c { sockets = close_socket s c.sockets }
  hear (closes draw s code) c =
      if any (named s) c.sockets
      then on_close draw s code (record c { sockets = keep (λ x. not (named s x)) c.sockets })
      else c
  hear unmounts c = if c.disposed then c else clean_up c

  abbrev pub hear_all : List Event → Connection → Connection
  hear_all [] c = c
  hear_all (e ∷ es) c = hear_all es (hear e c)

  unfoldable pub use_dashboard_socket : List Event → Connection
  use_dashboard_socket es = hear_all es (connect before)
