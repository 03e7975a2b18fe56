-- ===== src/Dashboard/Socket/Retries.antt =====
-- How long the page waits before it tries again.
use raise.Store.{Key}
use raise.Prelude.{
  List, Bool-cases, leb, ◌∷◌, ◌<◌, ◌*◌, arith, [], inl, inr, zero, Bool, ◌+◌, keep, some, none, any,
  if◌then◌else◌, Option, true, false, ◌==◌, ◌-◌, ◌&&◌, not, All,
}
use raise.Dashboard.Socket.{
  backoff, Event, answers, two_to, closes, schedule_retry, hear, Connection, connect, on_ticket,
  on_open, on_close, clean_up, fires, opens, receives, fails, unmounts, use_dashboard_socket,
  hear_all, before, clear_timer, named, is_opening, is_opened, close_origin_not_allowed, forget,
}
use Prim.Native.Nat.{ℕ, ◌≤◌, suc}
use native.Mathlib.Nat.{mul-le-mul_right}

abbrev pub Between : ℕ → ℕ → ℕ → Type 0
Between low high d = (low ≤ d) × (d ≤ high)

abbrev pub AllBetween : ℕ → ℕ → List (Key × ℕ) → Type 0
AllBetween low high = All λ x. Between low high x.1

-- `Math.random()` is below one.
abbrev pub IsDraw : ℕ → Event → Type 0
IsDraw unit (answers draw ticket) = draw < unit
IsDraw unit (closes draw s code) = draw < unit
IsDraw unit _ = Unit {0}

abbrev pub AreDraws : ℕ → List Event → Type 0
AreDraws unit = All (IsDraw unit)

two_to_pos : (n : ℕ) → 1 ≤ two_to n
two_to_pos zero = omega arith
two_to_pos (suc n) = let ih = two_to_pos n in omega arith

backoff-bounds : (n : ℕ) → Between 1000 30000 (backoff n)
unfolding backoff
backoff-bounds n =
    let positive = two_to_pos n in
    elim (Bool-cases (leb (1000 * two_to n) 30000)) [
      | inl e ↦ rw e (omega arith, ground arith)
      | inr e ↦ rw e (omega arith, omega arith)
    ]

delay-bounds :
    (unit draw n : ℕ)
    → draw < unit
    → Between (1000 * unit) (60000 * unit) (backoff n * (unit + draw))
delay-bounds unit draw n h =
    let low = mul-le-mul_right (unit + draw) (backoff-bounds n).0 in
    let high = mul-le-mul_right (unit + draw) (backoff-bounds n).1 in (omega arith, omega arith)

AllBetween-keep :
    (low high : ℕ) (p : Key × ℕ → Bool) (xs : List (Key × ℕ))
    → AllBetween low high xs
    → AllBetween low high (keep p xs)
AllBetween-keep low high p [] a = tt
AllBetween-keep low high p (x ∷ xs) (b, a) = elim (Bool-cases (p x)) [
  | inl e ↦ rw e (b, AllBetween-keep low high p xs a)
  | inr e ↦ rw e (AllBetween-keep low high p xs a)
]

module _ (configured : Bool) (unit : ℕ) where
  abbrev Spaced : Connection → Type 0
  Spaced c = AllBetween (1000 * unit) (60000 * unit) c.timers

  either-Spaced : (b : Bool) (x y : Connection) → Spaced x → Spaced y → Spaced (if b then x else y)
  either-Spaced true x y p q = p
  either-Spaced false x y p q = q

  cleared :
      (t : Option Key) (xs : List (Key × ℕ))
      → AllBetween (1000 * unit) (60000 * unit) xs
      → AllBetween (1000 * unit) (60000 * unit) (clear_timer t xs)
  cleared none xs a = a
  cleared (some t) xs a = AllBetween-keep (1000 * unit) (60000 * unit) _ xs a

  retry-Spaced :
      (draw : ℕ) (c : Connection)
      → draw < unit
      → Spaced c
      → Spaced (schedule_retry configured unit draw c)
  unfolding schedule_retry
  retry-Spaced draw c h a = elim (Bool-cases c.disposed) [
    | inl e ↦ rw e a
    | inr e ↦ rw e (delay-bounds unit draw c.attempt h, a)
  ]

  connect-Spaced : (c : Connection) → Spaced c → Spaced (connect configured unit c)
  unfolding connect
  connect-Spaced c a = elim (Bool-cases c.disposed) [
    | inl e ↦ rw e a
    | inr e ↦ elim (Bool-cases configured) [ inl f ↦ rw e (rw f a) | inr f ↦ rw e (rw f a) ]
  ]

  hear-Spaced :
      (c : Connection) (e : Event) → IsDraw unit e → Spaced c → Spaced (hear configured unit e c)
  unfolding hear on_ticket on_open on_close clean_up
  hear-Spaced c (fires k) d a =
      either-Spaced (any (named k) c.timers) _ c
        (connect-Spaced _ (AllBetween-keep (1000 * unit) (60000 * unit) _ c.timers a)) a
  hear-Spaced c (answers draw none) d a =
      either-Spaced (c.requests == 0) c _ a
        (retry-Spaced draw (record c { requests = c.requests - 1 }) d a)
  hear-Spaced c (answers draw (some ticket)) d a =
      either-Spaced (c.requests == 0) c _ a (either-Spaced c.disposed _ _ a a)
  hear-Spaced c (opens k) d a =
      either-Spaced (any (λ x. named k x && is_opening x.1) c.sockets) _ c
        (either-Spaced c.disposed _ _ a a) a
  hear-Spaced c (receives k raw) d a =
      either-Spaced (any (λ x. named k x && is_opened x.1) c.sockets) _ c a a
  hear-Spaced c (fails k) d a = a
  hear-Spaced c (closes draw k code) d a =
      either-Spaced (any (named k) c.sockets) _ c
        (either-Spaced c.disposed _ _ a (
          either-Spaced (code == close_origin_not_allowed) _ _ a (
            retry-Spaced draw
              (record c {
                sockets = keep (λ x. not (named k x)) c.sockets;
                socket = forget k c.socket;
              })
              d a)))
        a
  hear-Spaced c unmounts d a = either-Spaced c.disposed c _ a (cleared c.timer c.timers a)

  hear_all-Spaced :
      (c : Connection) (es : List Event)
      → AreDraws unit es
      → Spaced c
      → Spaced (hear_all configured unit es c)
  hear_all-Spaced c [] d a = a
  hear_all-Spaced c (e ∷ es) (d, ds) a =
      hear_all-Spaced (hear configured unit e c) es ds (hear-Spaced c e d a)

-- Every retry that is scheduled, whatever the browser reports and however often the connection has
-- failed before, is between half a second and thirty seconds away, if the random numbers are below one.
pub use_dashboard_socket-delays :
    (configured : Bool) (unit : ℕ) (es : List Event)
    → AreDraws unit es
    → AllBetween (1000 * unit) (60000 * unit) (use_dashboard_socket configured unit es).timers
unfolding use_dashboard_socket
use_dashboard_socket-delays configured unit es d =
    hear_all-Spaced configured unit (connect configured unit before) es d
      (connect-Spaced configured unit before tt)
