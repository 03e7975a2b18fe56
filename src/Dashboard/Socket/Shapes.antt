-- ===== src/Dashboard/Socket/Shapes.antt =====
-- What the live connection may be doing, and how the operations lead from one of these to another.
use raise.Store.{Key}
use raise.Prelude.{
  Bool, ℕ, false, some, [], ◌∷◌, none, Bool-cases, inl, inr, ◌==◌, ◌≡◌, true, refl, Option, arith,
  suc, ◌*◌, ◌+◌,
}
use raise.Dashboard.Socket.{
  Connection, connect, reconnecting, on_close, schedule_retry, not_configured, SocketStatus,
  connecting, Phase, is_opened, is_opening, live, StopReason, stopped, closing,
  close_origin_not_allowed, refused_origin, backoff, clear_timer,
}

abbrev is_trying : SocketStatus → Bool
is_trying connecting = true
is_trying reconnecting = true
is_trying _ = false

-- What the connection is doing.
pub data Shape : Connection → Type 0 where
  waits :
      (c : Connection) (t delay : ℕ)
      → Shape (record c {
        disposed = false;
        status = reconnecting;
        timer = some t;
        timers = (t, delay) ∷ [];
        requests = 0;
        sockets = [];
        socket = none;
      })
  asks :
      (c : Connection)
      → is_trying c.status ≡ true
      → Shape
          (record c { disposed = false; timers = []; requests = 1; sockets = []; socket = none })
  connects :
      (c : Connection) (s : Key) (p : Phase)
      → is_trying c.status ≡ true
      → is_opened p ≡ false
      → Shape (record c {
        disposed = false;
        timers = [];
        requests = 0;
        sockets = (s, p) ∷ [];
        socket = some s;
      })
  lives :
      (c : Connection) (s : Key) (p : Phase)
      → is_opening p ≡ false
      → Shape (record c {
        disposed = false;
        status = live;
        timers = [];
        requests = 0;
        sockets = (s, p) ∷ [];
        socket = some s;
      })
  rests :
      (c : Connection) (reason : StopReason)
      → Shape (record c {
        disposed = false;
        status = stopped reason;
        timers = [];
        requests = 0;
        sockets = [];
        socket = none;
      })
  -- disposed: nothing, a request whose answer is ignored, or a socket that closes
  left :
      (c : Connection)
      → Shape (record c { disposed = true; timers = []; requests = 0; sockets = []; socket = none })
  left_asking :
      (c : Connection)
      → Shape (record c { disposed = true; timers = []; requests = 1; sockets = []; socket = none })
  left_closing :
      (c : Connection) (s : Key)
      → Shape (record c {
        disposed = true;
        timers = [];
        requests = 0;
        sockets = (s, closing) ∷ [];
        socket = none;
      })

pub same_key : (k : Key) → k == k ≡ true
same_key k = ground arith

pub clear-empty : (t : Option Key) → clear_timer t [] ≡ []
clear-empty none = refl
clear-empty (some t) = refl

module _ (configured : Bool) (unit : ℕ) where
  pub connect-Shape :
      (c : Connection)
      → Shape (
          connect configured unit (record c {
            disposed = false;
            status = reconnecting;
            timers = [];
            requests = 0;
            sockets = [];
            socket = none;
          }))
  unfolding connect
  connect-Shape c = elim (Bool-cases configured) [
    | inl e ↦ rw e (asks (record c { status = reconnecting; asked = suc c.asked }) refl)
    | inr e ↦ rw e (rests c not_configured)
  ]

  pub retry-Shape :
      (draw : ℕ) (c : Connection)
      → Shape (
          schedule_retry configured unit draw
            (record c { disposed = false; timers = []; requests = 0; sockets = []; socket = none }))
  unfolding schedule_retry
  retry-Shape draw c =
      waits (record c { attempt = suc c.attempt; next = suc c.next }) c.next
        (backoff c.attempt * (unit + draw))

  pub closed-Shape :
      (draw s k code : ℕ) (c : Connection)
      → s == k ≡ true
      → Shape (
          on_close configured unit draw k code (record c {
            disposed = false;
            timers = [];
            requests = 0;
            sockets = [];
            socket = some s;
          }))
  unfolding on_close
  closed-Shape draw s k code c same = elim (Bool-cases (code == close_origin_not_allowed)) [
    | inl e ↦ rw same (rw e (rests c refused_origin))
    | inr e ↦ rw same (rw e (retry-Shape draw c))
  ]

  pub gone-Shape :
      (draw k code : ℕ) (c : Connection)
      → Shape (
          on_close configured unit draw k code
            (record c { disposed = true; timers = []; requests = 0; sockets = []; socket = none }))
  unfolding on_close
  gone-Shape draw k code c = left c
