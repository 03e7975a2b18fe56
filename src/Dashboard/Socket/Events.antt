-- ===== src/Dashboard/Socket/Events.antt =====
-- Every event keeps the live connection in one of its shapes.
use raise.Dashboard.Socket.Shapes.{
  Shape, waits, asks, connects, lives, rests, left, left_asking, left_closing, same_key,
  clear-empty, connect-Shape, retry-Shape, closed-Shape, gone-Shape,
}
use raise.Prelude.{
  Bool, ℕ, some, [], ◌∷◌, none, Bool-cases, inl, inr, ◌==◌, refl, arith, suc, ◌&&◌, List,
}
use raise.Dashboard.Socket.{
  Connection, connect, hear, on_ticket, reconnecting, on_open, schedule_retry, clean_up, Event,
  not_configured, fires, answers, opens, receives, fails, closes, is_opened, live, stopped, closing,
  opening, unmounts, opened, use_dashboard_socket, before, hear_all,
}

module _ (configured : Bool) (unit : ℕ) where
  pub hear-Shape : (c : Connection) → Shape c → (e : Event) → Shape (hear configured unit e c)
  unfolding hear on_ticket on_open schedule_retry clean_up
  hear-Shape _ (waits c t delay) (fires k) = elim (Bool-cases (t == k)) [
    | inl e ↦ rw e (connect-Shape configured unit (record c { timer = some t }))
    | inr e ↦ rw e (waits c t delay)
  ]
  hear-Shape _ (waits c t delay) (answers draw ticket) = waits c t delay
  hear-Shape _ (waits c t delay) (opens s) = waits c t delay
  hear-Shape _ (waits c t delay) (receives s raw) = waits c t delay
  hear-Shape _ (waits c t delay) (fails s) = waits c t delay
  hear-Shape _ (waits c t delay) (closes draw s code) = waits c t delay
  hear-Shape _ (waits c t delay) unmounts =
      rw (same_key t) (left (record c { status = reconnecting; timer = some t }))
  hear-Shape _ (asks c h) (answers draw none) = retry-Shape configured unit draw c
  hear-Shape _ (asks c h) (answers draw (some ticket)) =
      connects (record c { presented = ticket ∷ c.presented; next = suc c.next }) c.next opening h
        refl
  hear-Shape _ (asks c h) (fires k) = asks c h
  hear-Shape _ (asks c h) (opens s) = asks c h
  hear-Shape _ (asks c h) (receives s raw) = asks c h
  hear-Shape _ (asks c h) (fails s) = asks c h
  hear-Shape _ (asks c h) (closes draw s code) = asks c h
  hear-Shape _ (asks c h) unmounts = rw (clear-empty c.timer) (left_asking c)
  hear-Shape _ (rests c reason) (fires k) = rests c reason
  hear-Shape _ (rests c reason) (answers draw ticket) = rests c reason
  hear-Shape _ (rests c reason) (opens k) = rests c reason
  hear-Shape _ (rests c reason) (receives k raw) = rests c reason
  hear-Shape _ (rests c reason) (fails k) = rests c reason
  hear-Shape _ (rests c reason) (closes draw k code) = rests c reason
  hear-Shape _ (rests c reason) unmounts =
      rw (clear-empty c.timer) (left (record c { status = stopped reason }))
  hear-Shape _ (connects c s p h shut) (fires k) = connects c s p h shut
  hear-Shape _ (connects c s p h shut) (answers draw ticket) = connects c s p h shut
  hear-Shape _ (connects c s opening h shut) (opens k) = elim (Bool-cases (s == k)) [
    | inl e ↦ rw e (lives (record c { attempt = 0; resyncs = suc c.resyncs }) s opened refl)
    | inr e ↦ rw e (connects c s opening h shut)
  ]
  hear-Shape _ (connects c s opened h shut) (opens k) = absurd (ground arith)
  hear-Shape _ (connects c s closing h shut) (opens k) = elim (Bool-cases (s == k)) [
    | inl e ↦ rw e (connects c s closing h shut)
    | inr e ↦ rw e (connects c s closing h shut)
  ]
  hear-Shape _ (connects c s p h shut) (receives k raw) = elim (Bool-cases (s == k)) [
    | inl e ↦ rw e (rw shut (connects c s p h shut))
    | inr e ↦ rw e (connects c s p h shut)
  ]
  hear-Shape _ (connects c s p h shut) (fails k) = elim (Bool-cases (s == k)) [
    | inl e ↦ rw e (connects c s closing h refl)
    | inr e ↦ rw e (connects c s p h shut)
  ]
  hear-Shape _ (connects c s p h shut) (closes draw k code) = elim (Bool-cases (s == k)) [
    | inl e ↦ rw e (closed-Shape configured unit draw s k code c e)
    | inr e ↦ rw e (connects c s p h shut)
  ]
  hear-Shape _ (connects c s p h shut) unmounts =
      rw (clear-empty c.timer) (rw (same_key s) (left_closing c s))
  hear-Shape _ (lives c s p h) (fires k) = lives c s p h
  hear-Shape _ (lives c s p h) (answers draw ticket) = lives c s p h
  hear-Shape _ (lives c s p h) (opens k) = elim (Bool-cases (s == k)) [
    | inl e ↦ rw e (rw h (lives c s p h))
    | inr e ↦ rw e (lives c s p h)
  ]
  hear-Shape _ (lives c s p h) (receives k raw) = elim (Bool-cases (s == k && is_opened p)) [
    | inl e ↦ rw e (lives (record c { messages = raw ∷ c.messages }) s p h)
    | inr e ↦ rw e (lives c s p h)
  ]
  hear-Shape _ (lives c s p h) (fails k) = elim (Bool-cases (s == k)) [
    | inl e ↦ rw e (lives c s closing refl)
    | inr e ↦ rw e (lives c s p h)
  ]
  hear-Shape _ (lives c s p h) (closes draw k code) = elim (Bool-cases (s == k)) [
    | inl e ↦ rw e (closed-Shape configured unit draw s k code (record c { status = live }) e)
    | inr e ↦ rw e (lives c s p h)
  ]
  hear-Shape _ (lives c s p h) unmounts =
      rw (clear-empty c.timer) (rw (same_key s) (left_closing (record c { status = live }) s))
  hear-Shape _ (left c) (fires k) = left c
  hear-Shape _ (left c) (answers draw ticket) = left c
  hear-Shape _ (left c) (opens k) = left c
  hear-Shape _ (left c) (receives k raw) = left c
  hear-Shape _ (left c) (fails k) = left c
  hear-Shape _ (left c) (closes draw k code) = left c
  hear-Shape _ (left c) unmounts = left c
  hear-Shape _ (left_asking c) (answers draw none) = left c
  hear-Shape _ (left_asking c) (answers draw (some ticket)) = left c
  hear-Shape _ (left_asking c) (fires k) = left_asking c
  hear-Shape _ (left_asking c) (opens k) = left_asking c
  hear-Shape _ (left_asking c) (receives k raw) = left_asking c
  hear-Shape _ (left_asking c) (fails k) = left_asking c
  hear-Shape _ (left_asking c) (closes draw k code) = left_asking c
  hear-Shape _ (left_asking c) unmounts = left_asking c
  hear-Shape _ (left_closing c s) (fires k) = left_closing c s
  hear-Shape _ (left_closing c s) (answers draw ticket) = left_closing c s
  hear-Shape _ (left_closing c s) unmounts = left_closing c s
  hear-Shape _ (left_closing c s) (opens k) = elim (Bool-cases (s == k)) [
    | inl e ↦ rw e (left_closing c s)
    | inr e ↦ rw e (left_closing c s)
  ]
  hear-Shape _ (left_closing c s) (receives k raw) = elim (Bool-cases (s == k)) [
    | inl e ↦ rw e (left_closing c s)
    | inr e ↦ rw e (left_closing c s)
  ]
  hear-Shape _ (left_closing c s) (fails k) = elim (Bool-cases (s == k)) [
    | inl e ↦ rw e (left_closing c s)
    | inr e ↦ rw e (left_closing c s)
  ]
  hear-Shape _ (left_closing c s) (closes draw k code) = elim (Bool-cases (s == k)) [
    | inl e ↦ rw e (gone-Shape configured unit draw k code c)
    | inr e ↦ rw e (left_closing c s)
  ]

  hear_all-Shape :
      (c : Connection) → Shape c → (es : List Event) → Shape (hear_all configured unit es c)
  hear_all-Shape c s [] = s
  hear_all-Shape c s (e ∷ es) = hear_all-Shape (hear configured unit e c) (hear-Shape c s e) es

  pub use-Shape : (es : List Event) → Shape (use_dashboard_socket configured unit es)
  unfolding use_dashboard_socket connect
  use-Shape es =
      hear_all-Shape (connect configured unit before)
        (elim (Bool-cases configured) [
          | inl e ↦ rw e (asks (record before { asked = 1 }) refl)
          | inr e ↦ rw e (rests before not_configured)
        ])
        es
