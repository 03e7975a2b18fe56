-- ===== src/Dashboard/Socket/Endings.antt =====
-- A connection that was stopped, or whose page was left, stays so.
use raise.Dashboard.Socket.{
  Connection, hear, on_ticket, Event, on_open, hear_all, use_dashboard_socket, on_close,
  schedule_retry, clean_up, fires, answers, opens, receives, fails, closes, unmounts,
}
use raise.Prelude.{
  Bool, ◌||◌, ℕ, ◌∙◌, ◌≡◌, List, true, refl, ◌∷◌, arith, some, Bool-cases, ◌==◌, inl, inr, none, [],
}
use raise.Dashboard.Socket.Shapes.{
  Shape, waits, asks, connects, lives, rests, left, left_asking, left_closing,
}
use raise.Dashboard.Socket.Events.{use-Shape, hear-Shape}
use raise.Dashboard.Socket.Ownership.{is_stopped}

abbrev pub is_over : Connection → Bool
is_over c = c.disposed || is_stopped c.status

-- Nothing that the page shows, asks for, presents or hands on is different.
pub record Quiet (c c' : Connection) : Type 0 where
  pub over : is_over c' ≡ true
  pub status : c'.status ≡ c.status
  pub asked : c'.asked ≡ c.asked
  pub presented : c'.presented ≡ c.presented
  pub resyncs : c'.resyncs ≡ c.resyncs
  pub messages : c'.messages ≡ c.messages

Quiet-same : (c : Connection) → is_over c ≡ true → Quiet c c
Quiet-same c h = record {
  over = h;
  status = refl;
  asked = refl;
  presented = refl;
  resyncs = refl;
  messages = refl;
}

Quiet-trans : (a b c : Connection) → Quiet a b → Quiet b c → Quiet a c
Quiet-trans a b c q r = record {
  over = r.over;
  status = r.status ∙ q.status;
  asked = r.asked ∙ q.asked;
  presented = r.presented ∙ q.presented;
  resyncs = r.resyncs ∙ q.resyncs;
  messages = r.messages ∙ q.messages;
}

module _ (configured : Bool) (unit : ℕ) where
  hear-Quiet :
      (c : Connection)
      → Shape c
      → is_over c ≡ true
      → (e : Event) → Quiet c (hear configured unit e c)
  unfolding hear on_ticket on_open on_close schedule_retry clean_up
  hear-Quiet _ (waits c t delay) o e = absurd (ground arith)
  hear-Quiet _ (asks c h) o e = absurd (ground arith)
  hear-Quiet _ (connects c s p h shut) o e = absurd (ground arith)
  hear-Quiet _ (lives c s p h) o e = absurd (ground arith)
  hear-Quiet _ (rests c reason) o (fires k) = Quiet-same _ o
  hear-Quiet _ (rests c reason) o (answers draw ticket) = Quiet-same _ o
  hear-Quiet _ (rests c reason) o (opens k) = Quiet-same _ o
  hear-Quiet _ (rests c reason) o (receives k raw) = Quiet-same _ o
  hear-Quiet _ (rests c reason) o (fails k) = Quiet-same _ o
  hear-Quiet _ (rests c reason) o (closes draw k code) = Quiet-same _ o
  hear-Quiet _ (rests c reason) o unmounts = record {
    over = refl;
    status = refl;
    asked = refl;
    presented = refl;
    resyncs = refl;
    messages = refl;
  }
  hear-Quiet _ (left c) o (fires k) = Quiet-same _ o
  hear-Quiet _ (left c) o (answers draw ticket) = Quiet-same _ o
  hear-Quiet _ (left c) o (opens k) = Quiet-same _ o
  hear-Quiet _ (left c) o (receives k raw) = Quiet-same _ o
  hear-Quiet _ (left c) o (fails k) = Quiet-same _ o
  hear-Quiet _ (left c) o (closes draw k code) = Quiet-same _ o
  hear-Quiet _ (left c) o unmounts = Quiet-same _ o
  hear-Quiet _ (left_asking c) o (fires k) = Quiet-same _ o
  hear-Quiet _ (left_asking c) o (answers draw none) = record {
    over = refl;
    status = refl;
    asked = refl;
    presented = refl;
    resyncs = refl;
    messages = refl;
  }
  hear-Quiet _ (left_asking c) o (answers draw (some ticket)) = record {
    over = refl;
    status = refl;
    asked = refl;
    presented = refl;
    resyncs = refl;
    messages = refl;
  }
  hear-Quiet _ (left_asking c) o (opens k) = Quiet-same _ o
  hear-Quiet _ (left_asking c) o (receives k raw) = Quiet-same _ o
  hear-Quiet _ (left_asking c) o (fails k) = Quiet-same _ o
  hear-Quiet _ (left_asking c) o (closes draw k code) = Quiet-same _ o
  hear-Quiet _ (left_asking c) o unmounts = Quiet-same _ o
  hear-Quiet _ (left_closing c s) o (fires k) = Quiet-same _ o
  hear-Quiet _ (left_closing c s) o (answers draw ticket) = Quiet-same _ o
  hear-Quiet _ (left_closing c s) o (opens k) = elim (Bool-cases (s == k)) [
    | inl e ↦ rw e (Quiet-same _ o)
    | inr e ↦ rw e (Quiet-same _ o)
  ]
  hear-Quiet _ (left_closing c s) o (receives k raw) = elim (Bool-cases (s == k)) [
    | inl e ↦ rw e (Quiet-same _ o)
    | inr e ↦ rw e (Quiet-same _ o)
  ]
  hear-Quiet _ (left_closing c s) o (fails k) = record {
    over = refl;
    status = refl;
    asked = refl;
    presented = refl;
    resyncs = refl;
    messages = refl;
  }
  hear-Quiet _ (left_closing c s) o (closes draw k code) = elim (Bool-cases (s == k)) [
    | inl e ↦ rw e record {
      over = refl;
      status = refl;
      asked = refl;
      presented = refl;
      resyncs = refl;
      messages = refl;
    }
    | inr e ↦ rw e (Quiet-same _ o)
  ]
  hear-Quiet _ (left_closing c s) o unmounts = Quiet-same _ o

  hear_all-Quiet :
      (c : Connection)
      → Shape c
      → is_over c ≡ true
      → (es : List Event) → Quiet c (hear_all configured unit es c)
  hear_all-Quiet c s o [] = Quiet-same c o
  hear_all-Quiet c s o (e ∷ es) =
      let q = hear-Quiet c s o e in
      Quiet-trans c (hear configured unit e c) _ q
        (hear_all-Quiet (hear configured unit e c) (hear-Shape configured unit c s e) q.over es)

-- Once the connection is stopped or its page is left, whatever the browser still reports, in whatever
-- order, the page asks for no further ticket, presents none, hands on no message, asks for no resync
-- and shows the same status for good.
pub use_dashboard_socket-Quiet :
    (configured : Bool) (unit : ℕ) (es : List Event)
    → is_over (use_dashboard_socket configured unit es) ≡ true
    → (later : List Event)
    → Quiet
        (use_dashboard_socket configured unit es)
        (hear_all configured unit later (use_dashboard_socket configured unit es))
use_dashboard_socket-Quiet configured unit es o later =
    hear_all-Quiet configured unit _ (use-Shape configured unit es) o later
