-- ===== src/Examples/Panel.antt =====
-- apps/customer/src/components/confirm-panel.tsx for a guest who mistypes the code once.
use raise.Store.{Key}
use raise.Panel.{
  Text, PanelProps, act, act_all, send_code_pressed, PanelEvent, types_phone, verify_code_pressed,
  opened, PanelReply, submits, confirm_booking, replies, code_answered, types_code, verify_answered,
  book_answered, clicks_confirm, book, verify, send_code,
}
use raise.Panel.Boundary.{Vouched, act_all-Vouched}
use raise.Prelude.{[], ◌∷◌, refl, List, Option, some, true, none, false, ◌≡◌}

abbrev props : PanelProps
props = record {
  visit_id = 10;
  draft_token = 900;
  party_size = some 2;
  arrival_eta = some 7;
  table_proposal = some 5;
}

abbrev accepted : Option Key → Option Key → PanelReply
accepted token visit = record { is_ok = true; token = token; visit = visit; message = none }

abbrev booking_session : List PanelEvent
booking_session =
    types_phone (5 ∷ 5 ∷ [])
    ∷ submits
    ∷ replies (accepted none none)
    ∷ types_phone (9 ∷ [])
    ∷ types_code (1 ∷ [])
    ∷ submits
    ∷ replies (record { is_ok = false; token = none; visit = none; message = none })
    ∷ types_code (2 ∷ [])
    ∷ submits
    ∷ replies (accepted (some 77) none)
    ∷ clicks_confirm props
    ∷ replies (accepted none (some 10))
    ∷ []

abbrev same_text : Text → Text
same_text t = t

booking_session-sent :
    (act_all same_text [] [] [] booking_session opened).sent
    ≡ book 10 900 77
      ∷ verify (5 ∷ 5 ∷ []) (2 ∷ [])
      ∷ verify (5 ∷ 5 ∷ []) (1 ∷ [])
      ∷ send_code (5 ∷ 5 ∷ [])
      ∷ []
unfolding act send_code_pressed verify_code_pressed confirm_booking code_answered verify_answered
    book_answered
booking_session-sent = refl

act_all-Vouched_example : Vouched same_text (act_all same_text [] [] [] booking_session opened)
act_all-Vouched_example = act_all-Vouched same_text [] [] [] booking_session
