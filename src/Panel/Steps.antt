-- ===== src/Panel/Steps.antt =====
-- The six steps of the panel, and what it may have asked for in each.
use mathlib.Core.List.{Memᴰ}
use mathlib.Core.List.Memᴰ.{head}
use raise.Store.{Key}
use raise.Prelude.{
  List, All, Bool, Option, ◌∷◌, true, false, [], none, some, ◌≡◌, arith, refl, Bool-cases, inl, inr,
  not, Option-cases, All-weaken,
}
use raise.Panel.{
  Text, act, Panel, PanelRequest, send_code_pressed, send_code, verify_code_pressed, verify,
  confirm_booking, book, code_answered, verify_answered, book_answered, PanelEvent, types_phone,
  types_code, is_empty, clicks_confirm, ready, replies, throws, act_all, settled, token_of,
  on_confirmed, or_text, submits,
}

-- What may have been asked while the phone is `phone`.
abbrev pub Allowed : Text → Bool → Option Key → PanelRequest → Type 0
Allowed phone otp_sent token (send_code p) = Unit {0}
Allowed phone otp_sent token (verify p code) = (p ≡ phone) × (otp_sent ≡ true)
Allowed phone otp_sent token (book v d t) = (token ≡ some t) × (otp_sent ≡ true)

retyped :
    (phone phone' : Text) (q : PanelRequest)
    → Allowed phone false none q
    → Allowed phone' false none q
retyped phone phone' (send_code p) a = tt
retyped phone phone' (verify p code) (e, h) = absurd (ground arith)
retyped phone phone' (book v d t) (e, h) = absurd (ground arith)

texted_Allowed :
    (phone : Text) (q : PanelRequest) → Allowed phone false none q → Allowed phone true none q
texted_Allowed phone (send_code p) a = tt
texted_Allowed phone (verify p code) (e, h) = absurd (ground arith)
texted_Allowed phone (book v d t) (e, h) = absurd (ground arith)

verified_Allowed :
    (phone : Text) (t : Key) (q : PanelRequest)
    → Allowed phone true none q
    → Allowed phone true (some t) q
verified_Allowed phone t (send_code p) a = tt
verified_Allowed phone t (verify p code) (e, h) = (e, refl)
verified_Allowed phone t (book v d u) (e, h) = absurd (ground arith)

module _ (trim : Text → Text) where
  -- What the panel is doing.
  pub data Shape : Panel → Type 0 where
    phone_step :
        (p : Panel)
        → All (Allowed (trim p.phone) false none) p.sent
        → Shape (record p { otp_sent = false; customer_token = none; busy = false; pending = [] })
    sending :
        (p : Panel)
        → All (Allowed (trim p.phone) false none) p.sent
        → Shape (record p {
          otp_sent = false;
          customer_token = none;
          busy = true;
          pending = send_code (trim p.phone) ∷ [];
        })
    code_step :
        (p : Panel)
        → All (Allowed (trim p.phone) true none) p.sent
        → Memᴰ (trim p.phone) p.texted
        → Shape (record p { otp_sent = true; customer_token = none; busy = false; pending = [] })
    verifying :
        (p : Panel) (code : Text)
        → All (Allowed (trim p.phone) true none) p.sent
        → Memᴰ (trim p.phone) p.texted
        → Shape (record p {
          otp_sent = true;
          customer_token = none;
          busy = true;
          pending = verify (trim p.phone) code ∷ [];
        })
    confirm_step :
        (p : Panel) (t : Key)
        → All (Allowed (trim p.phone) true (some t)) p.sent
        → Memᴰ (trim p.phone) p.texted
        → Memᴰ (trim p.phone, t) p.verified
        → Shape (record p { otp_sent = true; customer_token = some t; busy = false; pending = [] })
    confirming :
        (p : Panel) (v d t : Key)
        → All (Allowed (trim p.phone) true (some t)) p.sent
        → Memᴰ (trim p.phone) p.texted
        → Memᴰ (trim p.phone, t) p.verified
        → Shape (record p {
          otp_sent = true;
          customer_token = some t;
          busy = true;
          pending = book v d t ∷ [];
        })

  module _ (couldnt_send no_match went_wrong : Text) where
    booked-Shape :
        (p : Panel) (t : Key)
        → All (Allowed (trim p.phone) true (some t)) p.sent
        → Memᴰ (trim p.phone) p.texted
        → Memᴰ (trim p.phone, t) p.verified
        → (visit : Option Key)
        → Shape (
            settled (
              on_confirmed visit
                (record p { otp_sent = true; customer_token = some t; busy = true; pending = [] })))
    booked-Shape p t a m n none = confirm_step p t a m n
    booked-Shape p t a m n (some v) = confirm_step (record p { confirmed = some v }) t a m n

    act-Shape :
        (p : Panel)
        → Shape p
        → (e : PanelEvent) → Shape (act trim couldnt_send no_match went_wrong e p)
    unfolding act send_code_pressed verify_code_pressed confirm_booking code_answered
        verify_answered book_answered
    act-Shape _ (phone_step p a) (types_phone x) =
        phone_step (record p { phone = x })
          (All-weaken _ _ (retyped (trim p.phone) (trim x)) p.sent a)
    act-Shape _ (phone_step p a) (types_code x) = phone_step p a
    act-Shape _ (phone_step p a) submits = elim (Bool-cases (is_empty (trim p.phone))) [
      | inl e ↦ rw e (phone_step p a)
      | inr e ↦
          rw e
            (sending (record p { error = none; sent = send_code (trim p.phone) ∷ p.sent }) (tt, a))
    ]
    act-Shape _ (phone_step p a) (clicks_confirm props) = elim (Bool-cases (not (ready props))) [
      | inl e ↦ rw e (phone_step p a)
      | inr e ↦ rw e (phone_step p a)
    ]
    act-Shape _ (phone_step p a) (replies reply) = phone_step p a
    act-Shape _ (phone_step p a) (throws message) = phone_step p a
    act-Shape _ (sending p a) (types_phone x) = sending p a
    act-Shape _ (sending p a) (types_code x) = sending p a
    act-Shape _ (sending p a) submits = sending p a
    act-Shape _ (sending p a) (clicks_confirm props) = elim (Bool-cases (not (ready props))) [
      | inl e ↦ rw e (sending p a)
      | inr e ↦ rw e (sending p a)
    ]
    act-Shape _ (sending p a) (replies reply) = elim (Bool-cases reply.is_ok) [
      | inl e ↦ rw e (
          code_step (record p { texted = trim p.phone ∷ p.texted })
            (All-weaken _ _ (texted_Allowed (trim p.phone)) p.sent a) (head refl))
      | inr e ↦ rw e (phone_step (record p { error = some couldnt_send }) a)
    ]
    act-Shape _ (sending p a) (throws message) = phone_step (record p { error = some message }) a
    act-Shape _ (code_step p a m) (types_phone x) = code_step p a m
    act-Shape _ (code_step p a m) (types_code x) = code_step (record p { otp_code = x }) a m
    act-Shape _ (code_step p a m) submits = elim (Bool-cases (is_empty (trim p.otp_code))) [
      | inl e ↦ rw e (code_step p a m)
      | inr e ↦ rw e (
          verifying
            (record p { error = none; sent = verify (trim p.phone) (trim p.otp_code) ∷ p.sent })
            (trim p.otp_code) ((refl, refl), a) m)
    ]
    act-Shape _ (code_step p a m) (clicks_confirm props) = elim (Bool-cases (not (ready props))) [
      | inl e ↦ rw e (code_step p a m)
      | inr e ↦ rw e (code_step p a m)
    ]
    act-Shape _ (code_step p a m) (replies reply) = code_step p a m
    act-Shape _ (code_step p a m) (throws message) = code_step p a m
    act-Shape _ (verifying p code a m) (types_phone x) = verifying p code a m
    act-Shape _ (verifying p code a m) (types_code x) = verifying p code a m
    act-Shape _ (verifying p code a m) submits = verifying p code a m
    act-Shape _ (verifying p code a m) (clicks_confirm props) =
        elim (Bool-cases (not (ready props))) [
          | inl e ↦ rw e (verifying p code a m)
          | inr e ↦ rw e (verifying p code a m)
        ]
    act-Shape _ (verifying p code a m) (replies reply) =
        elim (Option-cases (token_of reply.is_ok reply.token)) [
          | inl e ↦
              rw e (code_step (record p { error = some (or_text reply.message no_match) }) a m)
          | inr (t, e) ↦ rw e (
              confirm_step (record p { verified = (trim p.phone, t) ∷ p.verified }) t
                (All-weaken _ _ (verified_Allowed (trim p.phone) t) p.sent a) m (head refl))
        ]
    act-Shape _ (verifying p code a m) (throws message) =
        code_step (record p { error = some message }) a m
    act-Shape _ (confirm_step p t a m n) (types_phone x) = confirm_step p t a m n
    act-Shape _ (confirm_step p t a m n) (types_code x) = confirm_step p t a m n
    act-Shape _ (confirm_step p t a m n) submits = confirm_step p t a m n
    act-Shape _ (confirm_step p t a m n) (clicks_confirm props) = elim (Bool-cases (ready props)) [
      | inl e ↦ rw e (
          confirming
            (record p { error = none; sent = book props.visit_id props.draft_token t ∷ p.sent })
            props.visit_id props.draft_token t ((refl, refl), a) m n)
      | inr e ↦ rw e (confirm_step p t a m n)
    ]
    act-Shape _ (confirm_step p t a m n) (replies reply) = confirm_step p t a m n
    act-Shape _ (confirm_step p t a m n) (throws message) = confirm_step p t a m n
    act-Shape _ (confirming p v d t a m n) (types_phone x) = confirming p v d t a m n
    act-Shape _ (confirming p v d t a m n) (types_code x) = confirming p v d t a m n
    act-Shape _ (confirming p v d t a m n) submits = confirming p v d t a m n
    act-Shape _ (confirming p v d t a m n) (clicks_confirm props) =
        elim (Bool-cases (ready props)) [
          | inl e ↦ rw e (confirming p v d t a m n)
          | inr e ↦ rw e (confirming p v d t a m n)
        ]
    act-Shape _ (confirming p v d t a m n) (replies reply) = elim (Bool-cases reply.is_ok) [
      | inl e ↦ rw e (booked-Shape p t a m n reply.visit)
      | inr e ↦
          rw e (confirm_step (record p { error = some (or_text reply.message went_wrong) }) t a m n)
    ]
    act-Shape _ (confirming p v d t a m n) (throws message) =
        confirm_step (record p { error = some message }) t a m n

    pub act_all-Shape :
        (p : Panel)
        → Shape p
        → (es : List PanelEvent) → Shape (act_all trim couldnt_send no_match went_wrong es p)
    act_all-Shape p s [] = s
    act_all-Shape p s (e ∷ es) =
        act_all-Shape (act trim couldnt_send no_match went_wrong e p) (act-Shape p s e) es
