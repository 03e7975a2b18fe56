-- ===== src/Panel.antt =====
-- apps/customer/src/components/confirm-panel.tsx: how a guest verifies a phone and confirms the visit. A
-- text is a list of characters, and `trim` is the language's.
pub mod Steps
pub mod Boundary
use raise.Prelude.{
  if◌then◌else◌, List, Option, true, false, Bool, some, none, ◌∷◌, ◌&&◌, ℕ, ◌||◌, not, [],
}
use raise.Store.{Key}

abbrev pub Text : Type 0
Text = List Key

abbrev pub is_empty : Text → Bool
is_empty [] = true
is_empty (x ∷ xs) = false

-- The requests to the application's own routes; `book` carries its two headers.
pub data PanelRequest : Type 0 where
  send_code : (phone : Text) → PanelRequest
  verify : (phone code : Text) → PanelRequest
  book : (visit_id draft_token customer_token : Key) → PanelRequest

-- What a route answered: `res.ok` and the fields of the body; `token` is `none` for an empty one too.
pub record PanelReply : Type 0 where
  pub is_ok : Bool
  pub token : Option Key
  pub visit : Option Key
  pub message : Option Text

-- The state hooks of the component; after them its requests without an answer and `onConfirmed`, and
-- what was sent and learnt in the past.
pub record Panel : Type 0 where
  pub phone : Text
  pub otp_sent : Bool
  pub otp_code : Text
  pub customer_token : Option Key
  pub busy : Bool
  pub error : Option Text
  pub pending : List PanelRequest
  pub confirmed : Option Key
  pub sent : List PanelRequest
  -- the phones to which a code went, and the tokens that a verification brought, each with its phone
  pub texted : List Text
  pub verified : List (Text × Key)

-- What the parent passes in; `ready` is computed from the draft.
pub record PanelProps : Type 0 where
  pub visit_id : Key
  pub draft_token : Key
  pub party_size : Option ℕ
  pub arrival_eta : Option Key
  pub table_proposal : Option Key

abbrev is_there {ℓ} : {A : Type ℓ} → Option A → Bool
is_there none = false
is_there (some a) = true

abbrev pub ready : PanelProps → Bool
ready props =
    is_there props.party_size && is_there props.arrival_eta && is_there props.table_proposal

abbrev pub opened : Panel
opened = record {
  phone = [];
  otp_sent = false;
  otp_code = [];
  customer_token = none;
  busy = false;
  error = none;
  pending = [];
  confirmed = none;
  sent = [];
  texted = [];
  verified = [];
}

-- What the guest does with the controls that are shown, and what comes back from a request.
pub data PanelEvent : Type 0 where
  types_phone types_code : Text → PanelEvent
  submits : PanelEvent
  clicks_confirm : PanelProps → PanelEvent
  replies : PanelReply → PanelEvent
  throws : (message : Text) → PanelEvent

-- setBusy(true), setError(null), and the fetch
abbrev pub request : PanelRequest → Panel → Panel
request q p = record p { busy = true; error = none; pending = q ∷ p.pending; sent = q ∷ p.sent }

abbrev pub or_text : Option Text → Text → Text
or_text none t = t
or_text (some m) t = m

-- `finally` and `catch`
abbrev pub settled : Panel → Panel
settled p = record p { busy = false }

abbrev pub failed : Text → Panel → Panel
failed message p = record p { busy = false; error = some message }

abbrev pub token_of : Bool → Option Key → Option Key
token_of true token = token
token_of false token = none

abbrev pub on_confirmed : Option Key → Panel → Panel
on_confirmed none p = p
on_confirmed (some v) p = record p { confirmed = some v }

abbrev next_reply : (PanelRequest → Panel → Panel) → List PanelRequest → Panel → Panel
next_reply f [] p = p
next_reply f (q ∷ qs) p = f q (record p { pending = qs })

abbrev confirm_with : PanelProps → Option Key → Panel → Panel
confirm_with props none p = p
confirm_with props (some t) p = request (book props.visit_id props.draft_token t) p

-- The messages of the component itself.
module _ (trim : Text → Text) (couldnt_send no_match went_wrong : Text) where
  -- sendCode
  unfoldable pub send_code_pressed : Panel → Panel
  send_code_pressed p = if is_empty (trim p.phone) then p else request (send_code (trim p.phone)) p

  -- verifyCode
  unfoldable pub verify_code_pressed : Panel → Panel
  verify_code_pressed p =
      if is_empty (trim p.otp_code) then p else request (verify (trim p.phone) (trim p.otp_code)) p

  -- confirmBooking
  unfoldable pub confirm_booking : PanelProps → Panel → Panel
  confirm_booking props p = confirm_with props p.customer_token p

  unfoldable pub code_answered : Text → PanelReply → Panel → Panel
  code_answered phone reply p =
      if reply.is_ok
      then settled (record p { otp_sent = true; texted = phone ∷ p.texted })
      else failed couldnt_send p

  abbrev with_token : Text → PanelReply → Option Key → Panel → Panel
  with_token phone reply none p = failed (or_text reply.message no_match) p
  with_token phone reply (some t) p =
      settled (record p { customer_token = some t; verified = (phone, t) ∷ p.verified })

  unfoldable pub verify_answered : Text → PanelReply → Panel → Panel
  verify_answered phone reply p = with_token phone reply (token_of reply.is_ok reply.token) p

  unfoldable pub book_answered : PanelReply → Panel → Panel
  book_answered reply p =
      if reply.is_ok
      then settled (on_confirmed reply.visit p)
      else failed (or_text reply.message went_wrong) p

  abbrev pub answered : PanelReply → PanelRequest → Panel → Panel
  answered reply (send_code phone) p = code_answered phone reply p
  answered reply (verify phone code) p = verify_answered phone reply p
  answered reply (book v d t) p = book_answered reply p

  -- What the form does: the handler depends on the step.
  abbrev submit : Panel → Panel
  submit p = if p.otp_sent then verify_code_pressed p else send_code_pressed p

  -- What the rendered controls let the guest do, and what comes back.
  unfoldable pub act : PanelEvent → Panel → Panel
  act (types_phone t) p =
      if is_there p.customer_token || p.busy || p.otp_sent then p else record p { phone = t }
  act (types_code t) p =
      if is_there p.customer_token || p.busy || not p.otp_sent then p else record p { otp_code = t }
  act submits p = if is_there p.customer_token || p.busy then p else submit p
  act (clicks_confirm props) p = if not (ready props) || p.busy then p else confirm_booking props p
  act (replies reply) p = next_reply (answered reply) p.pending p
  act (throws message) p = next_reply (λ q r. failed message r) p.pending p

  abbrev pub act_all : List PanelEvent → Panel → Panel
  act_all [] p = p
  act_all (e ∷ es) p = act_all es (act e p)
