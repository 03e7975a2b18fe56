-- ===== src/Chat.antt =====
-- apps/customer/src/components/intake-chat.tsx: the conversation of a guest, typed or spoken. The state
-- hooks are fields. A function that the page hands on keeps the visit and the token of its render, and
-- requests and recordings are answered in any order.
use raise.Prelude.{
  [], ◌∷◌, List, Option, none, some, Bool, true, false, ℕ, zero, suc, ◌||◌, ◌++◌, not,
  if◌then◌else◌,
}
use raise.Store.{Key}
use raise.Panel.{Text, is_empty}
pub mod Known
pub mod Events
pub mod Conversation

pub data Mode : Type 0 where
  text_mode voice_mode : Mode

pub data Payload : Type 0 where
  text_payload : Text → Payload
  voice_payload : (audio : Key) → Payload

pub record TurnRequest : Type 0 where
  pub visit_id : Key
  pub draft_token : Key
  pub payload : Payload

-- The body of an answer to `start` or `turn`; a draft and a line of the conversation are numbers.
pub record TurnResponse : Type 0 where
  pub visit_id : Key
  pub draft_token : Key
  pub draft : Key
  pub turns : List Key

-- What `submitTurn` of one render knows: the visit and its token, or that one of them is missing.
abbrev pub Creds : Type 0
Creds = Option (Key × Key)

pub record Chat : Type 0 where
  pub visit_id : Option Key
  pub draft_token : Option Key
  pub draft : Option Key
  pub turns : List Key
  pub mode : Mode
  pub text_value : Text
  pub busy : Bool
  pub error : Option Text
  pub recording : Bool
  -- `start` has no answer yet; the microphone was asked for; the recorder that runs; those that stopped
  -- and whose audio is not read yet; the turns without an answer
  pub starting : Bool
  pub asked : List Creds
  pub recorder : Option Creds
  pub stopped : List Creds
  pub pending : List TurnRequest
  -- all turns that were sent, and all answers, the last first
  pub sent : List TurnRequest
  pub responses : List TurnResponse

pub data ChatEvent : Type 0 where
  starts_with : TurnResponse → ChatEvent
  start_fails : Text → ChatEvent
  picks : Mode → ChatEvent
  types_text : Text → ChatEvent
  submits_text presses_record presses_stop : ChatEvent
  microphone_given microphone_denied : (which : ℕ) → ChatEvent
  audio_read : (which : ℕ) (audio : Key) → ChatEvent
  turn_answered : (which : ℕ) → TurnResponse → ChatEvent
  turn_fails : (which : ℕ) → Text → ChatEvent

abbrev pub creds_of : Option Key → Option Key → Creds
creds_of (some v) (some t) = some (v, t)
creds_of _ _ = none

abbrev pub beside {ℓ} : {A : Type ℓ} → A → Option (A × List A) → Option (A × List A)
beside x none = none
beside x (some (y, ys)) = some (y, x ∷ ys)

-- One of the things that the page waits for, and the others.
abbrev pub take_out {ℓ} : {A : Type ℓ} → ℕ → List A → Option (A × List A)
take_out n [] = none
take_out zero (x ∷ xs) = some (x, xs)
take_out (suc n) (x ∷ xs) = beside x (take_out n xs)

abbrev with_taken {ℓ} :
    {A : Type ℓ} → (A → List A → Chat → Chat) → Option (A × List A) → Chat → Chat
with_taken f none c = c
with_taken f (some (x, xs)) c = f x xs c

abbrev pub is_voice : Mode → Bool
is_voice text_mode = false
is_voice voice_mode = true

abbrev turn_request : Key → Key → Payload → TurnRequest
turn_request v t payload = record { visit_id = v; draft_token = t; payload = payload }

-- submitTurn
unfoldable pub submit_turn : Payload → Creds → Chat → Chat
submit_turn payload none c = c
submit_turn payload (some (v, t)) c = record c {
  busy = true;
  error = none;
  pending = turn_request v t payload ∷ c.pending;
  sent = turn_request v t payload ∷ c.sent;
}

abbrev pub started : TurnResponse → Chat → Chat
started r c = record c {
  starting = false;
  visit_id = some r.visit_id;
  draft_token = some r.draft_token;
  draft = some r.draft;
  turns = r.turns;
  responses = r ∷ c.responses;
  busy = false;
}

abbrev pub failed : Text → Chat → Chat
failed message c = record c { error = some message; busy = false }

abbrev pub turn_done : TurnResponse → TurnRequest → List TurnRequest → Chat → Chat
turn_done r q rest c = record c {
  pending = rest;
  draft_token = some r.draft_token;
  draft = some r.draft;
  turns = c.turns ++ r.turns;
  responses = r ∷ c.responses;
  busy = false;
}

abbrev pub stop_recorder : Option Creds → Chat → Chat
stop_recorder none c = record c { recording = false }
stop_recorder (some k) c = record c { stopped = k ∷ c.stopped; recording = false }

module _ (trim : Text → Text) (no_microphone : Text) where
  -- handleTextSubmit
  unfoldable pub handle_text_submit : Chat → Chat
  handle_text_submit c =
      if is_empty (trim c.text_value)
      then c
      else submit_turn (text_payload (trim c.text_value)) (creds_of c.visit_id c.draft_token)
          (record c { text_value = [] })

  -- What the shown controls allow, and what the page hears.
  unfoldable pub chat : ChatEvent → Chat → Chat
  chat (starts_with r) c = if c.starting then started r c else c
  chat (start_fails message) c =
      if c.starting then failed message (record c { starting = false }) else c
  chat (picks m) c = record c { mode = m }
  chat (types_text t) c = if is_voice c.mode || c.busy then c else record c { text_value = t }
  chat submits_text c = if is_voice c.mode || c.busy then c else handle_text_submit c
  chat presses_record c =
      if not (is_voice c.mode) || c.busy || c.recording
      then c
      else record c { asked = creds_of c.visit_id c.draft_token ∷ c.asked }
  chat presses_stop c =
      if not (is_voice c.mode) || c.busy || not c.recording then c else stop_recorder c.recorder c
  chat (microphone_given i) c =
      with_taken (λ k rest d. record d { asked = rest; recorder = some k; recording = true })
        (take_out i c.asked) c
  chat (microphone_denied i) c =
      with_taken (λ k rest d. record d { asked = rest; error = some no_microphone })
        (take_out i c.asked) c
  chat (audio_read i audio) c =
      with_taken (λ k rest d. submit_turn (voice_payload audio) k (record d { stopped = rest }))
        (take_out i c.stopped) c
  chat (turn_answered i r) c = with_taken (turn_done r) (take_out i c.pending) c
  chat (turn_fails i message) c =
      with_taken (λ q rest d. failed message (record d { pending = rest })) (take_out i c.pending) c

  abbrev pub chat_all : List ChatEvent → Chat → Chat
  chat_all [] c = c
  chat_all (e ∷ es) c = chat_all es (chat e c)

-- The page when its effect has asked for the start.
abbrev pub mounted : Chat
mounted = record {
  visit_id = none;
  draft_token = none;
  draft = none;
  turns = [];
  mode = text_mode;
  text_value = [];
  busy = true;
  error = none;
  recording = false;
  starting = true;
  asked = [];
  recorder = none;
  stopped = [];
  pending = [];
  sent = [];
  responses = [];
}
