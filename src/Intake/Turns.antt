-- ===== src/Intake/Turns.antt =====
-- apps/api/src/intake/intake.service.ts and draft-policy.ts: the three routes of the conversation.
-- Each transaction of a request is a step, and what other requests commit before it is a parameter.
use raise.Intake.Registry.{Schemas, execute_tool}
use raise.World.{
  World, M, Result, ok, update_visits, err, ◌>>=◌, for_restaurant, internal_error, pure, ◌>>◌,
  or_throw, not_found, elsewhere,
}
use raise.Intake.Tools.{ToolExecutionContext, TableProposalDto}
use raise.Visits.{VisitWithItemsAndTable, get_visit_or_throw, VisitItemDto, with_items_and_table}
use raise.Schema.{
  Instant, ConversationTurn, Number, ConversationRole, Visit, draft, finite, not_finite,
}
use raise.Intake.Dialogue.{
  VisitDraftDto, DialogueEngine, DialogueTurnOutput, DialogueHistoryTurn, DialogueTurnInput,
  to_visit_draft_dto,
}
use raise.Store.{Client, Key, Rows}
pub mod Heeded
pub mod Transcript
pub mod Windows
use Prim.Native.String.{◌++◌ as str_append}
use raise.Prelude.{
  String, [], ◌∷◌, none, some, Option, Bool, ℕ, List, ℤ, pos, ◌+ℤ◌, false, if◌then◌else◌, map, keep,
  ltb_ℤ, ◌==◌, true, ◌&&◌, ◌++◌, ◌||◌,
}

pub data IntakeTurnRequest (Audio : Type 0) : Type 0 where
  text_turn : String → IntakeTurnRequest Audio
  voice_turn : Audio → IntakeTurnRequest Audio

pub record AsrTranscriptionResult : Type 0 where
  pub transcript : String
  pub low_confidence : Bool

-- The transactions of a request that follow another wait of it.
pub data Wait : Type 0 where
  before_customer_turn before_history before_engine before_answer before_refresh before_reread :
      Wait
  before_turns before_draft before_greeting : Wait

-- What the service is built from: the engine, the schemas of its tools and their context, the speech
-- provider, the signer of draft tokens, the database's identifiers and its `ORDER BY "createdAt"`,
-- what others commit at each wait, and three functions on texts and numbers of the language's library.
pub record IntakeDeps (Raw Audio : Type 0) : Type 0 where
  pub engine : DialogueEngine Raw
  pub schemas : Schemas Raw
  pub tools : ToolExecutionContext
  pub transcribe : Audio → Result AsrTranscriptionResult
  pub sign : Key → Key → Key
  pub new_visit_id : World → Key
  pub new_turn_id : World → Key
  pub order_turns : List ConversationTurn → List ConversationTurn
  pub meanwhile : Wait → World → World
  pub inactivity_override : Option Number
  pub trims_to_nothing : String → Bool
  pub show_number : ℕ → String

pub record IntakeTurnResponse : Type 0 where
  pub visit : VisitDraftDto
  pub turns : List ConversationTurn
  pub assistant_message : String
  pub reengaged : Bool
  pub draft_token : Key

pub record IntakeState : Type 0 where
  pub visit : VisitDraftDto
  pub turns : List ConversationTurn

-- `readMsOverride`: the environment variable as a number, if it is set and not empty.
abbrev read_ms_override : Option Number → ℤ → ℤ
read_ms_override none default_ms = default_ms
read_ms_override (some not_finite) default_ms = default_ms
read_ms_override (some (finite ms)) default_ms = if ltb_ℤ (pos 0) ms then ms else default_ms

abbrev default_draft_inactivity_window_ms : ℤ
default_draft_inactivity_window_ms = pos 900000

abbrev greeting : String
greeting =
    "Hi! Thanks for reaching out — how many will be joining you, and about when are you thinking of arriving?"

abbrev pub out_of_scope_asr_error : String
out_of_scope_asr_error =
    "Having trouble hearing you right now — you can keep going by typing instead."

abbrev pub llm_unavailable_message : String
llm_unavailable_message = "Sorry, having some trouble right now — could you try again in a moment?"

abbrev pub did_not_catch : String
did_not_catch = "Sorry, I didn't quite catch that — could you say that again, or type it instead?"

-- `items.map(…).join(', ')`
abbrev join_lines : List String → String
join_lines [] = ""
join_lines (s ∷ []) = s
join_lines (s ∷ t ∷ ts) = str_append s (str_append ", " (join_lines (t ∷ ts)))

module _ (show_number : ℕ → String) where
  abbrev item_text : VisitItemDto → String
  item_text i = str_append (show_number i.quantity) (str_append "x " i.name)

  abbrev items_text : List VisitItemDto → String
  items_text [] = "nothing yet"
  items_text (i ∷ is) = join_lines (map item_text (i ∷ is))

  -- A party of none is spoken of as one that is not set.
  abbrev party_text : Option ℕ → String
  party_text none = "your party size not set yet"
  party_text (some n) =
      if n == 0 then "your party size not set yet" else str_append "a party of " (show_number n)

  abbrev table_text : Option TableProposalDto → String
  table_text none = ""
  table_text (some t) = str_append ", table " t.label

  unfoldable pub build_recap_message : VisitDraftDto → String
  build_recap_message d = str_append "That took a little while — here's what you had so far: " (
      str_append (party_text d.party_size) (
        str_append (table_text d.table_proposal) (
          str_append ". Order: "
            (str_append (items_text d.items) ". Still want to go ahead with this?"))))

abbrev pub is_before : Instant → Option Instant → Bool
is_before now none = false
is_before now (some at) = ltb_ℤ at now

-- What was understood of a request.
pub data Heard : Type 0 where
  said : String → Heard
  unclear unheard : Heard

module _ {Raw Audio : Type 0} (c : Client) (deps : IntakeDeps Raw Audio) where
  open deps use {
    engine, schemas, tools, transcribe, sign, new_visit_id, new_turn_id, inactivity_override,
    order_turns, meanwhile, trims_to_nothing, show_number,
  }

  abbrev turns_of : Key → Key → World → List ConversationTurn
  turns_of r v w =
      order_turns (keep (λ t. t.restaurant_id == r && t.visit_id == v) w.db.conversation_turns)

  abbrev draft_window : ℤ
  draft_window = read_ms_override inactivity_override default_draft_inactivity_window_ms

  abbrev pub draft_deadline : Instant
  draft_deadline = tools.now +ℤ draft_window

  abbrev pub new_turn : Key → Key → ConversationRole → String → World → ConversationTurn
  new_turn r v role text w = record {
    id = new_turn_id w;
    restaurant_id = r;
    visit_id = v;
    role = role;
    transcript = text;
    created_at = tools.now;
  }

  abbrev pub create_turn : Key → Key → ConversationRole → String → M ConversationTurn
  create_turn r v role text w =
      let turns = w.db.conversation_turns ++ new_turn r v role text w ∷ [] in
      (
        ok (new_turn r v role text w),
        record w { db = record (w.db) { conversation_turns = turns } },
      )

  abbrev refresh_draft : Key → Key → M ℕ
  refresh_draft r v =
      update_visits c r v (λ _. true)
        λ row. record row { draft_expires_at = some draft_deadline; updated_at = tools.now }

  abbrev pub restart_window : Key → Key → M ℕ
  restart_window r v = do elsewhere (meanwhile before_refresh); for_restaurant (refresh_draft r v)

  abbrev pub response_of :
      VisitWithItemsAndTable → List ConversationTurn → String → Bool → IntakeTurnResponse
  response_of v turns message reengaged = record {
    visit = to_visit_draft_dto v;
    turns = turns;
    assistant_message = message;
    reengaged = reengaged;
    draft_token = sign v.visit.id v.visit.restaurant_id;
  }

  unfoldable pub respond_with_system_turn :
      Key → Key → String → Bool → List ConversationTurn → M IntakeTurnResponse
  unfolding get_visit_or_throw
  respond_with_system_turn r v message reengaged preceding = do
    elsewhere (meanwhile before_answer)
    turn ← for_restaurant (create_turn r v ConversationRole.system message)
    if reengaged then restart_window r v else pure 0
    elsewhere (meanwhile before_reread)
    current ← get_visit_or_throw c r v
    pure (response_of current (preceding ++ turn ∷ []) message reengaged)

  abbrev resolve_voice : Result AsrTranscriptionResult → Heard
  resolve_voice (err e) = unheard
  resolve_voice (ok t) =
      if t.low_confidence || trims_to_nothing t.transcript then unclear else said t.transcript

  abbrev pub resolve : IntakeTurnRequest Audio → Heard
  resolve (text_turn text) = said text
  resolve (voice_turn audio) = resolve_voice (transcribe audio)

  abbrev pub load_history : Key → Key → World → List DialogueHistoryTurn
  load_history r v w = map (λ t. record { role = t.role; text = t.transcript }) (turns_of r v w)

  abbrev tool_context : Key → Key → ToolExecutionContext
  tool_context r v = record tools { restaurant_id = r; visit_id = v }

  abbrev pub engine_input : Key → Key → String → List DialogueHistoryTurn → DialogueTurnInput Raw
  engine_input r v text history = record {
    restaurant_id = r;
    visit_id = v;
    history = history;
    customer_message = text;
    execute = execute_tool c schemas (tool_context r v);
    get_draft_state = do
      current ← get_visit_or_throw c r v
      pure (to_visit_draft_dto current);
  }

  -- After the engine: its message is kept and the draft's window starts again; if it threw, its tool
  -- calls stay and the service says that it is in trouble.
  unfoldable pub after_engine :
      Key → Key → ConversationTurn → Result (DialogueTurnOutput Raw) → M IntakeTurnResponse
  unfolding respond_with_system_turn get_visit_or_throw
  after_engine r v customer_turn (err e) =
      respond_with_system_turn r v llm_unavailable_message false (customer_turn ∷ [])
  after_engine r v customer_turn (ok out) = do
    elsewhere (meanwhile before_answer)
    turn ← for_restaurant (create_turn r v ConversationRole.system out.assistant_message)
    restart_window r v
    elsewhere (meanwhile before_reread)
    current ← get_visit_or_throw c r v
    pure (response_of current (customer_turn ∷ turn ∷ []) out.assistant_message false)

  abbrev pub ask_engine :
      Key → Key → String → ConversationTurn → List DialogueHistoryTurn → M IntakeTurnResponse
  ask_engine r v text customer_turn history w =
      let (result, w') = engine (engine_input r v text history) (meanwhile before_engine w) in
      after_engine r v customer_turn result w'

  abbrev pub run_engine : Key → Key → String → ConversationTurn → M IntakeTurnResponse
  run_engine r v text customer_turn w =
      let read = meanwhile before_history w in
      ask_engine r v text customer_turn (load_history r v read) read

  unfoldable pub answer_text : Key → Key → VisitWithItemsAndTable → String → M IntakeTurnResponse
  unfolding respond_with_system_turn build_recap_message
  answer_text r v visit text = do
    elsewhere (meanwhile before_customer_turn)
    customer_turn ← for_restaurant (create_turn r v ConversationRole.customer text)
    if is_before tools.now visit.visit.draft_expires_at
        then respond_with_system_turn r v
            (build_recap_message show_number (to_visit_draft_dto visit)) true (customer_turn ∷ [])
        else run_engine r v text customer_turn

  abbrev pub answer_heard : Key → Key → VisitWithItemsAndTable → Heard → M IntakeTurnResponse
  answer_heard r v visit (said text) = answer_text r v visit text
  answer_heard r v visit unclear = respond_with_system_turn r v did_not_catch false []
  answer_heard r v visit unheard = respond_with_system_turn r v out_of_scope_asr_error false []

  unfoldable pub process_turn : Key → Key → IntakeTurnRequest Audio → M IntakeTurnResponse
  unfolding get_visit_or_throw
  process_turn r v request = do
    visit ← get_visit_or_throw c r v
    answer_heard r v visit (resolve request)

  unfoldable pub get_state : Key → Key → M IntakeState
  unfolding get_visit_or_throw
  get_state r v = do
    visit ← get_visit_or_throw c r v
    elsewhere (meanwhile before_turns)
    (λ w. (ok (record { visit = to_visit_draft_dto visit; turns = turns_of r v w }), w))

  abbrev new_draft : Key → Option Key → Key → Visit
  new_draft r customer_id id = record {
    id = id;
    restaurant_id = r;
    customer_id = customer_id;
    party_size = none;
    has_child = false;
    special_needs = [];
    arrival_eta = none;
    arrival_confirmed_at = none;
    table_id = none;
    table_assigned_at = none;
    kitchen_start_target = none;
    food_out_target = none;
    draft_expires_at = some draft_deadline;
    status = draft;
    updated_at = tools.now;
  }

  abbrev created_draft : Visit → World → Option (Rows Visit) → Result VisitWithItemsAndTable × World
  created_draft row w none = (err internal_error, w)
  created_draft row w (some rows) =
      let w' = record w { db = record (w.db) { visits = rows } } in
      (ok (with_items_and_table c row w'), w')

  abbrev create_draft : Key → Option Key → M VisitWithItemsAndTable
  create_draft r customer_id w =
      let row = new_draft r customer_id (new_visit_id w) in
      created_draft row w (c.create w.db.visits row.id row)

  unfoldable pub start : Key → Option Key → M IntakeTurnResponse
  start r customer_id = do
    found ← for_restaurant λ w. (ok (c.find_first w.db.restaurants r (λ _. true)), w)
    or_throw found not_found
    elsewhere (meanwhile before_draft)
    visit ← for_restaurant (create_draft r customer_id)
    elsewhere (meanwhile before_greeting)
    turn ← for_restaurant (create_turn r visit.visit.id ConversationRole.system greeting)
    pure (response_of visit (turn ∷ []) greeting false)
