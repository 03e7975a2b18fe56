-- ===== src/Examples/Turns.antt =====
-- Turns of the conversation at concrete worlds, with an engine that always says the same.
use raise.Visits.{get_visit_or_throw, with_items_and_table}
use raise.Intake.Turns.Transcript.{Told, process_turn-Told}
use raise.Intake.Turns.Windows.{Reengaged, process_turn-Reengaged}
use mathlib.Core.List.{Memᴰ}
use mathlib.Core.List.Memᴰ.{head}
use raise.Store.{documented, documented-IsDocumented}
use raise.Intake.Dialogue.{DialogueTurnInput, to_visit_draft_dto}
use raise.Schema.{ConversationTurn, draft, ConversationRole, Visit}
use raise.World.{World, ok, err, internal_error}
use raise.Intake.Turns.{
  IntakeDeps, process_turn, new_turn, create_turn, after_engine, engine_input, load_history,
  before_history, voice_turn, Wait, IntakeTurnResponse, answer_text, respond_with_system_turn,
  response_of, build_recap_message,
}
use raise.Intake.Turns.Heeded.{process_turn-history}
use raise.Intake.Tools.{ToolExecutionContext}
use raise.Prelude.{[], none, false, refl, ◌≡◌, ℕ, length, String, some, ◌∷◌, pos, true, ◌+ℤ◌}
use raise.Examples.{evening, now, blank_visit, rows}

abbrev tools_at : ToolExecutionContext
tools_at = record {
  restaurant_id = 0;
  visit_id = 0;
  now = now;
  others = λ w. w;
  new_id = λ w. 40;
  order_menu = λ ms. ms;
  order_tables = λ ts. ts;
  parse_date = λ s. none;
}

abbrev pub deps : IntakeDeps ℕ ℕ
deps = record {
  engine = λ input w. (ok (record { assistant_message = "Sure."; tool_invocations = [] }), w);
  schemas = record { safe_parse = λ tool x. none };
  tools = tools_at;
  transcribe = λ audio. err internal_error;
  sign = λ v r. v;
  new_visit_id = λ w. 50;
  new_turn_id = λ w. 60;
  order_turns = λ ts. ts;
  meanwhile = λ wait w. w;
  inactivity_override = none;
  trims_to_nothing = λ s. false;
  show_number = λ n. "2";
}

-- Another message of the same guest is stored while this one waits.
abbrev overtaking : Wait → World → World
overtaking before_history w =
    (create_turn documented deps 1 10 ConversationRole.customer "and a lassi" w).1
overtaking _ w = w

abbrev spoken_deps : IntakeDeps ℕ ℕ
spoken_deps = record deps {
  meanwhile = overtaking;
  transcribe = λ audio. ok (record { transcript = "hello"; low_confidence = false });
}

abbrev said_hello : ConversationTurn
said_hello = new_turn documented spoken_deps 1 10 ConversationRole.customer "hello" evening

abbrev with_hello : World
with_hello = (create_turn documented spoken_deps 1 10 ConversationRole.customer "hello" evening).1

abbrev with_both : World
with_both = overtaking before_history with_hello

abbrev asked_hello : DialogueTurnInput ℕ
asked_hello =
    engine_input documented spoken_deps 1 10 "hello"
      (load_history documented spoken_deps 1 10 with_both)

hears_both : length asked_hello.history ≡ 2
hears_both = refl

process_turn-history_example :
    (process_turn documented spoken_deps 1 10 (voice_turn 7) evening
      ≡ after_engine documented spoken_deps 1 10 said_hello
          (spoken_deps.engine asked_hello with_both).0
          (spoken_deps.engine asked_hello with_both).1)
    × (asked_hello.customer_message ≡ "hello")
    × Memᴰ (record { role = ConversationRole.customer; text = "hello" }) asked_hello.history
process_turn-history_example =
    process_turn-history documented documented-IsDocumented spoken_deps 1 10 (voice_turn 7) "hello"
      (blank_visit 10 draft) evening (λ t ts m. m) refl refl refl (head refl)

abbrev answer_of : String → ConversationTurn
answer_of text = new_turn documented spoken_deps 1 10 ConversationRole.system text evening

abbrev live_after : World
live_after = (process_turn documented spoken_deps 1 10 (voice_turn 7) evening).1

abbrev live_response : IntakeTurnResponse
live_response =
    response_of documented spoken_deps
      (with_items_and_table documented
        (record (blank_visit 10 draft) {
          draft_expires_at = some (pos 1000900000);
          updated_at = now;
        })
        live_after)
      (said_hello ∷ answer_of "Sure." ∷ []) "Sure." false

live_answers :
    process_turn documented spoken_deps 1 10 (voice_turn 7) evening ≡ (ok live_response, live_after)
unfolding process_turn answer_text after_engine respond_with_system_turn get_visit_or_throw
    build_recap_message to_visit_draft_dto ◌+ℤ◌
live_answers = refl

-- The transcript has the other message too, and the response does not.
keeps_all_three : length live_after.db.conversation_turns ≡ 3
unfolding process_turn answer_text after_engine respond_with_system_turn get_visit_or_throw
    build_recap_message to_visit_draft_dto ◌+ℤ◌
keeps_all_three = refl

process_turn-Told_example : Told spoken_deps evening live_after live_response
process_turn-Told_example =
    process_turn-Told documented documented-IsDocumented spoken_deps 1 10 (voice_turn 7) evening
      live_after live_response live_answers

abbrev late_visit : Visit
late_visit = record (blank_visit 10 draft) { draft_expires_at = some (pos 5) }

abbrev late_world : World
late_world = record evening { db = record (evening.db) { visits = rows ((10, late_visit) ∷ []) } }

abbrev late_after : World
late_after = (process_turn documented spoken_deps 1 10 (voice_turn 7) late_world).1

abbrev recap : String
recap =
    build_recap_message (λ n. "2")
      (to_visit_draft_dto (with_items_and_table documented late_visit late_world))

abbrev late_response : IntakeTurnResponse
late_response =
    response_of documented spoken_deps
      (with_items_and_table documented
        (record late_visit { draft_expires_at = some (pos 1000900000); updated_at = now })
        late_after)
      (said_hello ∷ answer_of recap ∷ []) recap true

late_answers :
    process_turn documented spoken_deps 1 10 (voice_turn 7) late_world
    ≡ (ok late_response, late_after)
unfolding process_turn answer_text after_engine respond_with_system_turn get_visit_or_throw
    build_recap_message to_visit_draft_dto ◌+ℤ◌
late_answers = refl

process_turn-Reengaged_example :
    Reengaged documented spoken_deps 1 10 "hello" recap late_response late_world late_after
process_turn-Reengaged_example =
    process_turn-Reengaged documented documented-IsDocumented spoken_deps 1 10 (voice_turn 7)
      "hello" late_visit late_world late_after late_response refl refl refl late_answers
