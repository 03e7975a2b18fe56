-- ===== src/Examples/Intake.antt =====
-- The conversation at concrete worlds: a model that orders the dish again and again.
use raise.Intake.Claude.Reach.{run_turn-OwnSteps}
use raise.Intake.Claude.Bounds.{run_turn-length}
use raise.World.{World, ok, throw, not_found}
use raise.Store.{Key, documented, documented-IsDocumented}
use raise.Intake.Claude.{
  tool_use_blocks, Api, run_turn, ApiResponse, tool_loop, MessageParam, other_stop, run_tools,
  tool_use, max_tool_iterations,
}
use raise.Intake.Grounding.{Grounded, add_order_item-Grounded}
use raise.Intake.Frame.{OwnSteps, execute_tool-OwnSteps}
use raise.Visits.{VisitItemDto}
use raise.Intake.Dialogue.{DialogueTurnOutput, DialogueTurnInput}
use raise.Intake.Registry.{Schemas, ToolInvocationRecord, ToolName, execute_tool, raw, InputOf}
use raise.Prelude.{[], ◌∷◌, none, some, refl, ◌≡◌, length, ◌≤◌, ℕ, List, Option, arith, ◌*◌}
use raise.Examples.{evening, now}
use raise.Intake.Tools.{
  add_order_item, propose_table, TableProposalDto, NewItem, ToolExecutionContext, refused, added,
  invalid_input,
}

abbrev bound_to_visit : Key → ToolExecutionContext
bound_to_visit v = record {
  restaurant_id = 1;
  visit_id = v;
  now = now;
  others = λ w. w;
  new_id = λ w. 40;
  order_menu = λ ms. ms;
  order_tables = λ ts. ts;
  parse_date = λ s. none;
}

abbrev one_dal : NewItem
one_dal = record { menu_item_id = 3; quantity = 1; modifications = []; allergy_flags = [] }

abbrev order_only : (tool : ToolName) → ℕ → Option (InputOf tool)
order_only ToolName.add_order_item input = some one_dal
order_only _ input = none

abbrev schemas : Schemas ℕ
schemas = record { safe_parse = order_only }

abbrev added_line : VisitItemDto
added_line = record {
  id = 40;
  menu_item_id = 3;
  name = "Dal";
  price = "9.50";
  quantity = 1;
  modifications = [];
  allergy_flags = [];
}

abbrev after_order : World
after_order = (add_order_item documented (bound_to_visit 10) one_dal evening).1

order_accepted :
    add_order_item documented (bound_to_visit 10) one_dal evening
    ≡ (ok (added added_line), after_order)
unfolding add_order_item
order_accepted = refl

add_order_item-Grounded_example :
    Grounded (bound_to_visit 10) one_dal added_line evening after_order
add_order_item-Grounded_example =
    add_order_item-Grounded documented documented-IsDocumented (bound_to_visit 10) one_dal evening
      added_line after_order order_accepted

abbrev after_proposal : World
after_proposal = (propose_table documented (bound_to_visit 12) 5 evening).1

abbrev table_five : TableProposalDto
table_five = record { table_id = 5; label = "T1"; seats_min = 1; seats_max = 4 }

execute_tool-OwnSteps_example :
    OwnSteps
      (λ w. w)
      10
      evening
      (execute_tool documented schemas (bound_to_visit 10) "add_order_item" 3 evening).1
execute_tool-OwnSteps_example =
    execute_tool-OwnSteps documented documented-IsDocumented schemas (bound_to_visit 10)
      "add_order_item" 3 evening

abbrev one_more : ApiResponse ℕ
one_more = record { stop_reason = other_stop; content = tool_use "t1" "add_order_item" 3 ∷ [] }

abbrev greedy : Api ℕ
greedy = record { create_message = λ ms. ok one_more; others = λ w. w; join_and_trim = λ ts. "" }

abbrev quiet_record : ToolInvocationRecord ℕ
quiet_record = record { name = "add_order_item"; input = raw 3; result = refused invalid_input }

abbrev turn_input : DialogueTurnInput ℕ
turn_input = record {
  restaurant_id = 1;
  visit_id = 10;
  history = [];
  customer_message = "a dal, please";
  execute = execute_tool documented schemas (bound_to_visit 10);
  get_draft_state = throw not_found;
}

abbrev quiet_input : DialogueTurnInput ℕ
quiet_input = record turn_input { execute = λ name x w. (ok quiet_record, w) }

abbrev quiet_output : DialogueTurnOutput ℕ
quiet_output = record {
  assistant_message = "Sorry, let me slow down — could you tell me again what you'd like?";
  tool_invocations =
      quiet_record ∷ quiet_record ∷ quiet_record ∷ quiet_record ∷ quiet_record ∷ quiet_record ∷ [];
}

greedy_turn : (run_turn greedy quiet_input evening).0 ≡ ok quiet_output
unfolding run_turn tool_loop run_tools tool_use_blocks
greedy_turn = refl

greedy_few :
    (messages : List (MessageParam ℕ)) (response : ApiResponse ℕ)
    → greedy.create_message messages ≡ ok response
    → length (tool_use_blocks response.content) ≤ 1
unfolding tool_use_blocks
greedy_few messages response e = ground arith

run_turn-OwnSteps_example : OwnSteps (λ w. w) 10 evening (run_turn greedy turn_input evening).1
run_turn-OwnSteps_example =
    run_turn-OwnSteps documented documented-IsDocumented schemas (bound_to_visit 10)
      (λ ms. ok one_more) (λ ts. "") turn_input evening refl

run_turn-length_example : length quiet_output.tool_invocations ≤ max_tool_iterations * 1
run_turn-length_example =
    run_turn-length greedy quiet_input 1 greedy_few evening quiet_output greedy_turn
