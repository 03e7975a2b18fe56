-- ===== src/Intake/Claude.antt =====
-- apps/api/src/intake/llm/claude-dialogue.engine.ts: the loop of model requests and tool calls. The
-- model is a parameter, an arbitrary function of the conversation that may also throw; so are the
-- joining and trimming of its texts. Other requests commit while it answers.
use raise.Visits.{is_empty}
use raise.Intake.Registry.{ToolInvocationRecord}
use raise.Intake.Tools.{ToolResult}
use raise.World.{Result, M, World, pure, ◌>>=◌, lift, ◌>>◌, elsewhere}
use Prim.Native.String.{String}
use raise.Intake.Dialogue.{DialogueHistoryTurn, DialogueEngine, DialogueTurnOutput}
use raise.Prelude.{List, Bool, if◌then◌else◌, ◌∷◌, true, map, false, [], ◌++◌, ◌||◌, zero}
use Prim.Native.Nat.{ℕ, suc}
use text.Mathlib.Text.{◌==◌ as str_eq}
use raise.Schema.{ConversationRole}
pub mod Bounds
pub mod Reach

pub data StopReason : Type 0 where
  pause_turn end_turn other_stop : StopReason

pub data ContentBlock (Raw : Type 0) : Type 0 where
  text_block : String → ContentBlock Raw
  tool_use : (id name : String) → Raw → ContentBlock Raw
  other_block : ContentBlock Raw

pub record ApiResponse (Raw : Type 0) : Type 0 where
  pub stop_reason : StopReason
  pub content : List (ContentBlock Raw)

pub data MessageParam (Raw : Type 0) : Type 0 where
  user_text : String → MessageParam Raw
  assistant_text : String → MessageParam Raw
  assistant_blocks : List (ContentBlock Raw) → MessageParam Raw
  tool_results : List (String × ToolResult) → MessageParam Raw

pub record ToolUseBlock (Raw : Type 0) : Type 0 where
  pub id : String
  pub name : String
  pub input : Raw

-- The client of the model's interface, and what is around it.
pub record Api (Raw : Type 0) : Type 0 where
  pub create_message : List (MessageParam Raw) → Result (ApiResponse Raw)
  pub others : World → World
  pub join_and_trim : List String → String

abbrev pub max_tool_iterations : ℕ
max_tool_iterations = 6

abbrev pub is_pause : StopReason → Bool
is_pause pause_turn = true
is_pause _ = false

abbrev pub is_end : StopReason → Bool
is_end end_turn = true
is_end _ = false

abbrev text_or_default : String → String
text_or_default text = if str_eq text "" then "Sorry, could you say that again?" else text

module _ {Raw : Type 0} where
  abbrev message_of : DialogueHistoryTurn → MessageParam Raw
  message_of t = elim t.role [
    | ConversationRole.customer ↦ user_text t.text
    | ConversationRole.system ↦ assistant_text t.text
  ]

  abbrev add_use : ContentBlock Raw → List (ToolUseBlock Raw) → List (ToolUseBlock Raw)
  add_use (text_block t) us = us
  add_use (tool_use i n x) us = record { id = i; name = n; input = x } ∷ us
  add_use other_block us = us

  unfoldable pub tool_use_blocks : List (ContentBlock Raw) → List (ToolUseBlock Raw)
  tool_use_blocks [] = []
  tool_use_blocks (b ∷ bs) = add_use b (tool_use_blocks bs)

  abbrev add_text : ContentBlock Raw → List String → List String
  add_text (text_block t) ts = t ∷ ts
  add_text (tool_use i n x) ts = ts
  add_text other_block ts = ts

  unfoldable pub texts_of : List (ContentBlock Raw) → List String
  texts_of [] = []
  texts_of (b ∷ bs) = add_text b (texts_of bs)

  -- The `for` over the tool calls of one response.
  unfoldable pub run_tools :
      (String → Raw → M (ToolInvocationRecord Raw))
      → List (ToolUseBlock Raw)
      → M (List (ToolInvocationRecord Raw))
  run_tools execute [] = pure []
  run_tools execute (u ∷ us) = do
    one ← execute u.name u.input
    more ← run_tools execute us
    pure (one ∷ more)

  abbrev results_of :
      List (ToolUseBlock Raw) → List (ToolInvocationRecord Raw) → List (String × ToolResult)
  results_of [] rs = []
  results_of (u ∷ us) [] = []
  results_of (u ∷ us) (r ∷ rs) = (u.id, r.result) ∷ results_of us rs

  module _ (api : Api Raw) (execute : String → Raw → M (ToolInvocationRecord Raw)) where
    -- One response; `again` is the next round.
    abbrev pub after_response :
        (List (MessageParam Raw) → List (ToolInvocationRecord Raw) → M (DialogueTurnOutput Raw))
        → List (MessageParam Raw)
        → List (ToolInvocationRecord Raw)
        → ApiResponse Raw
        → M (DialogueTurnOutput Raw)
    after_response again messages invocations response =
        if is_pause response.stop_reason
        then again (messages ++ assistant_blocks response.content ∷ []) invocations
        else if is_empty (tool_use_blocks response.content) || is_end response.stop_reason
        then pure (record {
          assistant_message = text_or_default (api.join_and_trim (texts_of response.content));
          tool_invocations = invocations;
        })
        else do
          rs ← run_tools execute (tool_use_blocks response.content)
          again
              (messages
                ++ assistant_blocks response.content
                  ∷ tool_results (results_of (tool_use_blocks response.content) rs)
                  ∷ [])
              (invocations ++ rs)

    -- The loop, by the rounds that are left.
    unfoldable pub tool_loop :
        ℕ → List (MessageParam Raw) → List (ToolInvocationRecord Raw) → M (DialogueTurnOutput Raw)
    tool_loop zero messages invocations = pure (record {
      assistant_message = "Sorry, let me slow down — could you tell me again what you'd like?";
      tool_invocations = invocations;
    })
    tool_loop (suc rounds) messages invocations = do
      response ← lift (api.create_message messages)
      elsewhere api.others
      after_response (tool_loop rounds) messages invocations response

  unfoldable pub run_turn : Api Raw → DialogueEngine Raw
  run_turn api input =
      tool_loop api input.execute max_tool_iterations
        (map message_of input.history ++ user_text input.customer_message ∷ []) []
