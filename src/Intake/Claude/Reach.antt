-- ===== src/Intake/Claude/Reach.antt =====
-- What a turn of the loop can reach, and that it returns.
use raise.Intake.Tools.{ToolExecutionContext}
use raise.Visits.{is_empty}
use raise.Intake.Dialogue.{DialogueTurnOutput, DialogueTurnInput}
use raise.Prelude.{String, [], ◌∷◌, List, ℕ, [], Bool-cases, suc, inl, inr, zero, ◌||◌, ◌++◌, ◌≡◌}
use raise.Intake.Claude.{
  run_tools, ToolUseBlock, MessageParam, ApiResponse, Api, tool_loop, after_response, is_pause,
  tool_use_blocks, is_end, run_turn, max_tool_iterations,
}
use raise.Intake.Frame.{OwnSteps, OwnSteps-trans, done, waited, execute_tool-OwnSteps}
use raise.Intake.Registry.{ToolInvocationRecord, Schemas, execute_tool}
use raise.Store.{Key, Client, IsDocumented}
use raise.World.{World, M, Result, >>=-keeps, Result-cases}

module _ {Raw : Type 0} (others : World → World) (v : Key)
    (execute : String → Raw → M (ToolInvocationRecord Raw))
    (reach : (name : String) (input : Raw) (w : World)
      → OwnSteps others v w (execute name input w).1) where
  keeps_trans :
      (w m w' : World) → OwnSteps others v w m → OwnSteps others v m w' → OwnSteps others v w w'
  keeps_trans w m w' s t = OwnSteps-trans s t

  run_tools-OwnSteps :
      (us : List (ToolUseBlock Raw)) (w : World) → OwnSteps others v w (run_tools execute us w).1
  unfolding run_tools
  run_tools-OwnSteps [] w = done
  run_tools-OwnSteps (u ∷ us) w =
      >>=-keeps (OwnSteps others v) keeps_trans (execute u.name u.input) _ (reach u.name u.input)
        (λ one.
          >>=-keeps (OwnSteps others v) keeps_trans (run_tools execute us) _ (run_tools-OwnSteps us)
            (λ more m. done))
        w

  module _ (create : List (MessageParam Raw) → Result (ApiResponse Raw))
      (join_and_trim : List String → String) where
    abbrev api : Api Raw
    api = record { create_message = create; others = others; join_and_trim = join_and_trim }

    after_response-OwnSteps :
        (again : List (MessageParam Raw)
          → List (ToolInvocationRecord Raw)
          → M (DialogueTurnOutput Raw))
        → ((messages : List (MessageParam Raw)) (calls : List (ToolInvocationRecord Raw))
              (w : World)
            → OwnSteps others v w (again messages calls w).1)
        → (messages : List (MessageParam Raw)) (calls : List (ToolInvocationRecord Raw))
          (response : ApiResponse Raw) (w : World)
        → OwnSteps others v w (after_response api execute again messages calls response w).1
    after_response-OwnSteps again next messages calls response w =
        elim (Bool-cases (is_pause response.stop_reason)) [
          | inl p ↦ rw p (next _ calls w)
          | inr p ↦
              elim (Bool-cases
                (is_empty (tool_use_blocks response.content) || is_end response.stop_reason)) [
                  | inl q ↦ rw (p, q) done
                  | inr q ↦
                      rw (p, q)
                        (>>=-keeps (OwnSteps others v) keeps_trans
                          (run_tools execute (tool_use_blocks response.content)) _
                          (run_tools-OwnSteps (tool_use_blocks response.content))
                          (λ rs. next _ (calls ++ rs)) w)
                ]
        ]

    tool_loop-OwnSteps :
        (rounds : ℕ) (messages : List (MessageParam Raw)) (calls : List (ToolInvocationRecord Raw))
        (w : World)
        → OwnSteps others v w (tool_loop api execute rounds messages calls w).1
    unfolding tool_loop
    tool_loop-OwnSteps zero messages calls w = done
    tool_loop-OwnSteps (suc rounds) messages calls w = elim (Result-cases (create messages)) [
      | inr (f, e) ↦ rw e done
      | inl (response, e) ↦ rw e (
          waited (
            after_response-OwnSteps (tool_loop api execute rounds) (tool_loop-OwnSteps rounds)
              messages calls response (others w)))
    ]

-- A whole turn, with the tools bound to one draft, reaches that draft and nothing else, whatever the
-- model answers: every write on the way is a tool's own.
pub run_turn-OwnSteps :
    {Raw : Type 0} (c : Client)
    → IsDocumented c
    → (schemas : Schemas Raw) (ctx : ToolExecutionContext)
      (create : List (MessageParam Raw) → Result (ApiResponse Raw))
      (join_and_trim : List String → String) (input : DialogueTurnInput Raw) (w : World)
    → input.execute ≡ execute_tool c schemas ctx
    → OwnSteps ctx.others ctx.visit_id w
        (run_turn
          (record { create_message = create; others = ctx.others; join_and_trim = join_and_trim })
          input
          w).1
unfolding run_turn
run_turn-OwnSteps c l schemas ctx create join_and_trim input w e =
    tool_loop-OwnSteps ctx.others ctx.visit_id input.execute
      (λ name x m. rw e (execute_tool-OwnSteps c l schemas ctx name x m)) create join_and_trim
      max_tool_iterations _ [] w
