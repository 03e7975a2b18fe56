-- ===== src/Intake/Claude/Bounds.antt =====
-- How much one turn of the loop does, and that it ends.
use raise.Visits.{is_empty}
use raise.Intake.Dialogue.{DialogueTurnOutput, DialogueTurnInput}
use raise.Intake.Registry.{ToolInvocationRecord}
use raise.World.{M, World, ok, >>=-eq-ok, Result-cases}
use raise.Prelude.{
  String, List, ◌≡◌, length, arith, ◌∷◌, [], ℕ, ◌≤◌, ◌+◌, ◌*◌, Bool-cases, suc, inr, inl, zero,
  ◌++◌, ◌||◌, length-append,
}
use raise.Intake.Claude.{
  Api, run_tools, ToolUseBlock, MessageParam, ApiResponse, tool_use_blocks, tool_loop,
  after_response, is_pause, assistant_blocks, is_end, run_turn, max_tool_iterations,
}

module _ {Raw : Type 0} (api : Api Raw)
    (execute : String → Raw → M (ToolInvocationRecord Raw)) where
  run_tools-length :
      (us : List (ToolUseBlock Raw)) (w : World) (rs : List (ToolInvocationRecord Raw))
      → (run_tools execute us w).0 ≡ ok rs
      → length rs ≡ length us
  unfolding run_tools
  run_tools-length [] w rs h = ground arith
  run_tools-length (u ∷ us) w rs h =
      let (one, e, g) = >>=-eq-ok (execute u.name u.input) _ w h in
      let (more, f, k) = >>=-eq-ok (run_tools execute us) _ (execute u.name u.input w).1 g in
      ground (arith, run_tools-length us (execute u.name u.input w).1 more f)

  -- One response adds at most the calls that it asks for, if the next round adds at most `b`.
  after_response-length :
      (again : List (MessageParam Raw)
        → List (ToolInvocationRecord Raw)
        → M (DialogueTurnOutput Raw))
      (k b : ℕ)
      → ((messages : List (MessageParam Raw)) (done : List (ToolInvocationRecord Raw)) (w : World)
            (out : DialogueTurnOutput Raw)
          → (again messages done w).0 ≡ ok out
          → length out.tool_invocations ≤ length done + b)
      → (messages : List (MessageParam Raw)) (done : List (ToolInvocationRecord Raw)) (w : World)
        (out : DialogueTurnOutput Raw) (response : ApiResponse Raw)
      → length (tool_use_blocks response.content) ≤ k
      → (after_response api execute again messages done response w).0 ≡ ok out
      → length out.tool_invocations ≤ length done + k + b
  after_response-length again k b next messages done w out response few h =
      elim (Bool-cases (is_pause response.stop_reason)) [
        | inl p ↦
            let n = next (messages ++ assistant_blocks response.content ∷ []) done w out in
            ground arith
        | inr p ↦
            elim (Bool-cases
              (is_empty (tool_use_blocks response.content) || is_end response.stop_reason)) [
                | inl q ↦ ground arith
                | inr q ↦
                    let (rs, e, g) =
                      >>=-eq-ok (run_tools execute (tool_use_blocks response.content)) _ w
                        (rw (p, q) at h) in
                    let n = next _ (done ++ rs) _ out g in
                    let asked = run_tools-length (tool_use_blocks response.content) w rs e in
                    omega (arith, n, asked, few, length-append done rs)
              ]
      ]

  tool_loop-length :
      (k : ℕ)
      → ((messages : List (MessageParam Raw)) (response : ApiResponse Raw)
          → api.create_message messages ≡ ok response
          → length (tool_use_blocks response.content) ≤ k)
      → (rounds : ℕ) (messages : List (MessageParam Raw)) (done : List (ToolInvocationRecord Raw))
        (w : World) (out : DialogueTurnOutput Raw)
      → (tool_loop api execute rounds messages done w).0 ≡ ok out
      → length out.tool_invocations ≤ length done + rounds * k
  unfolding tool_loop
  tool_loop-length k few zero messages done w out h = ground arith
  tool_loop-length k few (suc rounds) messages done w out h =
      elim (Result-cases (api.create_message messages)) [
        | inr (f, e) ↦ absurd (ground arith)
        | inl (response, e) ↦
            let bound =
              after_response-length (tool_loop api execute rounds) k (rounds * k)
                (tool_loop-length k few rounds) messages done (api.others w) out response
                (few messages response e) (rw e at h) in
            omega (arith, bound)
      ]

-- A turn is bounded: if no response of the model asks for more than `k` calls, a turn that returns
-- records at most six times `k`, whatever the model says.
pub run_turn-length :
    {Raw : Type 0} (api : Api Raw) (input : DialogueTurnInput Raw) (k : ℕ)
    → ((messages : List (MessageParam Raw)) (response : ApiResponse Raw)
        → api.create_message messages ≡ ok response
        → length (tool_use_blocks response.content) ≤ k)
    → (w : World) (out : DialogueTurnOutput Raw) → (run_turn api input w).0 ≡ ok out
    → length out.tool_invocations ≤ max_tool_iterations * k
unfolding run_turn
run_turn-length api input k few w out h =
    omega (arith, tool_loop-length api input.execute k few max_tool_iterations _ [] w out h)
