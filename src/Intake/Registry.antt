-- ===== src/Intake/Registry.antt =====
-- apps/api/src/intake/tools/tool-definitions.ts: the one entry point of a tool call. The schemas are
-- checked by a validation library, which is a parameter: `none` is a failed parse.
use raise.World.{M, pure, ◌>>=◌}
use raise.Intake.Tools.{
  ToolResult, ToolExecutionContext, PartyDetails, NewItem, ItemChange, refused, unknown_tool,
  invalid_input,
}
use Prim.Native.String.{String}
use raise.Prelude.{[], Option, List, ◌∷◌, none, ℕ, if◌then◌else◌, some}
use raise.Store.{Key, Client}
use raise.Intake.Tools
use text.Mathlib.Text.{◌==◌ as str_eq}

pub data ToolName : Type 0 where
  list_available_menu_items get_menu_item_details list_open_tables set_party_details add_order_item
        update_order_item remove_order_item propose_table :
      ToolName

-- The keys of `REGISTRY`.
abbrev registry : List (String × ToolName)
registry =
    ("list_available_menu_items", ToolName.list_available_menu_items)
    ∷ ("get_menu_item_details", ToolName.get_menu_item_details)
    ∷ ("list_open_tables", ToolName.list_open_tables)
    ∷ ("set_party_details", ToolName.set_party_details)
    ∷ ("add_order_item", ToolName.add_order_item)
    ∷ ("update_order_item", ToolName.update_order_item)
    ∷ ("remove_order_item", ToolName.remove_order_item)
    ∷ ("propose_table", ToolName.propose_table)
    ∷ []

abbrev entry_named : String → List (String × ToolName) → Option ToolName
entry_named name [] = none
entry_named name ((key, tool) ∷ rest) = if str_eq key name then some tool else entry_named name rest

-- `isToolName`, with the tool.
unfoldable tool_named : String → Option ToolName
tool_named name = entry_named name registry

-- The inferred type of each tool's schema.
abbrev pub InputOf : ToolName → Type 0
InputOf ToolName.list_available_menu_items = Unit
InputOf ToolName.get_menu_item_details = Key
InputOf ToolName.list_open_tables = ℕ
InputOf ToolName.set_party_details = PartyDetails
InputOf ToolName.add_order_item = NewItem
InputOf ToolName.update_order_item = ItemChange
InputOf ToolName.remove_order_item = Key
InputOf ToolName.propose_table = Key

-- `schema.safeParse(rawInput ?? {})` for each tool.
pub record Schemas (Raw : Type 0) : Type 0 where
  pub safe_parse : (tool : ToolName) → Raw → Option (InputOf tool)

pub data RecordedInput (Raw : Type 0) : Type 0 where
  raw : Raw → RecordedInput Raw
  parsed : (tool : ToolName) → InputOf tool → RecordedInput Raw

pub record ToolInvocationRecord (Raw : Type 0) : Type 0 where
  pub name : String
  pub input : RecordedInput Raw
  pub result : ToolResult

abbrev pub handler : Client → ToolExecutionContext → (tool : ToolName) → InputOf tool → M ToolResult
handler c ctx ToolName.list_available_menu_items input = Tools.list_available_menu_items c ctx
handler c ctx ToolName.get_menu_item_details input = Tools.get_menu_item_details c ctx input
handler c ctx ToolName.list_open_tables input = Tools.list_open_tables c ctx input
handler c ctx ToolName.set_party_details input = Tools.set_party_details c ctx input
handler c ctx ToolName.add_order_item input = Tools.add_order_item c ctx input
handler c ctx ToolName.update_order_item input = Tools.update_order_item c ctx input
handler c ctx ToolName.remove_order_item input = Tools.remove_order_item c ctx input
handler c ctx ToolName.propose_table input = Tools.propose_table c ctx input

module _ {Raw : Type 0} (c : Client) (schemas : Schemas Raw) where
  abbrev pub run_parsed :
      ToolExecutionContext
      → String
      → (tool : ToolName) → Raw
      → Option (InputOf tool)
      → M (ToolInvocationRecord Raw)
  run_parsed ctx name tool input none =
      pure (record { name = name; input = raw input; result = refused invalid_input })
  run_parsed ctx name tool input (some data_in) = do
    result ← handler c ctx tool data_in
    pure (record { name = name; input = parsed tool data_in; result = result })

  abbrev pub run_named :
      ToolExecutionContext → String → Raw → Option ToolName → M (ToolInvocationRecord Raw)
  run_named ctx name input none =
      pure (record { name = name; input = raw input; result = refused unknown_tool })
  run_named ctx name input (some tool) =
      run_parsed ctx name tool input (schemas.safe_parse tool input)

  unfoldable pub execute_tool : ToolExecutionContext → String → Raw → M (ToolInvocationRecord Raw)
  unfolding tool_named
  execute_tool ctx name input = run_named ctx name input (tool_named name)
