-- ===== src/Intake/Dialogue.antt =====
-- apps/api/src/intake/llm/dialogue-engine.interface.ts and draft-mapper.ts: what an engine is given
-- and what it answers.
use raise.Intake.Registry.{ToolInvocationRecord}
use raise.Prelude.{Option, ℕ, List, map, Bool}
use raise.Intake.Tools.{proposal_of, TableProposalDto}
use Prim.Native.String.{String}
use raise.Visits.{VisitWithItemsAndTable, to_item_dto, VisitItemDto}
use raise.World.{M}
use raise.Schema.{ConversationRole, Instant}
use raise.Store.{Key}
use mathlib.Core.Option

pub record VisitDraftDto : Type 0 where
  pub id : Key
  pub restaurant_id : Key
  pub party_size : Option ℕ
  pub has_child : Bool
  pub special_needs : List String
  pub arrival_eta : Option Instant
  pub table_proposal : Option TableProposalDto
  pub items : List VisitItemDto
  pub draft_expires_at : Option Instant

unfoldable pub to_visit_draft_dto : VisitWithItemsAndTable → VisitDraftDto
to_visit_draft_dto v = record {
  id = v.visit.id;
  restaurant_id = v.visit.restaurant_id;
  party_size = v.visit.party_size;
  has_child = v.visit.has_child;
  special_needs = v.visit.special_needs;
  arrival_eta = v.visit.arrival_eta;
  table_proposal = Option.map proposal_of v.table;
  items = map to_item_dto v.lines;
  draft_expires_at = v.visit.draft_expires_at;
}

pub record DialogueHistoryTurn : Type 0 where
  pub role : ConversationRole
  pub text : String

-- The draft's identity, the earlier turns, the message, and the two ways to the database.
pub record DialogueTurnInput (Raw : Type 0) : Type 0 where
  pub restaurant_id : Key
  pub visit_id : Key
  pub history : List DialogueHistoryTurn
  pub customer_message : String
  pub execute : String → Raw → M (ToolInvocationRecord Raw)
  pub get_draft_state : M VisitDraftDto

pub record DialogueTurnOutput (Raw : Type 0) : Type 0 where
  pub assistant_message : String
  pub tool_invocations : List (ToolInvocationRecord Raw)

abbrev pub DialogueEngine : Type 0 → Type 0
DialogueEngine Raw = DialogueTurnInput Raw → M (DialogueTurnOutput Raw)
