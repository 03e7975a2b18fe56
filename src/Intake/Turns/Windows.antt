-- ===== src/Intake/Turns/Windows.antt =====
-- A turn on a draft after its deadline.
use raise.Intake.Dialogue.{to_visit_draft_dto}
use raise.Visits.Stages.{visit_at}
use raise.World.{World, ok}
use raise.Prelude.{String, ◌≡◌, true, some, arith, ◌++◌, ◌∷◌, [], refl, Option-cases, inl, inr}
use raise.Visits.{VisitWithItemsAndTable, get_visit_or_throw, with_items_and_table}
use raise.Schema.{Visit, ConversationRole, ConversationTurn}
use raise.Intake.Turns.{
  IntakeDeps, answer_text, respond_with_system_turn, IntakeTurnResponse, is_before,
  build_recap_message, draft_deadline, process_turn, new_turn, said, resolve, IntakeTurnRequest,
  before_customer_turn, before_answer, before_refresh, before_reread, restart_window,
}
use raise.Store.{Client, Key, documented, IsDocumented, client-eq}

-- A turn at the end of the transcript, and nothing else.
abbrev pub with_turn : ConversationTurn → World → World
with_turn t w = record w {
  db = record (w.db) { conversation_turns = w.db.conversation_turns ++ t ∷ [] };
}

-- The draft's window starts again, and nothing else changes.
pub record Renewed {Raw Audio : Type 0} (c : Client) (deps : IntakeDeps Raw Audio) (r v : Key)
    (w w' : World) : Type 0 where
  pub renewed :
      (row : Visit)
      → visit_at r v w ≡ some row
      → w'.db.visits.at v
        ≡ some (record row {
          draft_expires_at = some (draft_deadline c deps);
          updated_at = deps.tools.now;
        })
  pub visits_else : (i : Key) → (v ≡ i → ⊥) → w'.db.visits.at i ≡ w.db.visits.at i
  pub rest_kept : record w' { db = record (w'.db) { visits = w.db.visits } } ≡ w

-- What a turn on a draft that sat too long leaves and answers: the guest's text and the recap are
-- stored and the window starts again, with the commits of others in between.
pub record Reengaged {Raw Audio : Type 0} (c : Client) (deps : IntakeDeps Raw Audio) (r v : Key)
    (text recap : String) (x : IntakeTurnResponse) (w w' : World) : Type 0 where
  pub heard : ConversationTurn
  pub answer : ConversationTurn
  pub shows : x.turns ≡ heard ∷ answer ∷ []
  pub asked : heard.transcript ≡ text
  pub recapped : (answer.transcript ≡ recap) × (x.assistant_message ≡ recap)
  pub asked_again : x.reengaged ≡ true
  pub refreshed : World
  pub steps :
      Renewed c deps r v
        (deps.meanwhile before_refresh (
          with_turn answer (
            deps.meanwhile before_answer
              (with_turn heard (deps.meanwhile before_customer_turn w)))))
        refreshed
  pub ends : w' ≡ deps.meanwhile before_reread refreshed

module _ {Raw Audio : Type 0} (deps : IntakeDeps Raw Audio) (r v : Key) where
  open deps use {tools, meanwhile}

  window-Renewed :
      (w : World)
      → Renewed documented deps r v
          (meanwhile before_refresh w)
          (restart_window documented deps r v w).1
  window-Renewed w = elim (Option-cases (visit_at r v (meanwhile before_refresh w))) [
    | inl e ↦ record {
      renewed = λ row f. absurd (ground arith);
      visits_else = λ i n. ground arith;
      rest_kept = refl;
    }
    | inr (found, e) ↦ record {
      renewed = λ row f. ground arith;
      visits_else = λ i n. ground arith;
      rest_kept = refl;
    }
  ]

  late_text :
      (visit : VisitWithItemsAndTable) (text : String) (w w' : World) (x : IntakeTurnResponse)
      → is_before tools.now visit.visit.draft_expires_at ≡ true
      → answer_text documented deps r v visit text w ≡ (ok x, w')
      → Reengaged documented deps r v text
          (build_recap_message deps.show_number (to_visit_draft_dto visit))
          x
          w
          w'
  unfolding answer_text respond_with_system_turn get_visit_or_throw
  late_text visit text w w' x late h =
      let recap = build_recap_message deps.show_number (to_visit_draft_dto visit) in
      let a = meanwhile before_customer_turn w in
      let heard = new_turn documented deps r v ConversationRole.customer text a in
      let b = meanwhile before_answer (with_turn heard a) in
      let answer = new_turn documented deps r v ConversationRole.system recap b in
      let d = (restart_window documented deps r v (with_turn answer b)).1 in
      elim (Option-cases (visit_at r v (meanwhile before_reread d))) [
        | inl e ↦ absurd (ground arith)
        | inr (row, e) ↦ record {
          heard = heard;
          answer = answer;
          shows = ground arith;
          asked = refl;
          recapped = (refl, ground arith);
          asked_again = ground arith;
          refreshed = d;
          steps = window-Renewed (with_turn answer b);
          ends = ground arith;
        }
      ]

  late_turn :
      (request : IntakeTurnRequest Audio) (text : String) (row : Visit) (w w' : World)
      (x : IntakeTurnResponse)
      → resolve documented deps request ≡ said text
      → visit_at r v w ≡ some row
      → is_before tools.now row.draft_expires_at ≡ true
      → process_turn documented deps r v request w ≡ (ok x, w')
      → Reengaged documented deps r v text
          (build_recap_message deps.show_number
            (to_visit_draft_dto (with_items_and_table documented row w)))
          x
          w
          w'
  unfolding process_turn get_visit_or_throw
  late_turn request text row w w' x s e late h =
      late_text (with_items_and_table documented row w) text w w' x late (rw (e, s) at h)

-- A draft that sat past its deadline is never continued silently: a turn on it, typed or spoken, that
-- was understood as a text and is answered is not put to the engine, whatever engine there is. The
-- answer repeats the draft as it was read and asks again; the request itself stores the guest's text
-- and the recap, starts the deadline again and writes nothing else, whatever others commit in between.
pub process_turn-Reengaged :
    {Raw Audio : Type 0} (c : Client)
    → IsDocumented c
    → (deps : IntakeDeps Raw Audio) (r v : Key) (request : IntakeTurnRequest Audio) (text : String)
      (row : Visit) (w w' : World) (x : IntakeTurnResponse)
    → resolve c deps request ≡ said text
    → visit_at r v w ≡ some row
    → is_before deps.tools.now row.draft_expires_at ≡ true
    → process_turn c deps r v request w ≡ (ok x, w')
    → Reengaged c deps r v text
        (build_recap_message deps.show_number (to_visit_draft_dto (with_items_and_table c row w)))
        x
        w
        w'
process_turn-Reengaged c l = rw (client-eq c l) λ deps r v request text row w w' x s e late h.
    late_turn deps r v request text row w w' x s e late h
