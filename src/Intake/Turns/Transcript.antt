-- ===== src/Intake/Turns/Transcript.antt =====
-- What a turn leaves in the transcript among the turns of others.
use raise.Visits.Stages.{visit_at}
use raise.Intake.Dialogue.{DialogueTurnInput, DialogueTurnOutput, to_visit_draft_dto}
use raise.Visits.{get_visit_or_throw, VisitWithItemsAndTable, with_items_and_table}
use raise.Schema.{ConversationRole, ConversationTurn}
use raise.World.{World, ok, Result, err}
use raise.Prelude.{
  String, ◌≡◌, ◌++◌, ◌∷◌, [], Bool, List, Option-cases, inl, arith, inr, true, false, refl,
  Bool-cases,
}
use raise.Store.{Key, documented, Client, IsDocumented, client-eq}
use raise.Intake.Turns.{
  IntakeDeps, respond_with_system_turn, IntakeTurnResponse, new_turn, after_engine,
  llm_unavailable_message, Wait, before_answer, before_refresh, before_reread, restart_window,
  answer_text, process_turn, Heard, IntakeTurnRequest, before_customer_turn, answer_heard, said,
  is_before, did_not_catch, build_recap_message, out_of_scope_asr_error, unclear, before_history,
  unheard, before_engine, engine_input, load_history,
}

-- How one world comes from another when a request stores just these turns itself: others commit, the
-- engine is run, a turn goes to the end, or something else than the transcript is written.
pub data Storing {Raw Audio : Type 0} (deps : IntakeDeps Raw Audio)
    : List ConversationTurn → World → World → Type 0 where
  done : (w : World) → Storing deps [] w w
  others_step :
      (wait : Wait) (ts : List ConversationTurn) (w w' : World)
      → Storing deps ts (deps.meanwhile wait w) w'
      → Storing deps ts w w'
  engine_step :
      (input : DialogueTurnInput Raw) (ts : List ConversationTurn) (w w' : World)
      → Storing deps ts (deps.engine input w).1 w'
      → Storing deps ts w w'
  turn_step :
      (t : ConversationTurn) (ts : List ConversationTurn) (w w' : World)
      → Storing deps ts
          (record w {
            db = record (w.db) { conversation_turns = w.db.conversation_turns ++ t ∷ [] };
          })
          w'
      → Storing deps (t ∷ ts) w w'
  other_step :
      (ts : List ConversationTurn) (w m w' : World)
      → m.db.conversation_turns ≡ w.db.conversation_turns
      → Storing deps ts m w'
      → Storing deps ts w w'

-- The turns of a response are those that its request stored, and the last is the answer.
pub record Told {Raw Audio : Type 0} (deps : IntakeDeps Raw Audio) (w w' : World)
    (x : IntakeTurnResponse) : Type 0 where
  pub stored : Storing deps x.turns w w'
  pub earlier : List ConversationTurn
  pub answer : ConversationTurn
  pub ends_with : x.turns ≡ earlier ++ answer ∷ []
  pub says : answer.transcript ≡ x.assistant_message

module _ {Raw Audio : Type 0} (deps : IntakeDeps Raw Audio) (r v : Key) where
  open deps use {engine, tools, meanwhile}

  abbrev kept : ConversationTurn → World → World
  kept t w = record w {
    db = record (w.db) { conversation_turns = w.db.conversation_turns ++ t ∷ [] };
  }

  abbrev system_turn : String → World → ConversationTurn
  system_turn message w = new_turn documented deps r v ConversationRole.system message w

  -- An answer of the service: its turn is stored, and the response ends with it.
  abbrev Answered : List ConversationTurn → World → World → IntakeTurnResponse → Type 0
  Answered preceding w w' x =
      (t : ConversationTurn) × Storing deps (t ∷ []) w w'
      × (x.turns ≡ preceding ++ t ∷ [])
      × (t.transcript ≡ x.assistant_message)

  reread-Storing : (w w' : World) → w' ≡ meanwhile before_reread w → Storing deps [] w w'
  reread-Storing w w' e = rw e (
      others_step before_reread [] w (meanwhile before_reread w) (done (meanwhile before_reread w)))

  stored-Storing :
      (t : ConversationTurn) (w w' : World)
      → Storing deps [] (kept t (meanwhile before_answer w)) w'
      → Storing deps (t ∷ []) w w'
  stored-Storing t w w' s =
      others_step before_answer (t ∷ []) w w' (turn_step t [] (meanwhile before_answer w) w' s)

  refreshed-Storing :
      (w m w' : World)
      → m.db.conversation_turns ≡ (meanwhile before_refresh w).db.conversation_turns
      → w' ≡ meanwhile before_reread m
      → Storing deps [] w w'
  refreshed-Storing w m w' same e =
      others_step before_refresh [] w w'
        (other_step [] (meanwhile before_refresh w) m w' same (reread-Storing m w' e))

  respond_told :
      (message : String) (reengaged : Bool) (preceding : List ConversationTurn) (w w' : World)
      (x : IntakeTurnResponse)
      → respond_with_system_turn documented deps r v message reengaged preceding w ≡ (ok x, w')
      → Answered preceding w w' x
  unfolding respond_with_system_turn get_visit_or_throw
  respond_told message true preceding w w' x h =
      let t = system_turn message (meanwhile before_answer w) in
      let b = kept t (meanwhile before_answer w) in
      let d = (restart_window documented deps r v b).1 in
      elim (Option-cases (visit_at r v (meanwhile before_reread d))) [
        | inl e ↦ absurd (ground arith)
        | inr (row, e) ↦
            let ended : w' ≡ meanwhile before_reread d = ground arith in
            (
              t,
              stored-Storing t w w' (refreshed-Storing b d w' refl ended),
              ground arith,
              ground arith,
            )
      ]
  respond_told message false preceding w w' x h =
      let t = system_turn message (meanwhile before_answer w) in
      let b = kept t (meanwhile before_answer w) in
      elim (Option-cases (visit_at r v (meanwhile before_reread b))) [
        | inl e ↦ absurd (ground arith)
        | inr (row, e) ↦
            let ended : w' ≡ meanwhile before_reread b = ground arith in
            (t, stored-Storing t w w' (reread-Storing b w' ended), ground arith, ground arith)
      ]

  engine_told :
      (customer_turn : ConversationTurn) (result : Result (DialogueTurnOutput Raw)) (w w' : World)
      (x : IntakeTurnResponse)
      → after_engine documented deps r v customer_turn result w ≡ (ok x, w')
      → Answered (customer_turn ∷ []) w w' x
  unfolding after_engine get_visit_or_throw
  engine_told customer_turn (err e) w w' x h =
      respond_told llm_unavailable_message false (customer_turn ∷ []) w w' x h
  engine_told customer_turn (ok out) w w' x h =
      let t = system_turn out.assistant_message (meanwhile before_answer w) in
      let b = kept t (meanwhile before_answer w) in
      let d = (restart_window documented deps r v b).1 in
      elim (Option-cases (visit_at r v (meanwhile before_reread d))) [
        | inl e ↦ absurd (ground arith)
        | inr (row, e) ↦
            let ended : w' ≡ meanwhile before_reread d = ground arith in
            (
              t,
              stored-Storing t w w' (refreshed-Storing b d w' refl ended),
              ground arith,
              ground arith,
            )
      ]

  Answered-Told : (w w' : World) (x : IntakeTurnResponse) → Answered [] w w' x → Told deps w w' x
  Answered-Told w w' x (t, s, e, f) = record {
    stored = rw e s;
    earlier = [];
    answer = t;
    ends_with = e;
    says = f;
  }

  text-Told :
      (visit : VisitWithItemsAndTable) (text : String) (w w' : World) (x : IntakeTurnResponse)
      → answer_text documented deps r v visit text w ≡ (ok x, w')
      → Told deps w w' x
  unfolding answer_text
  text-Told visit text w w' x h =
      let a = meanwhile before_customer_turn w in
      let heard = new_turn documented deps r v ConversationRole.customer text a in
      let m = kept heard a in
      let told : Answered (heard ∷ []) m w' x → Told deps w w' x = λ (t, s, e, f). record {
        stored = rw e (
            others_step before_customer_turn (heard ∷ t ∷ []) w w'
              (turn_step heard (t ∷ []) a w' s));
        earlier = heard ∷ [];
        answer = t;
        ends_with = e;
        says = f;
      } in
      elim (Bool-cases (is_before tools.now visit.visit.draft_expires_at)) [
        | inl late ↦ told (
            respond_told (build_recap_message deps.show_number (to_visit_draft_dto visit)) true
              (heard ∷ []) m w' x (rw late at h))
        | inr live ↦
            let read = meanwhile before_history m in
            let asked = meanwhile before_engine read in
            let input =
              engine_input documented deps r v text (load_history documented deps r v read) in
            let (t, s, e, f) =
              engine_told heard (engine input asked).0 (engine input asked).1 w' x (rw live at h) in
            told (
              t,
              others_step before_history (t ∷ []) m w' (
                  others_step before_engine (t ∷ []) read w'
                    (engine_step input (t ∷ []) asked w' s)),
              e,
              f,
            )
      ]

  heard-Told :
      (visit : VisitWithItemsAndTable) (heard : Heard) (w w' : World) (x : IntakeTurnResponse)
      → answer_heard documented deps r v visit heard w ≡ (ok x, w')
      → Told deps w w' x
  heard-Told visit (said text) w w' x h = text-Told visit text w w' x h
  heard-Told visit unclear w w' x h =
      Answered-Told w w' x (respond_told did_not_catch false [] w w' x h)
  heard-Told visit unheard w w' x h =
      Answered-Told w w' x (respond_told out_of_scope_asr_error false [] w w' x h)

  turn-Told :
      (request : IntakeTurnRequest Audio) (w w' : World) (x : IntakeTurnResponse)
      → process_turn documented deps r v request w ≡ (ok x, w')
      → Told deps w w' x
  unfolding process_turn get_visit_or_throw
  turn-Told request w w' x h = elim (Option-cases (visit_at r v w)) [
    | inl e ↦ absurd (ground arith)
    | inr (row, e) ↦ heard-Told (with_items_and_table documented row w) _ w w' x (rw e at h)
  ]

-- A response shows just what its own request stored: on every branch, the speech provider's failures,
-- an expired draft and a failed engine included, and whatever others commit at each wait, the turns of
-- a response are the turns that the request itself stored beside its engine, in their order, and the
-- last of them says what the response says.
pub process_turn-Told :
    {Raw Audio : Type 0} (c : Client)
    → IsDocumented c
    → (deps : IntakeDeps Raw Audio) (r v : Key) (request : IntakeTurnRequest Audio) (w w' : World)
      (x : IntakeTurnResponse)
    → process_turn c deps r v request w ≡ (ok x, w')
    → Told deps w w' x
process_turn-Told c l =
    rw (client-eq c l) λ deps r v request w w' x h. turn-Told deps r v request w w' x h
