-- ===== src/Intake/Turns/Heeded.antt =====
-- What the engine is told of a turn, and what it is not asked.
use mathlib.Core.List.{Memᴰ}
use mathlib.Core.List.Memᴰ.{head, tail}
use mathlib.Core.List.Memᴰ
use raise.Visits.Stages.{visit_at}
use raise.Visits.{VisitWithItemsAndTable, get_visit_or_throw, with_items_and_table}
use raise.Schema.{ConversationRole, ConversationTurn, Visit}
use raise.World.{World}
use raise.Prelude.{
  String, ◌≡◌, ◌==◌, ◌&&◌, Bool, List, Bool-cases, inl, inr, arith, true, false, some, keep, refl,
  ◌∷◌, [], sym,
}
use raise.Store.{Key, documented, Client, IsDocumented, client-eq}
use raise.Intake.Turns.{
  IntakeDeps, load_history, create_turn, new_turn, after_engine, answer_text, process_turn,
  IntakeTurnRequest, is_before, said, engine_input, run_engine, resolve, before_customer_turn,
  before_history, before_engine,
}

mem_keep :
    {A : Type 0} (p : A → Bool) (a : A) (xs : List A) → p a ≡ true → Memᴰ a xs → Memᴰ a (keep p xs)
mem_keep p a [] h m = elim m [ ]
mem_keep p a (x ∷ xs) h (head e) = rw (sym e, h) (head refl)
mem_keep p a (x ∷ xs) h (tail m) =
    let found = mem_keep p a xs h m in
    elim (Bool-cases (p x)) [ inl e ↦ rw e (tail found) | inr e ↦ rw e found ]

module _ {Raw Audio : Type 0} (deps : IntakeDeps Raw Audio) (r v : Key) where
  open deps use {engine, tools, meanwhile, order_turns}

  history_lem :
      ((t : ConversationTurn) (ts : List ConversationTurn) → Memᴰ t ts → Memᴰ t (order_turns ts))
      → (text : String) (w read : World)
      → Memᴰ
          (new_turn documented deps r v ConversationRole.customer text w)
          read.db.conversation_turns
      → Memᴰ
          (record { role = ConversationRole.customer; text = text })
          (load_history documented deps r v read)
  history_lem keeps text w read m =
      let heard = new_turn documented deps r v ConversationRole.customer text w in
      let own_restaurant : r == r ≡ true = ground arith in
      let own_visit : v == v ≡ true = ground arith in
      Memᴰ.map (λ t. record { role = t.role; text = t.transcript })
        (keeps heard _ (
          mem_keep (λ t. t.restaurant_id == r && t.visit_id == v) heard read.db.conversation_turns
            (rw (own_restaurant, own_visit) refl) m))

  live_text :
      (visit : VisitWithItemsAndTable) (text : String) (w : World)
      → is_before tools.now visit.visit.draft_expires_at ≡ false
      → let before = meanwhile before_customer_turn w in
        answer_text documented deps r v visit text w
        ≡ run_engine documented deps r v text
            (new_turn documented deps r v ConversationRole.customer text before)
            (create_turn documented deps r v ConversationRole.customer text before).1
  unfolding answer_text
  live_text visit text w live = rw live

  live_turn :
      (request : IntakeTurnRequest Audio) (text : String) (row : Visit) (w : World)
      → resolve documented deps request ≡ said text
      → visit_at r v w ≡ some row
      → is_before tools.now row.draft_expires_at ≡ false
      → let before = meanwhile before_customer_turn w in
        process_turn documented deps r v request w
        ≡ run_engine documented deps r v text
            (new_turn documented deps r v ConversationRole.customer text before)
            (create_turn documented deps r v ConversationRole.customer text before).1
  unfolding process_turn get_visit_or_throw
  live_turn request text row w s e live =
      rw (e, s) (live_text (with_items_and_table documented row w) text w live)

-- What the engine is asked about a turn, typed or spoken, that was understood as a text on a draft in
-- time: it is asked that text, and the earlier turns that it is given contain the very message too,
-- since the message is kept before the transcript is read; whatever others commit in between, as long
-- as they do not take the message out again, and if the database's order only rearranges the turns.
pub process_turn-history :
    {Raw Audio : Type 0} (c : Client)
    → IsDocumented c
    → (deps : IntakeDeps Raw Audio) (r v : Key) (request : IntakeTurnRequest Audio) (text : String)
      (row : Visit) (w : World)
    → ((t : ConversationTurn) (ts : List ConversationTurn)
        → Memᴰ t ts
        → Memᴰ t (deps.order_turns ts))
    → resolve c deps request ≡ said text
    → visit_at r v w ≡ some row
    → is_before deps.tools.now row.draft_expires_at ≡ false
    → let before = deps.meanwhile before_customer_turn w in
      let heard = new_turn c deps r v ConversationRole.customer text before in
      let kept = (create_turn c deps r v ConversationRole.customer text before).1 in
      let read = deps.meanwhile before_history kept in
      let asked = deps.meanwhile before_engine read in
      let input = engine_input c deps r v text (load_history c deps r v read) in
      Memᴰ heard read.db.conversation_turns
      → (process_turn c deps r v request w
          ≡ after_engine c deps r v heard (deps.engine input asked).0 (deps.engine input asked).1)
        × (input.customer_message ≡ text)
        × Memᴰ (record { role = ConversationRole.customer; text = text }) input.history
process_turn-history c l = rw (client-eq c l) λ deps r v request text row w keeps s e live m.
    let before = deps.meanwhile before_customer_turn w in
    let kept = (create_turn documented deps r v ConversationRole.customer text before).1 in
    (
      live_turn deps r v request text row w s e live,
      refl,
      history_lem deps r v keeps text before (deps.meanwhile before_history kept) m,
    )
