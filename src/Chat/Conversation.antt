-- ===== src/Chat/Conversation.antt =====
-- The conversation is the server's: what the page shows and what it sends comes from its answers.
use raise.Chat.Known.{token_list, transcript, IssuedTurn, Holds, silent, spoken, started_visit}
use raise.Chat.Events.{chat_all-Holds, mounted-Holds}
use raise.Panel.{Text}
use raise.Store.{Key}
use raise.Chat.{TurnResponse, Chat, ChatEvent, mounted, chat_all}
use raise.Prelude.{[], ◌∷◌, List, All, some, ◌≡◌, none}

-- What the page shows and sends, given the answers it got.
pub data Faithful (c : Chat) : Type 0 where
  unanswered : c.draft ≡ none → c.turns ≡ [] → c.sent ≡ [] → c.responses ≡ [] → Faithful c
  answered :
      (v : Key) (r : TurnResponse) (rs : List TurnResponse)
      → c.responses ≡ r ∷ rs
      → c.draft ≡ some r.draft
      → c.draft_token ≡ some r.draft_token
      → c.turns ≡ transcript (r ∷ rs)
      → started_visit (r ∷ rs) ≡ some v
      → c.visit_id ≡ some v
      → All (IssuedTurn v (token_list (r ∷ rs))) c.sent
      → Faithful c

Holds-Faithful : (c : Chat) → Holds c → Faithful c
Holds-Faithful c (silent s h) = unanswered s.no_draft s.no_turns s.none_sent s.no_answer
Holds-Faithful c (spoken v r rs b s h) =
    answered v r rs s.answers s.last_draft s.last_token s.all_turns s.was_started s.visit_kept
      s.issued

-- Whatever the guest does and in whatever order the routes, the microphone and the recordings
-- answer, the page shows the draft of the last answer and the lines of all answers in the order of
-- their arrival, and every turn it sent named the visit of the first answer, the one to its start,
-- with a token that some answer had issued; before the first answer it shows and sends nothing.
pub chat_all-Faithful :
    (trim : Text → Text) (no_microphone : Text) (es : List ChatEvent)
    → Faithful (chat_all trim no_microphone es mounted)
chat_all-Faithful trim no_microphone es =
    Holds-Faithful _ (chat_all-Holds trim no_microphone es mounted mounted-Holds)
