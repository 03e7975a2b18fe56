-- ===== src/Examples/Chat.antt =====
-- apps/customer/src/components/intake-chat.tsx for a guest who speaks, and types before the recording is read.
use raise.Chat.{
  chat, chat_all, handle_text_submit, ChatEvent, TurnResponse, starts_with, submit_turn, mounted,
  picks, voice_mode, presses_record, microphone_given, presses_stop, text_mode, types_text,
  submits_text, audio_read, turn_answered,
}
use raise.Chat.Conversation.{Faithful, chat_all-Faithful}
use raise.Store.{Key}
use raise.Panel.{Text}
use raise.Prelude.{[], ◌∷◌, refl, List, length, ◌≡◌}

abbrev answer_with : Key → Key → List Key → TurnResponse
answer_with token draft turns = record {
  visit_id = 10;
  draft_token = token;
  draft = draft;
  turns = turns;
}

abbrev spoken_and_typed : List ChatEvent
spoken_and_typed =
    starts_with (answer_with 900 1 (100 ∷ []))
    ∷ picks voice_mode
    ∷ presses_record
    ∷ microphone_given 0
    ∷ presses_stop
    ∷ picks text_mode
    ∷ types_text (7 ∷ [])
    ∷ submits_text
    ∷ audio_read 0 44
    ∷ []

abbrev whole_chat : List ChatEvent
whole_chat =
    starts_with (answer_with 900 1 (100 ∷ []))
    ∷ picks voice_mode
    ∷ presses_record
    ∷ microphone_given 0
    ∷ presses_stop
    ∷ picks text_mode
    ∷ types_text (7 ∷ [])
    ∷ submits_text
    ∷ audio_read 0 44
    ∷ turn_answered 1 (answer_with 901 2 (101 ∷ 102 ∷ []))
    ∷ turn_answered 0 (answer_with 902 3 (103 ∷ []))
    ∷ []

abbrev kept_text : Text → Text
kept_text t = t

-- The recording and the typed text are under way together.
spoken_and_typed-pending : length (chat_all kept_text [] spoken_and_typed mounted).pending ≡ 2
unfolding chat handle_text_submit submit_turn
spoken_and_typed-pending = refl

whole_chat-turns : (chat_all kept_text [] whole_chat mounted).turns ≡ 100 ∷ 101 ∷ 102 ∷ 103 ∷ []
unfolding chat handle_text_submit submit_turn
whole_chat-turns = refl

chat_all-Faithful_example : Faithful (chat_all kept_text [] whole_chat mounted)
chat_all-Faithful_example = chat_all-Faithful kept_text [] whole_chat
