-- ===== src/Examples/Drafts.antt =====
-- The routes of apps/api/src/intake/intake.controller.ts for a guest with the token of draft 10.
use raise.Examples.Turns.{deps}
use raise.Examples.Auth.{secret, library, request_with}
use raise.Examples.{evening}
use raise.Http.Drafts.{
  DraftReply, Drafted, draft_handler, handle_draft, get_state_route, handle_draft-Drafted,
}
use raise.Prelude.{◌≡◌, ◌⊎◌, refl, some, none}
use raise.Store.{documented}
use raise.World.{World, Result, err, not_found}

abbrev shown_draft : Result DraftReply × World
shown_draft =
    handle_draft documented deps secret library get_state_route (request_with (some 80) none)
      evening

handle_draft-Drafted_example :
    (¬ (Drafted secret library (request_with (some 80) none))
      × (shown_draft.0 ≡ err not_found)
      × (shown_draft.1 ≡ evening))
    ⊎ (Drafted secret library (request_with (some 80) none)
        × (draft_handler documented deps get_state_route 1 10 evening
            ≡ (shown_draft.0, shown_draft.1)))
handle_draft-Drafted_example =
    handle_draft-Drafted documented deps secret library get_state_route
      (request_with (some 80) none) evening shown_draft.1 shown_draft.0 refl
