-- ===== src/Chat/Events.antt =====
-- Every event keeps what is known of the conversation.
use raise.Chat.Known.{
  token_list, IssuedCreds, NoCreds, running, Handed, Spoken, Holds, silent, spoken, take_out-All,
  creds-NoCreds, creds-Issued, quiet-Issued, later-Issued, later-Turn, Handed-weaken, submit-silent,
  submit-spoken, either-Holds,
}
use raise.Panel.{Text, is_empty}
use raise.Store.{Key}
use raise.Chat.{
  Creds, TurnResponse, Chat, TurnRequest, take_out, chat, submit_turn, handle_text_submit,
  ChatEvent, picks, starts_with, start_fails, types_text, microphone_given, microphone_denied,
  audio_read, turn_answered, turn_fails, submits_text, presses_record, presses_stop, creds_of,
  stop_recorder, started, is_voice, turn_done, voice_payload, failed, mounted, chat_all,
}
use raise.Prelude.{
  [], ◌∷◌, List, All, ℕ, some, ◌≡◌, none, false, inl, inr, refl, Option, true, Bool, All-weaken,
  if◌then◌else◌, arith, ◌||◌, not, Option-cases, ap,
}
use mathlib.Core.Path.{subst}

module _ (trim : Text → Text) (no_microphone : Text) where
  handed-on :
      (c : Chat)
      → Holds c
      → Holds (record c { asked = creds_of c.visit_id c.draft_token ∷ c.asked })
  handed-on c (silent s h) = silent s (record {
    asking = (creds-NoCreds c.visit_id c.draft_token s.no_visit, h.asking);
    recorded = h.recorded;
    reading = h.reading;
  })
  handed-on c (spoken v r rs b s h) = spoken v r rs b s (record {
    asking = (
      creds-Issued v r.draft_token (token_list rs) c.visit_id c.draft_token s.visit_kept
          s.last_token,
      h.asking,
    );
    recorded = h.recorded;
    reading = h.reading;
  })

  typed-Holds : (c : Chat) → Holds c → Holds (handle_text_submit trim no_microphone c)
  unfolding handle_text_submit
  typed-Holds c (silent s h) = either-Holds (is_empty (trim c.text_value)) c _ (silent s h) (
      submit-silent _ (creds_of c.visit_id c.draft_token) (record c { text_value = [] })
        (creds-NoCreds c.visit_id c.draft_token s.no_visit) (silent s h))
  typed-Holds c (spoken v r rs b s h) =
      either-Holds (is_empty (trim c.text_value)) c _ (spoken v r rs b s h) (
        submit-spoken _ (creds_of c.visit_id c.draft_token) (record c { text_value = [] }) v r rs
          (creds-Issued v r.draft_token (token_list rs) c.visit_id c.draft_token s.visit_kept
            s.last_token)
          b s h)

  started-Holds : (x : TurnResponse) (c : Chat) → c.starting ≡ true → Holds c → Holds (started x c)
  started-Holds x c b (silent s h) =
      spoken x.visit_id x [] refl
        (record {
          visit_kept = refl;
          was_started = refl;
          last_token = refl;
          last_draft = refl;
          all_turns = refl;
          answers = rw s.no_answer refl;
          issued = rw s.none_sent tt;
        })
        (Handed-weaken NoCreds _ (quiet-Issued x.visit_id (x.draft_token ∷ [])) c.asked c.recorder
          c.stopped h)
  started-Holds x c b (spoken v r rs n s h) = absurd (ground arith)

  stop-Holds : (k : Option Creds) (c : Chat) → c.recorder ≡ k → Holds c → Holds (stop_recorder k c)
  stop-Holds none c e (silent s h) = silent s h
  stop-Holds none c e (spoken v r rs b s h) = spoken v r rs b s h
  stop-Holds (some k) c e (silent s h) = silent s (record {
    asking = h.asking;
    recorded = h.recorded;
    reading = ((subst (λ o. All NoCreds (running o)) e h.recorded).0, h.reading);
  })
  stop-Holds (some k) c e (spoken v r rs b s h) = spoken v r rs b s (record {
    asking = h.asking;
    recorded = h.recorded;
    reading = (
      (subst (λ o. All (IssuedCreds v (token_list (r ∷ rs))) (running o)) e h.recorded).0,
      h.reading,
    );
  })

  given-Holds :
      (i : ℕ) (c : Chat) → Holds c → Holds (chat trim no_microphone (microphone_given i) c)
  unfolding chat
  given-Holds i c (silent s h) = elim (take_out-All NoCreds i c.asked h.asking) [
    | inl e ↦ rw e (silent s h)
    | inr (k, rest, e, p, a) ↦
        rw e (silent s (record { asking = a; recorded = (p, tt); reading = h.reading }))
  ]
  given-Holds i c (spoken v r rs b s h) =
      elim (take_out-All (IssuedCreds v (token_list (r ∷ rs))) i c.asked h.asking) [
        | inl e ↦ rw e (spoken v r rs b s h)
        | inr (k, rest, e, p, a) ↦
            rw e
              (spoken v r rs b s (record { asking = a; recorded = (p, tt); reading = h.reading }))
      ]

  denied-Holds :
      (i : ℕ) (c : Chat) → Holds c → Holds (chat trim no_microphone (microphone_denied i) c)
  unfolding chat
  denied-Holds i c (silent s h) = elim (take_out-All NoCreds i c.asked h.asking) [
    | inl e ↦ rw e (silent s h)
    | inr (k, rest, e, p, a) ↦
        rw e (silent s (record { asking = a; recorded = h.recorded; reading = h.reading }))
  ]
  denied-Holds i c (spoken v r rs b s h) =
      elim (take_out-All (IssuedCreds v (token_list (r ∷ rs))) i c.asked h.asking) [
        | inl e ↦ rw e (spoken v r rs b s h)
        | inr (k, rest, e, p, a) ↦
            rw e (
              spoken v r rs b s (record { asking = a; recorded = h.recorded; reading = h.reading }))
      ]

  read-Holds :
      (i : ℕ) (audio : Key) (c : Chat)
      → Holds c
      → Holds (chat trim no_microphone (audio_read i audio) c)
  unfolding chat
  read-Holds i audio c (silent s h) = elim (take_out-All NoCreds i c.stopped h.reading) [
    | inl e ↦ rw e (silent s h)
    | inr (k, rest, e, p, a) ↦ rw e (
        submit-silent (voice_payload audio) k (record c { stopped = rest }) p
          (silent s (record { asking = h.asking; recorded = h.recorded; reading = a })))
  ]
  read-Holds i audio c (spoken v r rs b s h) =
      elim (take_out-All (IssuedCreds v (token_list (r ∷ rs))) i c.stopped h.reading) [
        | inl e ↦ rw e (spoken v r rs b s h)
        | inr (k, rest, e, p, a) ↦ rw e (
            submit-spoken (voice_payload audio) k (record c { stopped = rest }) v r rs p b s
              (record { asking = h.asking; recorded = h.recorded; reading = a }))
      ]

  done-Holds :
      (x : TurnResponse) (q : TurnRequest) (rest : List TurnRequest) (v : Key) (r : TurnResponse)
      (rs : List TurnResponse) (c : Chat)
      → c.starting ≡ false
      → Spoken v r rs c.visit_id c.draft_token c.draft c.turns c.sent c.responses
      → Handed (IssuedCreds v (token_list (r ∷ rs))) c.asked c.recorder c.stopped
      → Holds (turn_done x q rest c)
  done-Holds x q rest v r rs c b s h =
      spoken v x (r ∷ rs) b
        (record {
          visit_kept = s.visit_kept;
          was_started = s.was_started;
          last_token = refl;
          last_draft = refl;
          all_turns = rw s.all_turns refl;
          answers = rw s.answers refl;
          issued =
              All-weaken _ _ (later-Turn v x.draft_token (token_list (r ∷ rs))) c.sent s.issued;
        })
        (Handed-weaken _ _ (later-Issued v x.draft_token (token_list (r ∷ rs))) c.asked c.recorder
          c.stopped h)

  answered-Holds :
      (i : ℕ) (x : TurnResponse) (c : Chat)
      → Holds c
      → Holds (chat trim no_microphone (turn_answered i x) c)
  unfolding chat
  answered-Holds i x c (silent s h) = rw (ap (take_out i) s.no_pending) (silent s h)
  answered-Holds i x c (spoken v r rs b s h) = elim (Option-cases (take_out i c.pending)) [
    | inl e ↦ rw e (spoken v r rs b s h)
    | inr ((q, rest), e) ↦ rw e (done-Holds x q rest v r rs c b s h)
  ]

  lost-Holds :
      (i : ℕ) (m : Text) (c : Chat) → Holds c → Holds (chat trim no_microphone (turn_fails i m) c)
  unfolding chat
  lost-Holds i m c (silent s h) = rw (ap (take_out i) s.no_pending) (silent s h)
  lost-Holds i m c (spoken v r rs b s h) = elim (Option-cases (take_out i c.pending)) [
    | inl e ↦ rw e (spoken v r rs b s h)
    | inr ((q, rest), e) ↦ rw e (spoken v r rs b s h)
  ]

  not_started : (t : Text) (c : Chat) → Holds c → Holds (failed t (record c { starting = false }))
  not_started t c (silent s h) = silent s h
  not_started t c (spoken v r rs b s h) = spoken v r rs refl s h

  retyped : (t : Text) (c : Chat) → Holds c → Holds (record c { text_value = t })
  retyped t c (silent s h) = silent s h
  retyped t c (spoken v r rs b s h) = spoken v r rs b s h

  begin-Holds :
      (b : Bool) (x : TurnResponse) (c : Chat)
      → c.starting ≡ b
      → Holds c
      → Holds (if b then started x c else c)
  begin-Holds true x c e h = started-Holds x c e h
  begin-Holds false x c e h = h

  chat-Holds : (e : ChatEvent) (c : Chat) → Holds c → Holds (chat trim no_microphone e c)
  unfolding chat submit_turn handle_text_submit
  chat-Holds (picks m) c (silent s h) = silent s h
  chat-Holds (picks m) c (spoken v r rs b s h) = spoken v r rs b s h
  chat-Holds (starts_with x) c h = begin-Holds c.starting x c refl h
  chat-Holds (start_fails t) c h = either-Holds c.starting _ c (not_started t c h) h
  chat-Holds (types_text t) c h = either-Holds (is_voice c.mode || c.busy) c _ h (retyped t c h)
  chat-Holds submits_text c h = either-Holds (is_voice c.mode || c.busy) c _ h (typed-Holds c h)
  chat-Holds presses_record c h =
      either-Holds (not (is_voice c.mode) || c.busy || c.recording) c _ h (handed-on c h)
  chat-Holds presses_stop c h =
      either-Holds (not (is_voice c.mode) || c.busy || not c.recording) c _ h
        (stop-Holds c.recorder c refl h)
  chat-Holds (microphone_given i) c h = given-Holds i c h
  chat-Holds (microphone_denied i) c h = denied-Holds i c h
  chat-Holds (audio_read i audio) c h = read-Holds i audio c h
  chat-Holds (turn_answered i x) c h = answered-Holds i x c h
  chat-Holds (turn_fails i m) c h = lost-Holds i m c h

  pub chat_all-Holds :
      (es : List ChatEvent) (c : Chat) → Holds c → Holds (chat_all trim no_microphone es c)
  chat_all-Holds [] c h = h
  chat_all-Holds (e ∷ es) c h = chat_all-Holds es (chat trim no_microphone e c) (chat-Holds e c h)

pub mounted-Holds : Holds mounted
mounted-Holds =
    silent
      (record {
        no_visit = refl;
        no_token = refl;
        no_draft = refl;
        no_turns = refl;
        no_pending = refl;
        none_sent = refl;
        no_answer = refl;
      })
      (record { asking = tt; recorded = tt; reading = tt })
