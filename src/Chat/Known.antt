-- ===== src/Chat/Known.antt =====
-- What is known of a conversation at each moment, and how it grows.
use raise.Store.{Key}
use raise.Chat.{Creds, TurnResponse, Chat, TurnRequest, take_out, submit_turn, creds_of, Payload}
use raise.Prelude.{
  [], ◌∷◌, List, All, ◌++◌, ℕ, map, some, ◌≡◌, none, false, ◌⊎◌, inl, inr, suc, refl, zero, Option,
  true, Bool, All-weaken, if◌then◌else◌,
}
use mathlib.Core.List.{Memᴰ}
use mathlib.Core.List.Memᴰ.{head, tail}

abbrev pub token_list : List TurnResponse → List Key
token_list rs = map (λ r. r.draft_token) rs

-- The lines of all answers, in the order of their arrival.
abbrev pub transcript : List TurnResponse → List Key
transcript [] = []
transcript (r ∷ rs) = transcript rs ++ r.turns

-- The visit of the first answer, the one to the start.
abbrev pub started_visit : List TurnResponse → Option Key
started_visit [] = none
started_visit (r ∷ []) = some r.visit_id
started_visit (r ∷ s ∷ rs) = started_visit (s ∷ rs)

-- Of the visit that was started, with a token that was issued.
abbrev pub Issued : Key → List Key → Key × Key → Type 0
Issued v tokens k = (k.0 ≡ v) × Memᴰ k.1 tokens

abbrev pub IssuedTurn : Key → List Key → TurnRequest → Type 0
IssuedTurn v tokens q = Issued v tokens (q.visit_id, q.draft_token)

abbrev pub IssuedCreds : Key → List Key → Creds → Type 0
IssuedCreds v tokens none = Unit {0}
IssuedCreds v tokens (some k) = Issued v tokens k

-- Before there is a visit nothing can be sent.
abbrev pub NoCreds : Creds → Type 0
NoCreds k = k ≡ none

pub take_out-All :
    {A : Type 0} (P : A → Type 0) (i : ℕ) (xs : List A)
    → All P xs
    → (take_out i xs ≡ none)
      ⊎ ((x : A) × (rest : List A) × (take_out i xs ≡ some (x, rest)) × P x × All P rest)
take_out-All P i [] a = inl refl
take_out-All P zero (x ∷ xs) (p, a) = inr (x, xs, refl, p, a)
take_out-All P (suc i) (x ∷ xs) (p, a) = elim (take_out-All P i xs a) [
  | inl e ↦ inl (rw e refl)
  | inr (y, ys, e, q, b) ↦ inr (y, x ∷ ys, rw e refl, q, (p, b))
]

abbrev pub running : Option Creds → List Creds
running none = []
running (some k) = k ∷ []

-- Everything that a render has handed on.
pub record Handed (P : Creds → Type 0) (asked : List Creds) (recorder : Option Creds)
    (stopped : List Creds) : Type 0 where
  pub asking : All P asked
  pub recorded : All P (running recorder)
  pub reading : All P stopped

-- No visit: the start is awaited, or it failed.
pub record Silent (visit token draft : Option Key) (turns : List Key)
    (pending sent : List TurnRequest) (responses : List TurnResponse) : Type 0 where
  pub no_visit : visit ≡ none
  pub no_token : token ≡ none
  pub no_draft : draft ≡ none
  pub no_turns : turns ≡ []
  pub no_pending : pending ≡ []
  pub none_sent : sent ≡ []
  pub no_answer : responses ≡ []

-- A visit: what is shown and what was sent comes from the answers, the last of them `r`.
pub record Spoken (v : Key) (r : TurnResponse) (rs : List TurnResponse)
    (visit token draft : Option Key) (turns : List Key) (sent : List TurnRequest)
    (responses : List TurnResponse) : Type 0 where
  pub visit_kept : visit ≡ some v
  pub was_started : started_visit (r ∷ rs) ≡ some v
  pub last_token : token ≡ some r.draft_token
  pub last_draft : draft ≡ some r.draft
  pub all_turns : turns ≡ transcript (r ∷ rs)
  pub answers : responses ≡ r ∷ rs
  pub issued : All (IssuedTurn v (token_list (r ∷ rs))) sent

pub data Holds (c : Chat) : Type 0 where
  silent :
      Silent c.visit_id c.draft_token c.draft c.turns c.pending c.sent c.responses
      → Handed NoCreds c.asked c.recorder c.stopped
      → Holds c
  spoken :
      (v : Key) (r : TurnResponse) (rs : List TurnResponse)
      → c.starting ≡ false
      → Spoken v r rs c.visit_id c.draft_token c.draft c.turns c.sent c.responses
      → Handed (IssuedCreds v (token_list (r ∷ rs))) c.asked c.recorder c.stopped
      → Holds c

pub creds-NoCreds : (visit token : Option Key) → visit ≡ none → NoCreds (creds_of visit token)
creds-NoCreds visit token e = rw e refl

pub creds-Issued :
    (v t : Key) (tokens : List Key) (visit token : Option Key)
    → visit ≡ some v
    → token ≡ some t
    → IssuedCreds v (t ∷ tokens) (creds_of visit token)
creds-Issued v t tokens visit token e f = rw e (rw f (refl, head refl))

pub quiet-Issued : (v : Key) (tokens : List Key) (k : Creds) → NoCreds k → IssuedCreds v tokens k
quiet-Issued v tokens k e = rw e tt

pub later-Issued :
    (v t : Key) (tokens : List Key) (k : Creds)
    → IssuedCreds v tokens k
    → IssuedCreds v (t ∷ tokens) k
later-Issued v t tokens none a = tt
later-Issued v t tokens (some k) (e, m) = (e, tail m)

pub later-Turn :
    (v t : Key) (tokens : List Key) (q : TurnRequest)
    → IssuedTurn v tokens q
    → IssuedTurn v (t ∷ tokens) q
later-Turn v t tokens q (e, m) = (e, tail m)

pub Handed-weaken :
    (P Q : Creds → Type 0)
    → ((k : Creds) → P k → Q k)
    → (asked : List Creds) (recorder : Option Creds) (stopped : List Creds)
    → Handed P asked recorder stopped
    → Handed Q asked recorder stopped
Handed-weaken P Q f asked recorder stopped h = record {
  asking = All-weaken P Q f asked h.asking;
  recorded = All-weaken P Q f (running recorder) h.recorded;
  reading = All-weaken P Q f stopped h.reading;
}

pub submit-silent :
    (payload : Payload) (k : Creds) (c : Chat)
    → NoCreds k
    → Holds c
    → Holds (submit_turn payload k c)
unfolding submit_turn
submit-silent payload k c e h = rw e h

pub submit-spoken :
    (payload : Payload) (k : Creds) (c : Chat) (v : Key) (r : TurnResponse) (rs : List TurnResponse)
    → IssuedCreds v (token_list (r ∷ rs)) k
    → c.starting ≡ false
    → Spoken v r rs c.visit_id c.draft_token c.draft c.turns c.sent c.responses
    → Handed (IssuedCreds v (token_list (r ∷ rs))) c.asked c.recorder c.stopped
    → Holds (submit_turn payload k c)
unfolding submit_turn
submit-spoken payload none c v r rs i b s h = spoken v r rs b s h
submit-spoken payload (some (x, t)) c v r rs i b s h =
    spoken v r rs b
      (record {
        visit_kept = s.visit_kept;
        was_started = s.was_started;
        last_token = s.last_token;
        last_draft = s.last_draft;
        all_turns = s.all_turns;
        answers = s.answers;
        issued = (i, s.issued);
      })
      h

pub either-Holds : (b : Bool) (x y : Chat) → Holds x → Holds y → Holds (if b then x else y)
either-Holds true x y p q = p
either-Holds false x y p q = q
