-- ===== src/Auth/Otp.antt =====
-- apps/api/src/auth/otp/dev-otp.provider.ts: one-time codes held in memory. The hash library is a
-- parameter; the code that is drawn is an argument of `send_code`.
use raise.Realtime.Rooms.{eq_of_test}
use raise.Schema.{Instant}
use raise.Prelude.{
  ℤ, List, Option, pos, Bool, any, ◌≡◌, false, some, none, ◌==◌, leb_ℤ, if◌then◌else◌, arith,
  Option-cases, ◌+ℤ◌, Bool-cases, ◌&&◌, true, ltb_ℤ, inl, inr, refl, ◌∷◌, [],
}
use raise.Store.{Key, put}

pub record Challenge : Type 0 where
  pub code_hash : Key
  pub expires_at : Instant

-- One call of `verifyCode`.
pub record Guess : Type 0 where
  pub at : Instant
  pub phone : Key
  pub code : Key

-- The `Map` from telephone numbers to challenges.
abbrev pub Challenges : Type 0
Challenges = Key → Option Challenge

abbrev pub code_ttl_ms : ℤ
code_ttl_ms = pos 300000

module _ (hash : Key → Key) where
  unfoldable pub send_code : Instant → Key → Key → Challenges → Challenges
  send_code now phone code s =
      put s phone (some (record { code_hash = hash code; expires_at = now +ℤ code_ttl_ms }))

  abbrev check_code : Instant → Key → Key → Option Challenge → Challenges → Bool × Challenges
  check_code now phone code none s = (false, s)
  check_code now phone code (some challenge) s =
      if ltb_ℤ challenge.expires_at now
      then (false, s)
      else if challenge.code_hash == hash code
      then (true, put s phone none)
      else (false, s)

  unfoldable pub verify_code : Instant → Key → Key → Challenges → Bool × Challenges
  verify_code now phone code s = check_code now phone code (s phone) s

  abbrev pub guess_all : List Guess → Challenges → Challenges
  guess_all [] s = s
  guess_all (g ∷ gs) s = guess_all gs (verify_code g.at g.phone g.code s).1

  -- A guess that names this telephone number with a code of this hash.
  abbrev pub is_right : Key → Key → Guess → Bool
  is_right phone code g = g.phone == phone && hash g.code == hash code

module _ (hash : Key → Key) (phone : Key) where
  guess-none :
      (now : Instant) (other code : Key) (s : Challenges)
      → s phone ≡ none
      → (verify_code hash now other code s).1 phone ≡ none
  unfolding verify_code
  guess-none now other code s e = elim (Option-cases (s other)) [
    | inl f ↦ ground arith
    | inr (x, f) ↦ ground arith
  ]

  guesses-none :
      (gs : List Guess) (s : Challenges) → s phone ≡ none → guess_all hash gs s phone ≡ none
  guesses-none [] s e = e
  guesses-none (g ∷ gs) s e =
      guesses-none gs (verify_code hash g.at g.phone g.code s).1
        (guess-none g.at g.phone g.code s e)

  guess-kept :
      (code : Key) (x : Challenge) (g : Guess) (s : Challenges)
      → x.code_hash ≡ hash code
      → is_right hash phone code g ≡ false
      → s phone ≡ some x
      → (verify_code hash g.at g.phone g.code s).1 phone ≡ some x
  unfolding verify_code
  guess-kept code x g s h n e = elim (Bool-cases (g.phone == phone)) [
    | inl f ↦ let same = eq_of_test g.phone phone f in ground arith
    | inr f ↦ elim (Option-cases (s g.phone)) [ inl q ↦ ground arith | inr (y, q) ↦ ground arith ]
  ]

  guesses-kept :
      (code : Key) (x : Challenge) (gs : List Guess) (s : Challenges)
      → x.code_hash ≡ hash code
      → any (is_right hash phone code) gs ≡ false
      → s phone ≡ some x
      → guess_all hash gs s phone ≡ some x
  guesses-kept code x [] s h n e = e
  guesses-kept code x (g ∷ gs) s h n e =
      guesses-kept code x gs (verify_code hash g.at g.phone g.code s).1 h (ground arith)
        (guess-kept code x g s h (ground arith) e)

  accepted_of :
      (now : Instant) (code : Key) (s : Challenges) (x : Challenge)
      → s phone ≡ some x
      → x.code_hash ≡ hash code
      → leb_ℤ now x.expires_at ≡ true
      → ((verify_code hash now phone code s).0 ≡ true)
        × ((verify_code hash now phone code s).1 phone ≡ none)
  unfolding verify_code
  accepted_of now code s x e h t = (ground arith, ground arith)

  refused_of :
      (now : Instant) (code : Key) (s : Challenges)
      → s phone ≡ none
      → (verify_code hash now phone code s).0 ≡ false
  unfolding verify_code
  refused_of now code s e = ground arith

  sent_of :
      (now : Instant) (code : Key) (s : Challenges)
      → send_code hash now phone code s phone
        ≡ some (record { code_hash = hash code; expires_at = now +ℤ code_ttl_ms })
  unfolding send_code
  sent_of now code s = ground arith

-- A code is good once: sent to a number and given back in time it is accepted, whatever wrong guesses
-- come between, by any caller and for any number; and after that no code is accepted for the number,
-- whatever is guessed, until another is sent.
pub verify_code_once :
    (hash : Key → Key) (sent now later : Instant) (phone code second : Key) (s : Challenges)
    (before after : List Guess)
    → any (is_right hash phone code) before ≡ false
    → leb_ℤ now (sent +ℤ code_ttl_ms) ≡ true
    → ((verify_code hash now phone code
          (guess_all hash before (send_code hash sent phone code s))).0
        ≡ true)
      × ((verify_code hash later phone second (
            guess_all hash after
              (verify_code hash now phone code
                (guess_all hash before (send_code hash sent phone code s))).1)).0
          ≡ false)
verify_code_once hash sent now later phone code second s before after n t =
    let kept = guesses-kept hash phone code _ before _ refl n (sent_of hash phone sent code s) in
    let (accepted, gone) = accepted_of hash phone now code _ _ kept refl t in
    (accepted, refused_of hash phone later second _ (guesses-none hash phone after _ gone))
