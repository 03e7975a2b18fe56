-- ===== src/Auth/GuestLogin.antt =====
-- What a guest's verified telephone brings: a token that the guard of the confirmation reads as that
-- guest.
use raise.Schema.{Instant}
use raise.Auth.Otp.{
  send_code, verify_code, Challenges, Guess, guess_all, is_right, code_ttl_ms, verify_code_once,
}
use raise.Auth.Login.{
  ReadsBack, Accounts, OtpProvider, Sign, AuthState, CustomerAccount, customer_verify_otp,
  customer_request_otp, sign_customer, AccountsClient, AccountsLaws,
}
use raise.Auth.{Audience, Jwt, Request, confirm_customer_guard, customer_audience, verify_customer}
use raise.World.{World, Result, ok, err, unauthorized}
use raise.Store.{Key, put}
use raise.Prelude.{
  Option, some, true, false, ◌≡◌, refl, Option-cases, inl, inr, arith, List, any, leb_ℤ, ◌+ℤ◌, [],
  Bool-cases,
}

-- DevOtpProvider
abbrev pub dev_otp : (Key → Key) → OtpProvider Challenges
dev_otp hash = record {
  send = λ now phone draw s. send_code hash now phone draw s;
  check = λ now phone code s. verify_code hash now phone code s;
}

-- Guesses by anyone at anyone's code.
abbrev pub guessed : (Key → Key) → List Guess → AuthState Challenges → AuthState Challenges
guessed hash guesses s = record s { otp = guess_all hash guesses s.otp }

-- A guest's session, read off the answer to a code and the state after it.
pub record Session {S : Type 0} (secrets : Audience → Option Key) (jwt : Jwt) (now : Instant)
    (phone : Key) (before : Accounts) (answer : Result Key × AuthState S) : Type 0 where
  pub token : Key
  pub account : CustomerAccount
  pub answered : answer.0 ≡ ok token
  pub kept : answer.1.accounts.customers phone ≡ some account
  pub others : (p : Key) → (phone ≡ p → ⊥) → answer.1.accounts.customers p ≡ before.customers p
  pub verified : account.phone_verified_at ≡ some now
  pub read :
      (request : Request) (w : World)
      → confirm_customer_guard secrets jwt (record request { customer_token = some token }) w
        ≡ (ok (record request { customer_token = some token; customer_id = some account.id }), w)

module _ (c : AccountsClient) (l : AccountsLaws c) (secrets : Audience → Option Key) (jwt : Jwt)
    (sign : Sign) {S : Type 0} (provider : OtpProvider S) where
  customer_token_read :
      ReadsBack sign jwt
      → (secret sub : Key) → secrets customer_audience ≡ some secret
      → (request : Request) (w : World)
      → confirm_customer_guard secrets jwt
          (record request { customer_token = some (sign secret customer_audience sub) })
          w
        ≡ (
          ok (record request {
            customer_token = some (sign secret customer_audience sub);
            customer_id = some sub;
          }),
          w,
        )
  unfolding confirm_customer_guard verify_customer
  customer_token_read law secret sub e request w = rw e (rw (law secret customer_audience sub) refl)

  account-Session :
      (secret : Key) (now : Instant) (new_id phone code : Key) (s : AuthState S)
      (x : CustomerAccount)
      → ReadsBack sign jwt
      → secrets customer_audience ≡ some secret
      → (provider.check now phone code s.otp).0 ≡ true
      → x.phone_verified_at ≡ some now
      → customer_verify_otp c secrets sign provider now new_id phone code s ≡ (
        ok (sign secret customer_audience x.id),
        record {
          accounts = record (s.accounts) { customers = put (s.accounts.customers) phone (some x) };
          otp = (provider.check now phone code s.otp).1;
        },
      )
      → Session secrets jwt now phone s.accounts
          (customer_verify_otp c secrets sign provider now new_id phone code s)
  account-Session secret now new_id phone code s x law e right v q = rw q record {
    token = sign secret customer_audience x.id;
    account = x;
    answered = refl;
    kept = ground arith;
    verified = v;
    others = λ p n. ground arith;
    read = customer_token_read law secret x.id e;
  }

  verified_Session :
      (secret : Key) (now : Instant) (new_id phone code : Key) (s : AuthState S)
      → ReadsBack sign jwt
      → secrets customer_audience ≡ some secret
      → (provider.check now phone code s.otp).0 ≡ true
      → Session secrets jwt now phone s.accounts
          (customer_verify_otp c secrets sign provider now new_id phone code s)
  unfolding customer_verify_otp sign_customer
  verified_Session secret now new_id phone code s law e right =
      elim (Option-cases (s.accounts.customers phone)) [
        | inl n ↦
            account-Session secret now new_id phone code s
              (record { id = new_id; phone = phone; phone_verified_at = some now }) law e right refl
              (rw right (
                rw
                  (l.upserted phone (λ x. record x { phone_verified_at = some now })
                    (record { id = new_id; phone = phone; phone_verified_at = some now })
                    s.accounts)
                  (rw n (rw e refl))))
        | inr (x, f) ↦
            account-Session secret now new_id phone code s
              (record x { phone_verified_at = some now }) law e right refl
              (rw right (
                rw
                  (l.upserted phone (λ x. record x { phone_verified_at = some now })
                    (record { id = new_id; phone = phone; phone_verified_at = some now })
                    s.accounts)
                  (rw f (rw e refl))))
      ]

-- The two answers to a code, by what the provider of codes says of it.
pub data GuestAnswer {S : Type 0} (secrets : Audience → Option Key) (jwt : Jwt)
    (provider : OtpProvider S) (now : Instant) (phone code : Key) (s : AuthState S)
    (answer : Result Key × AuthState S) : Type 0 where
  admitted :
      (provider.check now phone code s.otp).0 ≡ true
      → Session secrets jwt now phone s.accounts answer
      → GuestAnswer secrets jwt provider now phone code s answer
  turned_away :
      (provider.check now phone code s.otp).0 ≡ false
      → answer.0 ≡ err unauthorized
      → answer.1.accounts ≡ s.accounts
      → GuestAnswer secrets jwt provider now phone code s answer

-- Whatever provider of codes there is: a code that it accepts brings the guest a token that the
-- confirmation's guard reads as the customer of that telephone number, who counts as verified from then
-- on, and no other customer is changed; a code that it does not accept brings 401 and changes no
-- customer. This holds if the database updates or inserts the customer of the number, a fresh token is
-- read back as the subject that it was signed for, and the secret is set.
pub customer_verify_otp-GuestAnswer :
    (c : AccountsClient)
    → AccountsLaws c
    → (secrets : Audience → Option Key) (jwt : Jwt) (sign : Sign) {S : Type 0}
      (provider : OtpProvider S) (secret : Key) (now : Instant) (new_id phone code : Key)
      (s : AuthState S)
    → ReadsBack sign jwt
    → secrets customer_audience ≡ some secret
    → GuestAnswer secrets jwt provider now phone code s
        (customer_verify_otp c secrets sign provider now new_id phone code s)
unfolding customer_verify_otp
customer_verify_otp-GuestAnswer c l secrets jwt sign provider secret now new_id phone code s law e =
    elim (Bool-cases (provider.check now phone code s.otp).0) [
      | inl y ↦
          admitted y
            (verified_Session c l secrets jwt sign provider secret now new_id phone code s law e y)
      | inr n ↦ turned_away n (rw n refl) (rw n refl)
    ]

-- With the development provider of codes, a guest who asks for a code and gives it back within five
-- minutes, whatever wrong guesses come between, gets a token that the confirmation's guard reads as
-- the customer of that telephone number, who counts as verified from then on, and no other customer
-- is changed. This holds if the database updates or inserts the customer of the number, a fresh
-- token is read back as the subject that it was signed for, and the secret is set.
pub customer_verify_otp-Session :
    (c : AccountsClient)
    → AccountsLaws c
    → (secrets : Audience → Option Key) (jwt : Jwt) (sign : Sign) (hash : Key → Key) (secret : Key)
      (sent now : Instant) (new_id phone code : Key) (s : AuthState Challenges)
      (guesses : List Guess)
    → ReadsBack sign jwt
    → secrets customer_audience ≡ some secret
    → any (is_right hash phone code) guesses ≡ false
    → leb_ℤ now (sent +ℤ code_ttl_ms) ≡ true
    → Session secrets jwt now phone s.accounts (
        customer_verify_otp c secrets sign
          (dev_otp hash)
          now
          new_id
          phone
          code
          (guessed hash guesses (customer_request_otp (dev_otp hash) sent phone code s)))
unfolding customer_request_otp
customer_verify_otp-Session c l secrets jwt sign hash secret sent now new_id phone code s guesses
      law e n t =
    verified_Session c l secrets jwt sign (dev_otp hash) secret now new_id phone code
      (guessed hash guesses (customer_request_otp (dev_otp hash) sent phone code s)) law e
      (verify_code_once hash sent now now phone code code s.otp guesses [] n t).0
