-- ===== src/Auth/StaffLogin.antt =====
-- What a login of staff brings: a token that the staff guard reads as the one who logged in.
use raise.Auth.Login.{
  ReadsBack, User, Accounts, Sign, sign_staff, staff_login, AccountsClient, AccountsLaws,
}
use raise.Auth.{Audience, staff_audience, Jwt, Request, staff_jwt_guard, verify_staff}
use raise.World.{World, Result, ok, err, unauthorized, internal_error}
use raise.Store.{Key}
use raise.Prelude.{
  Option, none, some, Bool, true, false, ◌≡◌, refl, Bool-cases, Option-cases, inl, inr, arith,
}

module _ (secrets : Audience → Option Key) (jwt : Jwt) (sign : Sign)
    (verify_password : Key → Key → Bool) (email password : Key) (a : Accounts) where
  -- The three answers of a login, each with what it takes.
  pub data LoginAnswer : Result Key → Type 0 where
    granted :
        (user : User) (secret : Key)
        → a.users email ≡ some user
        → verify_password user.password_hash password ≡ true
        → ((request : Request) (w : World)
            → staff_jwt_guard secrets jwt
                (record request { bearer_token = some (sign secret staff_audience user.id) })
                w
              ≡ (
                ok (record request {
                  bearer_token = some (sign secret staff_audience user.id);
                  staff_user_id = some user.id;
                }),
                w,
              ))
        → LoginAnswer (ok (sign secret staff_audience user.id))
    refused :
        ((user : User)
          → a.users email ≡ some user
          → verify_password user.password_hash password ≡ false)
        → LoginAnswer (err unauthorized)
    unconfigured : secrets staff_audience ≡ none → LoginAnswer (err internal_error)

  staff_token_read :
      ReadsBack sign jwt
      → (secret sub : Key) → secrets staff_audience ≡ some secret
      → (request : Request) (w : World)
      → staff_jwt_guard secrets jwt
          (record request { bearer_token = some (sign secret staff_audience sub) })
          w
        ≡ (
          ok (record request {
            bearer_token = some (sign secret staff_audience sub);
            staff_user_id = some sub;
          }),
          w,
        )
  unfolding staff_jwt_guard verify_staff
  staff_token_read law secret sub e request w = rw e (rw (law secret staff_audience sub) refl)

  login-granted :
      ReadsBack sign jwt
      → (user : User) → a.users email ≡ some user
      → verify_password user.password_hash password ≡ true
      → LoginAnswer (sign_staff secrets sign user.id)
  unfolding sign_staff
  login-granted law user e v = elim (Option-cases (secrets staff_audience)) [
    | inl n ↦ rw n (unconfigured n)
    | inr (secret, f) ↦ rw f (granted user secret e v (staff_token_read law secret user.id f))
  ]

-- A member of staff who logs in with an address and a password gets a token only if a user has that
-- address and the password fits its hash, and the staff guard then reads the token as that user; a
-- wrong password and an unknown address are answered alike. This holds if the database finds users by
-- their address and a fresh token is read back as the subject that it was signed for.
pub staff_login-LoginAnswer :
    (c : AccountsClient)
    → AccountsLaws c
    → (secrets : Audience → Option Key) (jwt : Jwt) (sign : Sign)
      (verify_password : Key → Key → Bool) (email password : Key) (a : Accounts)
    → ReadsBack sign jwt
    → LoginAnswer secrets jwt sign verify_password email password a
        (staff_login c secrets sign verify_password email password a)
unfolding staff_login
staff_login-LoginAnswer c l secrets jwt sign verify_password email password a law =
    rw (l.found email a) (elim (Option-cases (a.users email)) [
      | inl n ↦ rw n (refused λ user e. ground arith)
      | inr (user, e) ↦ elim (Bool-cases (verify_password user.password_hash password)) [
        | inl v ↦
            rw e
              (rw v (login-granted secrets jwt sign verify_password email password a law user e v))
        | inr v ↦ rw e (rw v (refused λ other f. ground arith))
      ]
    ])
