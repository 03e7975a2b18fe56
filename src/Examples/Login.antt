-- ===== src/Examples/Login.antt =====
-- A member of staff and a guest, logged in by libraries whose tokens name their subjects.
use raise.Auth.Otp.{Challenges, Guess}
use raise.Examples.Auth.{secret}
use raise.Auth.{Jwt}
use raise.Prelude.{[], ◌∷◌, refl, none, some, List, if◌then◌else◌, ◌==◌, pos, ◌+ℤ◌, ◌+◌}
use raise.Auth.Login.{
  AccountsClient, AccountsLaws, updated_or_new, Sign, Accounts, AuthState, staff_login,
  customer_verify_otp, customer_request_otp, OtpProvider,
}
use raise.Auth.StaffLogin.{LoginAnswer, staff_login-LoginAnswer}
use raise.Auth.GuestLogin.{
  Session, customer_verify_otp-Session, guessed, dev_otp, GuestAnswer,
  customer_verify_otp-GuestAnswer,
}
use raise.Store.{put}

abbrev client : AccountsClient
client = record {
  find_user = λ email a. a.users email;
  upsert_customer = λ phone update create a. (
    updated_or_new update create (a.customers phone),
    record a {
      customers = put a.customers phone (some (updated_or_new update create (a.customers phone)));
    },
  );
}

client-laws : AccountsLaws client
client-laws = record { found = λ email a. refl; upserted = λ phone update create a. refl }

abbrev sign : Sign
sign secret audience sub = sub

abbrev reader : Jwt
reader = record { verify_sub = λ s a token. some token; verify_draft = λ s a token. none }

abbrev accounts : Accounts
accounts = record {
  users = λ email.
      if email == 1
      then some (record { id = 6; email = 1; password_hash = 5; name = "Ana" })
      else none;
  customers = λ phone.
      if phone == 55 then some (record { id = 7; phone = 55; phone_verified_at = none }) else none;
}

staff_login-LoginAnswer_example :
    LoginAnswer secret reader sign ◌==◌ 1 5 accounts
      (staff_login client secret sign ◌==◌ 1 5 accounts)
staff_login-LoginAnswer_example =
    staff_login-LoginAnswer client client-laws secret reader sign ◌==◌ 1 5 accounts λ s a sub. refl

abbrev wrong_first : List Guess
wrong_first = record { at = pos 1100; phone = 55; code = 1 } ∷ []

abbrev no_codes : AuthState Challenges
no_codes = record { accounts = accounts; otp = λ p. none }

customer_verify_otp-Session_example : Session secret reader (pos 1200) 55 accounts (
    customer_verify_otp client secret sign (dev_otp λ k. k) (pos 1200) 8 55 4321 (
      guessed
        (λ k. k)
        wrong_first
        (customer_request_otp (dev_otp λ k. k) (pos 1000) 55 4321 no_codes)))
unfolding ◌+ℤ◌
customer_verify_otp-Session_example =
    customer_verify_otp-Session client client-laws secret reader sign (λ k. k) 99 (pos 1000)
      (pos 1200) 8 55 4321 no_codes wrong_first (λ s a sub. refl) refl refl refl

-- A provider of codes that accepts each number's double.
abbrev doubles : OtpProvider (Unit {0})
doubles = record {
  send = λ now phone draw s. s;
  check = λ now phone code s. (code == phone + phone, s);
}

abbrev unknown_guest : AuthState (Unit {0})
unknown_guest = record { accounts = accounts; otp = tt }

customer_verify_otp-GuestAnswer_example :
    GuestAnswer secret reader doubles
      (pos 1200)
      56
      112
      unknown_guest
      (customer_verify_otp client secret sign doubles (pos 1200) 8 56 112 unknown_guest)
customer_verify_otp-GuestAnswer_example =
    customer_verify_otp-GuestAnswer client client-laws secret reader sign doubles 99 (pos 1200) 8 56
      112 unknown_guest (λ s a sub. refl) refl
