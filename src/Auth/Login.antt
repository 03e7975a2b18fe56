-- ===== src/Auth/Login.antt =====
-- apps/api/src/auth/auth.service.ts: how staff and guests get their tokens. E-mail addresses, telephone
-- numbers, passwords and tokens are known by numbers. The password library, the JWT library, the
-- one-time-code provider and the database client are parameters.
use raise.Auth.{Audience, staff_audience, customer_audience, Jwt}
use raise.World.{Result, ok, err, unauthorized, internal_error}
use raise.Store.{Key, put}
use raise.Schema.{Instant}
use raise.Prelude.{Option, none, some, Bool, if◌then◌else◌, String, ◌≡◌}

pub record User : Type 0 where
  pub id : Key
  pub email : Key
  pub password_hash : Key
  pub name : String

pub record CustomerAccount : Type 0 where
  pub id : Key
  pub phone : Key
  pub phone_verified_at : Option Instant

-- `users` by its unique e-mail address, `customers` by its unique telephone number.
pub record Accounts : Type 0 where
  pub users : Key → Option User
  pub customers : Key → Option CustomerAccount

-- `findUnique` and `upsert`, each on a unique column.
pub record AccountsClient : Type 0 where
  pub find_user : Key → Accounts → Option User
  pub upsert_customer :
      (phone : Key) (update : CustomerAccount → CustomerAccount) (create : CustomerAccount)
      → Accounts
      → CustomerAccount × Accounts

abbrev pub updated_or_new :
    (CustomerAccount → CustomerAccount) → CustomerAccount → Option CustomerAccount → CustomerAccount
updated_or_new update create none = create
updated_or_new update create (some x) = update x

-- What the client's documentation says of the two calls.
pub record AccountsLaws (c : AccountsClient) : Type 0 where
  pub found : (email : Key) (a : Accounts) → c.find_user email a ≡ a.users email
  pub upserted :
      (phone : Key) (update : CustomerAccount → CustomerAccount) (create : CustomerAccount)
      (a : Accounts)
      → c.upsert_customer phone update create a ≡ (
        updated_or_new update create (a.customers phone),
        record a {
          customers =
              put a.customers phone (some (updated_or_new update create (a.customers phone)));
        },
      )

-- OtpProvider's `sendCode` and `verifyCode`, over the state that it keeps; `draw` is the code that a
-- provider may draw.
pub record OtpProvider (S : Type 0) : Type 0 where
  pub send : (now : Instant) (phone draw : Key) → S → S
  pub check : (now : Instant) (phone code : Key) → S → Bool × S

pub record AuthState (S : Type 0) : Type 0 where
  pub accounts : Accounts
  pub otp : S

module _ {S : Type 0} (provider : OtpProvider S) where
  unfoldable pub customer_request_otp : Instant → (phone draw : Key) → AuthState S → AuthState S
  customer_request_otp now phone draw s = record s { otp = provider.send now phone draw s.otp }

-- `JwtService.sign`
abbrev pub Sign : Type 0
Sign = (secret : Key) → Audience → (sub : Key) → Key

-- A fresh token is read back, with its secret and audience, as the subject that it was signed for.
abbrev pub ReadsBack : Sign → Jwt → Type 0
ReadsBack sign jwt =
    (secret : Key) (audience : Audience) (sub : Key)
    → jwt.verify_sub secret audience (sign secret audience sub) ≡ some sub

module _ (secrets : Audience → Option Key) (sign : Sign) where
  -- The `sign` of the token services; `requireEnv` throws an `Error` when the secret is not set.
  abbrev sign_with : Audience → Key → Option Key → Result Key
  sign_with audience sub none = err internal_error
  sign_with audience sub (some secret) = ok (sign secret audience sub)

  unfoldable pub sign_staff : Key → Result Key
  sign_staff sub = sign_with staff_audience sub (secrets staff_audience)

  unfoldable pub sign_customer : Key → Result Key
  sign_customer sub = sign_with customer_audience sub (secrets customer_audience)

module _ (c : AccountsClient) (secrets : Audience → Option Key) (sign : Sign) where
  -- PasswordService.verify, of a hash and a password
  abbrev login_as : (Key → Key → Bool) → Key → Option User → Result Key
  login_as verify_password password none = err unauthorized
  login_as verify_password password (some user) =
      if verify_password user.password_hash password
      then sign_staff secrets sign user.id
      else err unauthorized

  unfoldable pub staff_login : (Key → Key → Bool) → (email password : Key) → Accounts → Result Key
  staff_login verify_password email password a =
      login_as verify_password password (c.find_user email a)

  module _ {S : Type 0} (provider : OtpProvider S) where
    abbrev signed_in :
        Instant → Key → CustomerAccount × Accounts → AuthState S → Result Key × AuthState S
    signed_in now phone (x, a) s = (sign_customer secrets sign x.id, record s { accounts = a })

    -- `new_id` is the identifier that the database draws.
    unfoldable pub customer_verify_otp :
        Instant → (new_id : Key) → (phone code : Key) → AuthState S → Result Key × AuthState S
    customer_verify_otp now new_id phone code s =
        let (is_right, otp) = provider.check now phone code s.otp in
        if is_right
        then signed_in now phone
            (c.upsert_customer phone (λ x. record x { phone_verified_at = some now })
              (record { id = new_id; phone = phone; phone_verified_at = some now }) s.accounts)
            (record s { otp = otp })
        else (err unauthorized, record s { otp = otp })
