-- ===== src/Panel/Boundary.antt =====
-- The trust boundary of the panel: nothing is booked before the phone is verified.
use raise.Panel.Steps.{
  Shape, Allowed, phone_step, sending, code_step, verifying, confirm_step, confirming,
  act_all-Shape,
}
use raise.Visits.Retabled.{some_inj}
use mathlib.Core.List.{Memᴰ}
use mathlib.Core.List.Memᴰ.{head, tail}
use mathlib.Core.Path.{subst}
use raise.Store.{Key}
use raise.Prelude.{List, All, ◌∷◌, true, false, [], none, some, ◌≡◌, arith, length, ◌≤◌, sym}
use raise.Panel.{Text, Panel, send_code, verify, book, PanelEvent, act_all, opened}

-- One request at a time; a code is verified only for the phone to which it went, and that phone is the
-- one in the field; a booking carries a token that the verification of that phone brought.
pub record Vouched (trim : Text → Text) (p : Panel) : Type 0 where
  pub single : length p.pending ≤ 1
  pub verifies :
      (phone code : Text)
      → Memᴰ (verify phone code) p.sent
      → (phone ≡ trim p.phone) × Memᴰ phone p.texted
  pub books :
      (v d t : Key)
      → Memᴰ (book v d t) p.sent
      → Memᴰ (trim p.phone) p.texted × Memᴰ (trim p.phone, t) p.verified

find_Allowed : {A : Type 0} (P : A → Type 0) (a : A) (xs : List A) → All P xs → Memᴰ a xs → P a
find_Allowed P a [] ps m = elim m [ ]
find_Allowed P a (x ∷ xs) (p, ps) (head e) = subst P (sym e) p
find_Allowed P a (x ∷ xs) (p, ps) (tail m) = find_Allowed P a xs ps m

module _ (trim : Text → Text) where
  early-Vouched :
      (p : Panel)
      → All (Allowed (trim p.phone) false none) p.sent
      → length p.pending ≤ 1
      → Vouched trim p
  early-Vouched p a l = record {
    single = l;
    verifies = λ ph c m.
        let (e, h) = find_Allowed (Allowed (trim p.phone) false none) (verify ph c) p.sent a m in
        absurd (ground arith);
    books = λ v d t m.
        let (e, h) = find_Allowed (Allowed (trim p.phone) false none) (book v d t) p.sent a m in
        absurd (ground arith);
  }

  middle-Vouched :
      (p : Panel)
      → All (Allowed (trim p.phone) true none) p.sent
      → Memᴰ (trim p.phone) p.texted
      → length p.pending ≤ 1
      → Vouched trim p
  middle-Vouched p a x l = record {
    single = l;
    verifies = λ ph c m.
        let (e, h) = find_Allowed (Allowed (trim p.phone) true none) (verify ph c) p.sent a m in
        (e, subst (λ y. Memᴰ y p.texted) (sym e) x);
    books = λ v d t m.
        let (e, h) = find_Allowed (Allowed (trim p.phone) true none) (book v d t) p.sent a m in
        absurd (ground arith);
  }

  late-Vouched :
      (p : Panel) (u : Key)
      → All (Allowed (trim p.phone) true (some u)) p.sent
      → Memᴰ (trim p.phone) p.texted
      → Memᴰ (trim p.phone, u) p.verified
      → length p.pending ≤ 1
      → Vouched trim p
  late-Vouched p u a x y l = record {
    single = l;
    verifies = λ ph c m.
        let (e, h) = find_Allowed (Allowed (trim p.phone) true (some u)) (verify ph c) p.sent a m in
        (e, subst (λ y. Memᴰ y p.texted) (sym e) x);
    books = λ v d t m.
        let (e, h) = find_Allowed (Allowed (trim p.phone) true (some u)) (book v d t) p.sent a m in
        (x, subst (λ z. Memᴰ (trim p.phone, z) p.verified) (some_inj e) y);
  }

  Shape-Vouched : (p : Panel) → Shape trim p → Vouched trim p
  Shape-Vouched _ (phone_step p a) =
      early-Vouched
        (record p { otp_sent = false; customer_token = none; busy = false; pending = [] }) a
        (ground arith)
  Shape-Vouched _ (sending p a) =
      early-Vouched
        (record p {
          otp_sent = false;
          customer_token = none;
          busy = true;
          pending = send_code (trim p.phone) ∷ [];
        })
        a (ground arith)
  Shape-Vouched _ (code_step p a m) =
      middle-Vouched
        (record p { otp_sent = true; customer_token = none; busy = false; pending = [] }) a m
        (ground arith)
  Shape-Vouched _ (verifying p code a m) =
      middle-Vouched
        (record p {
          otp_sent = true;
          customer_token = none;
          busy = true;
          pending = verify (trim p.phone) code ∷ [];
        })
        a m (ground arith)
  Shape-Vouched _ (confirm_step p t a m n) =
      late-Vouched
        (record p { otp_sent = true; customer_token = some t; busy = false; pending = [] }) t a m n
        (ground arith)
  Shape-Vouched _ (confirming p v d t a m n) =
      late-Vouched
        (record p {
          otp_sent = true;
          customer_token = some t;
          busy = true;
          pending = book v d t ∷ [];
        })
        t a m n (ground arith)

-- Whatever the guest types and presses and whatever the routes answer, the panel has one request under way
-- at most, verifies codes only for the phone in its field, to which a code was sent, and books only with a
-- token that the verification of that phone brought.
pub act_all-Vouched :
    (trim : Text → Text) (couldnt_send no_match went_wrong : Text) (es : List PanelEvent)
    → Vouched trim (act_all trim couldnt_send no_match went_wrong es opened)
act_all-Vouched trim couldnt_send no_match went_wrong es =
    Shape-Vouched trim _
      (act_all-Shape trim couldnt_send no_match went_wrong opened (phone_step opened tt) es)
