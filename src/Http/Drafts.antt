-- ===== src/Http/Drafts.antt =====
-- apps/api/src/intake/intake.controller.ts: the two routes of a draft behind their guards.
use mathlib.Core.Path.{subst}
use raise.Visits.Retabled.{some_inj}
use raise.Prelude.{
  Option, none, some, ◌≡◌, refl, sym, ◌∙◌, ap, inl, inr, Option-cases, Bool-cases, arith, ◌&&◌,
  ◌==◌, ◌⊎◌,
}
use raise.Auth.{
  Audience, Jwt, Request, optional_customer_jwt_guard, intake_draft_guard, verify_intake, and_then,
  verify_customer, attach,
}
use raise.Intake.Turns.{
  IntakeDeps, IntakeTurnRequest, IntakeTurnResponse, IntakeState, process_turn, get_state,
}
use raise.World.{World, M, Result, ok, err, not_found, pure, ◌>>=◌}
use raise.Store.{Key, Client}

-- The body arrives as the schema library left it, `none` when it was refused.
pub data DraftRoute (Audio : Type 0) : Type 0 where
  get_state_route : DraftRoute Audio
  turn_route : (body : Option (IntakeTurnRequest Audio)) → DraftRoute Audio

pub data DraftReply : Type 0 where
  state_reply : IntakeState → DraftReply
  turn_reply : IntakeTurnResponse → DraftReply
  bad_body : DraftReply

module _ (secrets : Audience → Option Key) (jwt : Jwt) where
  unfoldable pub draft_guards : Request → M Request
  draft_guards request =
      optional_customer_jwt_guard secrets jwt request >>= intake_draft_guard secrets jwt

module _ {Raw Audio : Type 0} (c : Client) (deps : IntakeDeps Raw Audio) where
  unfoldable pub draft_handler : DraftRoute Audio → Key → Key → M DraftReply
  draft_handler get_state_route r v = do s ← get_state c deps r v; pure (state_reply s)
  draft_handler (turn_route none) r v = pure bad_body
  draft_handler (turn_route (some body)) r v = do
    x ← process_turn c deps r v body
    pure (turn_reply x)

  unfoldable pub handle_draft :
      (Audience → Option Key) → Jwt → DraftRoute Audio → Request → M DraftReply
  handle_draft secrets jwt route request = do
    passed ← draft_guards secrets jwt request
    draft_handler route passed.restaurant_param passed.visit_param

-- The token of this very draft was shown.
pub record Drafted (secrets : Audience → Option Key) (jwt : Jwt) (request : Request) : Type 0 where
  pub token : Key
  pub shown : request.bearer_token ≡ some token
  pub named :
      verify_intake secrets jwt token
      ≡ some (record { visit_id = request.visit_param; restaurant_id = request.restaurant_param })

module _ (secrets : Audience → Option Key) (jwt : Jwt) where
  read_as :
      (p : Request) (token : Key)
      → p.bearer_token ≡ some token
      → Drafted secrets jwt p
      → verify_intake secrets jwt token
        ≡ some (record { visit_id = p.visit_param; restaurant_id = p.restaurant_param })
  read_as p token e d =
      subst
        (λ t.
          verify_intake secrets jwt t
          ≡ some (record { visit_id = p.visit_param; restaurant_id = p.restaurant_param }))
        (some_inj (sym d.shown ∙ e)) d.named

  guard-cases :
      (p : Request) (w : World)
      → (¬ (Drafted secrets jwt p) × (intake_draft_guard secrets jwt p w ≡ (err not_found, w)))
        ⊎ (Drafted secrets jwt p × (intake_draft_guard secrets jwt p w ≡ (ok p, w)))
  unfolding intake_draft_guard
  guard-cases p w = elim (Option-cases p.bearer_token) [
    | inl e ↦ inl (λ d. let shown = d.shown in absurd (ground arith), rw e refl)
    | inr (token, e) ↦ elim (Option-cases (verify_intake secrets jwt token)) [
      | inl f ↦
          inl (λ d. let named = read_as p token e d in absurd (ground arith), rw e (rw f refl))
      | inr (x, f) ↦
          elim (Bool-cases (x.restaurant_id == p.restaurant_param && x.visit_id == p.visit_param)) [
            | inl t ↦
                inr (
                  record { token = token; shown = e; named = ground arith },
                  rw e (rw f (rw t refl)),
                )
            | inr t ↦ inl (
              λ d. let named = read_as p token e d in absurd (ground arith),
              rw e (rw f (rw t refl)),
            )
          ]
    ]
  ]

  module _ {Raw Audio : Type 0} (c : Client) (deps : IntakeDeps Raw Audio)
      (route : DraftRoute Audio) where
    guarded :
        (p : Request) (w w' : World) (out : Result DraftReply)
        → (intake_draft_guard secrets jwt p >>= λ q.
              draft_handler c deps route q.restaurant_param q.visit_param)
            w
          ≡ (out, w')
        → (¬ (Drafted secrets jwt p) × (out ≡ err not_found) × (w' ≡ w))
          ⊎ (Drafted secrets jwt p
              × (draft_handler c deps route p.restaurant_param p.visit_param w ≡ (out, w')))
    guarded p w w' out h = elim (guard-cases p w) [
      | inl (no_draft, e) ↦
          let q = sym h ∙ rw e refl in inl (no_draft, ap (λ o. o.0) q, ap (λ o. o.1) q)
      | inr (d, e) ↦ inr (d, sym (rw e refl) ∙ h)
    ]

    attached :
        (request : Request) (w w' : World) (out : Result DraftReply) (customer : Option Key)
        → (intake_draft_guard secrets jwt (attach secrets jwt request customer) >>= λ q.
              draft_handler c deps route q.restaurant_param q.visit_param)
            w
          ≡ (out, w')
        → (¬ (Drafted secrets jwt request) × (out ≡ err not_found) × (w' ≡ w))
          ⊎ (Drafted secrets jwt request
              × (draft_handler c deps route request.restaurant_param request.visit_param w
                  ≡ (out, w')))
    attached request w w' out none h = guarded request w w' out h
    attached request w w' out (some sub) h =
        elim (guarded (record request { customer_id = some sub }) w w' out h) [
          | inl (no_draft, e, q) ↦
              inl
                (λ d. no_draft (record { token = d.token; shown = d.shown; named = d.named }), e, q)
          | inr (d, e) ↦ inr (record { token = d.token; shown = d.shown; named = d.named }, e)
        ]

-- A caller who has not shown the token of this very draft gets 404 from the two routes of a draft, and
-- everything stays as it was. To one who has shown it they answer and act as their handlers do for that
-- visit and restaurant, whatever customer token may come in its place.
pub handle_draft-Drafted :
    {Raw Audio : Type 0} (c : Client) (deps : IntakeDeps Raw Audio)
    (secrets : Audience → Option Key) (jwt : Jwt) (route : DraftRoute Audio) (request : Request)
    (w w' : World) (out : Result DraftReply)
    → handle_draft c deps secrets jwt route request w ≡ (out, w')
    → (¬ (Drafted secrets jwt request) × (out ≡ err not_found) × (w' ≡ w))
      ⊎ (Drafted secrets jwt request
          × (draft_handler c deps route request.restaurant_param request.visit_param w ≡ (out, w')))
unfolding handle_draft draft_guards optional_customer_jwt_guard
handle_draft-Drafted c deps secrets jwt route request w w' out h =
    attached secrets jwt c deps route request w w' out
      (and_then request.bearer_token (verify_customer secrets jwt)) h
