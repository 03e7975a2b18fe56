-- ===== src/Http/Access.antt =====
-- Who a staff route runs for.
use mathlib.Core.Path.{subst}
use raise.Visits.Retabled.{some_inj}
use raise.Visits.{is_empty}
use raise.Auth.Staff.{staff_answer, staff_guards, staff_guards-answer}
use raise.Schema.{StaffMembership}
use raise.Auth.{Request, verify_staff, and_then, includes_role}
use raise.Store.{Client, IsDocumented, Key, documented, client-eq, documented-IsDocumented}
use raise.Http.{Env, StaffRoute, handle_staff, Reply, roles_of, staff_handler}
use raise.World.{Failure, unauthorized, not_found, forbidden, World, Result, err, ok}
use raise.Prelude.{
  ◌≡◌, some, inl, inr, ◌⊎◌, Option-cases, Bool-cases, true, sym, ◌∙◌, ap, ◌||◌, refl, arith, none,
  false,
}

-- What a caller has shown: a valid staff token, and a membership with a role that the route allows.
pub record Granted (env : Env) (route : StaffRoute) (request : Request) (w : World) (user : Key)
    : Type 0 where
  pub token : Key
  pub shown : request.bearer_token ≡ some token
  pub named : verify_staff env.secrets env.jwt token ≡ some user
  pub membership : StaffMembership
  pub member : (w.db.staff_memberships request.restaurant_param).at user ≡ some membership
  pub allowed :
      is_empty (roles_of route) || includes_role (roles_of route) (some membership.role) ≡ true

abbrev pub GrantedAny : Env → StaffRoute → Request → World → Type 0
GrantedAny env route request w = (user : Key) × Granted env route request w user

-- The guards' refusals: 401, 404 and 403.
abbrev pub IsRefusal : Failure → Type 0
IsRefusal f = (f ≡ unauthorized) ⊎ ((f ≡ not_found) ⊎ (f ≡ forbidden))

module _ (env : Env) (route : StaffRoute) (request : Request) (w : World) where
  open env use {secrets, jwt}

  guarded :
      (a : Result Request)
      → staff_answer request
          (roles_of route)
          (and_then request.bearer_token (verify_staff secrets jwt))
          (w.db.staff_memberships request.restaurant_param).at
        ≡ a
      → staff_guards documented secrets jwt (roles_of route) request w ≡ (a, w)
  guarded a e =
      staff_guards-answer documented documented-IsDocumented secrets jwt (roles_of route) request w
      ∙ rw e refl

  refused :
      (f : Failure)
      → staff_guards documented secrets jwt (roles_of route) request w ≡ (err f, w)
      → handle_staff documented env route request w ≡ (err f, w)
  unfolding handle_staff
  refused f e = rw e refl

  passed :
      (user : Key) (m : StaffMembership)
      → staff_guards documented secrets jwt (roles_of route) request w
        ≡ (ok (record request { staff_user_id = some user; staff_role = some m.role }), w)
      → handle_staff documented env route request w
        ≡ staff_handler documented env route user request.restaurant_param w
  unfolding handle_staff
  passed user m e = rw e refl

  no_token : request.bearer_token ≡ none → ¬ (GrantedAny env route request w)
  no_token e (user, g) = let shown = g.shown in absurd (ground arith)

  read_as :
      (token user : Key)
      → request.bearer_token ≡ some token
      → Granted env route request w user
      → verify_staff secrets jwt token ≡ some user
  read_as token user e g =
      subst (λ t. verify_staff secrets jwt t ≡ some user) (some_inj (sym g.shown ∙ e)) g.named

  no_user :
      (token : Key)
      → request.bearer_token ≡ some token
      → verify_staff secrets jwt token ≡ none
      → ¬ (GrantedAny env route request w)
  no_user token e f (user, g) = let named = read_as token user e g in absurd (ground arith)

  no_role :
      (token user : Key)
      → request.bearer_token ≡ some token
      → verify_staff secrets jwt token ≡ some user
      → ((m : StaffMembership)
          → (w.db.staff_memberships request.restaurant_param).at user ≡ some m
          → is_empty (roles_of route) || includes_role (roles_of route) (some m.role) ≡ false)
      → ¬ (GrantedAny env route request w)
  no_role token user e f denied (u, g) =
      let same = some_inj (sym (read_as token u e g) ∙ f) in
      let member =
        subst (λ k. (w.db.staff_memberships request.restaurant_param).at k ≡ some g.membership) same
          g.member in
      let no = denied g.membership member in let yes = g.allowed in absurd (ground arith)

  refusal :
      (f : Failure) (out : Result Reply) (w' : World)
      → handle_staff documented env route request w ≡ (out, w')
      → IsRefusal f
      → staff_answer request
          (roles_of route)
          (and_then request.bearer_token (verify_staff secrets jwt))
          (w.db.staff_memberships request.restaurant_param).at
        ≡ err f
      → ¬ (GrantedAny env route request w)
      → ¬ (GrantedAny env route request w) × (f : Failure) × IsRefusal f × (out ≡ err f) × (w' ≡ w)
  refusal f out w' h is e denied =
      let q = sym h ∙ refused f (guarded (err f) e) in
      (denied, f, is, ap (λ o. o.0) q, ap (λ o. o.1) q)

  access_documented :
      (out : Result Reply) (w' : World)
      → handle_staff documented env route request w ≡ (out, w')
      → (¬ (GrantedAny env route request w)
          × (f : Failure) × IsRefusal f
          × (out ≡ err f)
          × (w' ≡ w))
        ⊎ ((user : Key) × Granted env route request w user
            × (staff_handler documented env route user request.restaurant_param w ≡ (out, w')))
  access_documented out w' h = elim (Option-cases request.bearer_token) [
    | inl e ↦ inl (refusal unauthorized out w' h (inl refl) (rw e refl) λ p. no_token e p)
    | inr (token, e) ↦ elim (Option-cases (verify_staff secrets jwt token)) [
      | inl f ↦
          inl (refusal unauthorized out w' h (inl refl) (rw (e, f) refl) λ p. no_user token e f p)
      | inr (user, f) ↦
          elim (Option-cases ((w.db.staff_memberships request.restaurant_param).at user)) [
            | inl g ↦ inl (
                refusal not_found out w' h (inr (inl refl)) (ground arith)
                  (no_role token user e f λ m h. absurd (ground arith)))
            | inr (m, g) ↦
                elim (Bool-cases
                  (is_empty (roles_of route) || includes_role (roles_of route) (some m.role))) [
                    | inl y ↦ inr (
                      user,
                      record {
                        token = token;
                        shown = e;
                        named = f;
                        membership = m;
                        member = g;
                        allowed = y;
                      },
                      sym (passed user m (guarded _ (ground arith))) ∙ h,
                    )
                    | inr n ↦ inl (
                        refusal forbidden out w' h (inr (inr refl)) (ground arith) (
                          no_role token user e f λ x h.
                            subst
                              (λ y.
                                is_empty (roles_of route)
                                  || includes_role (roles_of route) (some y.role)
                                ≡ false)
                              (some_inj (sym g ∙ h)) n))
                  ]
          ]
    ]
  ]

-- A staff route does nothing for a caller who has not shown a valid staff token, a membership in the
-- restaurant of the path and a role that the route allows: the caller is refused with 401, 404 or 403
-- and the world is as it was. For anyone else the route answers and acts as its handler does, for that
-- member of staff and that restaurant.
pub handle_staff-Granted :
    (c : Client)
    → IsDocumented c
    → (env : Env) (route : StaffRoute) (request : Request) (w w' : World) (out : Result Reply)
    → handle_staff c env route request w ≡ (out, w')
    → (¬ (GrantedAny env route request w) × (f : Failure) × IsRefusal f × (out ≡ err f) × (w' ≡ w))
      ⊎ ((user : Key) × Granted env route request w user
          × (staff_handler c env route user request.restaurant_param w ≡ (out, w')))
handle_staff-Granted c l =
    rw (client-eq c l)
      λ env route request w w' out h. access_documented env route request w out w' h
