-- ===== src/Realtime/Tickets.antt =====
-- apps/api/src/realtime/realtime-ticket.service.ts: the in-memory store of single-use tickets. The
-- random value of a new ticket is an argument of `mint`.
use raise.Store.{Key, put, discard}
use raise.Prelude.{
  List, ℤ, ◌∷◌, Bool, leb_ℤ, pos, any, ◌≡◌, Option, false, some, ◌==◌, none, ltb_ℤ, [], true, ◌+ℤ◌,
  arith, if◌then◌else◌, all,
}
use raise.Schema.{Instant}

pub record TicketClaim : Type 0 where
  pub staff_user_id : Key
  pub restaurant_id : Key

pub record StoredClaim : Type 0 where
  pub claim : TicketClaim
  pub expires_at : Instant

-- The `Map` from tickets to claims.
abbrev pub Tickets : Type 0
Tickets = Key → Option StoredClaim

abbrev pub ticket_ttl_ms : ℤ
ticket_ttl_ms = pos 20000

abbrev is_expired : Instant → StoredClaim → Bool
is_expired now c = ltb_ℤ c.expires_at now

abbrev sweep_expired : Instant → Tickets → Tickets
sweep_expired now s t = discard (is_expired now) (s t)

unfoldable pub mint : Instant → Key → Key → Key → Tickets → Tickets
mint now ticket staff_user_id restaurant_id s = put (sweep_expired now s) ticket (
    some (record {
      claim = record { staff_user_id = staff_user_id; restaurant_id = restaurant_id };
      expires_at = now +ℤ ticket_ttl_ms;
    }))

abbrev live_claim : Instant → Option StoredClaim → Option TicketClaim
live_claim now none = none
live_claim now (some c) = if is_expired now c then none else some c.claim

unfoldable pub consume : Instant → Key → Tickets → Option TicketClaim × Tickets
consume now ticket s = (live_claim now (s ticket), put s ticket none)

-- What the API may ask of the store.
pub data TicketCall : Type 0 where
  minting : (now : Instant) (ticket staff_user_id restaurant_id : Key) → TicketCall
  consuming : (now : Instant) (ticket : Key) → TicketCall

abbrev clock_of : TicketCall → Instant
clock_of (minting now t staff r) = now
clock_of (consuming now t) = now

abbrev mints : Key → TicketCall → Bool
mints t (minting now u staff r) = u == t
mints t (consuming now u) = false

abbrev touches : Key → TicketCall → Bool
touches t (minting now u staff r) = u == t
touches t (consuming now u) = u == t

abbrev run_call : TicketCall → Tickets → Tickets
run_call (minting now t staff r) s = mint now t staff r s
run_call (consuming now t) s = (consume now t s).1

abbrev pub run_calls : List TicketCall → Tickets → Tickets
run_calls [] s = s
run_calls (call ∷ calls) s = run_calls calls (run_call call s)

run_call-gone :
    (t : Key) (call : TicketCall) (s : Tickets)
    → mints t call ≡ false
    → s t ≡ none
    → run_call call s t ≡ none
unfolding mint consume
run_call-gone t (minting now u staff r) s m e = ground arith
run_call-gone t (consuming now u) s m e = ground arith

run_calls-gone :
    (t : Key) (calls : List TicketCall) (s : Tickets)
    → any (mints t) calls ≡ false
    → s t ≡ none
    → run_calls calls s t ≡ none
run_calls-gone t [] s m e = e
run_calls-gone t (call ∷ calls) s m e =
    run_calls-gone t calls (run_call call s) (ground arith)
      (run_call-gone t call s (ground arith) e)

consume-put : (now : Instant) (t : Key) (s : Tickets) → (consume now t s).1 t ≡ none
unfolding consume
consume-put now t s = ground arith

consume-none : (now : Instant) (t : Key) (s : Tickets) → s t ≡ none → (consume now t s).0 ≡ none
unfolding consume
consume-none now t s e = ground arith

-- A ticket opens at most one connection: once it was presented, whether or not it was accepted, no
-- later presentation of it is accepted, whatever other tickets are minted and presented between, as
-- long as the same random value is not drawn again.
pub consume_replay :
    (s : Tickets) (now later : Instant) (t : Key) (calls : List TicketCall)
    → any (mints t) calls ≡ false
    → (consume later t (run_calls calls (consume now t s).1)).0 ≡ none
consume_replay s now later t calls m =
    consume-none later t _ (run_calls-gone t calls _ m (consume-put now t s))

run_call-kept :
    (now : Instant) (t : Key) (call : TicketCall) (s : Tickets) (c : StoredClaim)
    → touches t call ≡ false
    → leb_ℤ (clock_of call) now ≡ true
    → is_expired now c ≡ false
    → s t ≡ some c
    → run_call call s t ≡ some c
unfolding mint consume
run_call-kept now t (minting n u staff r) s c m l x e = ground arith
run_call-kept now t (consuming n u) s c m l x e = ground arith

run_calls-kept :
    (now : Instant) (t : Key) (calls : List TicketCall) (s : Tickets) (c : StoredClaim)
    → any (touches t) calls ≡ false
    → all (λ call. leb_ℤ (clock_of call) now) calls ≡ true
    → is_expired now c ≡ false
    → s t ≡ some c
    → run_calls calls s t ≡ some c
run_calls-kept now t [] s c m l x e = e
run_calls-kept now t (call ∷ calls) s c m l x e =
    run_calls-kept now t calls (run_call call s) c (ground arith) (ground arith) x
      (run_call-kept now t call s c (ground arith) (ground arith) x e)

mint-put :
    (now : Instant) (t staff r : Key) (s : Tickets)
    → mint now t staff r s t
      ≡ some (record {
        claim = record { staff_user_id = staff; restaurant_id = r };
        expires_at = now +ℤ ticket_ttl_ms;
      })
unfolding mint
mint-put now t staff r s = ground arith

consume-live :
    (now : Instant) (t : Key) (s : Tickets) (c : StoredClaim)
    → s t ≡ some c
    → is_expired now c ≡ false
    → (consume now t s).0 ≡ some c.claim
unfolding consume
consume-live now t s c e x = ground arith

unexpired : (now at : Instant) → leb_ℤ now at ≡ true → ltb_ℤ at now ≡ false
unexpired now at h = ground arith

-- A ticket presented in time names whom it was minted for: other tickets minted and presented
-- between, by a clock that does not pass the moment of presentation, do not sweep it or change it.
mint-consume :
    (s : Tickets) (minted now : Instant) (t staff r : Key) (calls : List TicketCall)
    → any (touches t) calls ≡ false
    → all (λ call. leb_ℤ (clock_of call) now) calls ≡ true
    → leb_ℤ now (minted +ℤ ticket_ttl_ms) ≡ true
    → (consume now t (run_calls calls (mint minted t staff r s))).0
      ≡ some (record { staff_user_id = staff; restaurant_id = r })
mint-consume s minted now t staff r calls m l x =
    let live = unexpired now (minted +ℤ ticket_ttl_ms) x in
    consume-live now t _ _ (run_calls-kept now t calls _ _ m l live (mint-put minted t staff r s))
      live
