-- ===== src/Realtime/Admission.antt =====
-- Which sockets the gateway admits, and what it does to the others.
use raise.Realtime.Rooms.{has-add}
use raise.Realtime.Tickets.{TicketClaim, consume}
use raise.Schema.{Instant}
use raise.Realtime.Gateway.{
  is_allowed_origin, Gateway, handle_connection, join, max_connections, has,
}
use raise.Store.{Key}
use raise.Prelude.{
  length, inr, inl, Option, ◌≡◌, true, some, none, arith, Option-cases, refl, inl, suc, length, inr,
  ◌≤◌,
}

-- What an admitted socket showed, and where it was put.
pub record Admitted (configured : Option Key) (now : Instant) (client : Key)
    (origin ticket : Option Key) (g h : Gateway) : Type 0 where
  pub origin_value : Key
  pub presented : Key
  pub claim : TicketClaim
  pub origin_shown : origin ≡ some origin_value
  pub origin_configured : configured ≡ some origin_value
  pub ticket_shown : ticket ≡ some presented
  pub ticket_live : (consume now presented g.tickets).0 ≡ some claim
  pub ticket_gone : h.tickets ≡ (consume now presented g.tickets).1
  pub had_room : suc (length (g.connections claim.restaurant_id)) ≤ max_connections
  pub registered : h.restaurant_by_socket client ≡ some claim.restaurant_id
  pub in_room : has client (h.connections claim.restaurant_id) ≡ true
  pub others_kept :
      (s : Key) → (client ≡ s → ⊥) → h.restaurant_by_socket s ≡ g.restaurant_by_socket s
  pub rooms_kept : (r : Key) → (claim.restaurant_id ≡ r → ⊥) → h.connections r ≡ g.connections r

allowed_both :
    (configured origin : Option Key)
    → is_allowed_origin configured origin ≡ true
    → (o : Key) × ((origin ≡ some o) × (configured ≡ some o))
allowed_both configured none e = absurd (ground arith)
allowed_both none (some o) e = absurd (ground arith)
allowed_both (some c) (some o) e = (o, (refl, ground arith))

module _ (configured : Option Key) (now : Instant) (client : Key) (origin : Option Key)
    (g h : Gateway) where
  allowed_of_none :
      (ticket : Option Key)
      → handle_connection configured now client origin ticket g ≡ (none, h)
      → is_allowed_origin configured origin ≡ true
  unfolding handle_connection
  allowed_of_none ticket e = ground arith

  join_of_none :
      (value : Key)
      → handle_connection configured now client origin (some value) g ≡ (none, h)
      → join client
          (consume now value g.tickets).0
          (record g { tickets = (consume now value g.tickets).1 })
        ≡ (none, h)
  unfolding handle_connection
  join_of_none value e = ground arith

  join_at :
      (value : Key) (o : Option TicketClaim)
      → handle_connection configured now client origin (some value) g ≡ (none, h)
      → (consume now value g.tickets).0 ≡ o
      → join client o (record g { tickets = (consume now value g.tickets).1 }) ≡ (none, h)
  join_at value o e q = rw (← q) (join_of_none value e)

  ticket_of_none : handle_connection configured now client origin none g ≡ (none, h) → ⊥
  unfolding handle_connection
  ticket_of_none e = ground arith

  join-Admitted :
      (value o : Key) (claim : TicketClaim)
      → origin ≡ some o
      → configured ≡ some o
      → (consume now value g.tickets).0 ≡ some claim
      → join client (some claim) (record g { tickets = (consume now value g.tickets).1 })
        ≡ (none, h)
      → Admitted configured now client origin (some value) g h
  join-Admitted value o claim eo ec et ej =
      let added = has-add client client (g.connections claim.restaurant_id) in
      record {
        origin_value = o;
        presented = value;
        claim = claim;
        origin_shown = eo;
        origin_configured = ec;
        ticket_shown = refl;
        ticket_live = et;
        ticket_gone = ground arith;
        had_room = ground arith;
        registered = ground arith;
        in_room = ground arith;
        others_kept = λ s n. ground arith;
        rooms_kept = λ r n. ground arith;
      }

-- A socket stays open only if it comes from the configured origin and presents a ticket that is live;
-- the ticket is used up, and the socket joins the room of the restaurant in the ticket's own claim,
-- which had fewer than fifty sockets, and no other room or registration changes.
pub handle_connection-Admitted :
    (configured : Option Key) (now : Instant) (client : Key) (origin ticket : Option Key)
    (g h : Gateway)
    → handle_connection configured now client origin ticket g ≡ (none, h)
    → Admitted configured now client origin ticket g h
handle_connection-Admitted configured now client origin none g h e =
    absurd (ticket_of_none configured now client origin g h e)
handle_connection-Admitted configured now client origin (some value) g h e =
    let (o, (eo, ec)) =
      allowed_both configured origin (allowed_of_none configured now client origin g h _ e) in
    elim (Option-cases (consume now value g.tickets).0) [
      | inl q ↦
          let j = join_at configured now client origin g h value none e q in absurd (ground arith)
      | inr (claim, q) ↦
          join-Admitted configured now client origin g h value o claim eo ec q
            (join_at configured now client origin g h value (some claim) e q)
    ]
