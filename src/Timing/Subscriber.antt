-- ===== src/Timing/Subscriber.antt =====
-- apps/api/src/timing/timing.subscriber.ts: a confirmation asks for the first targets, and whatever
-- goes wrong is only logged.
use raise.Timing.Service.{recompute}
use raise.Schema.{Instant, initial}
use raise.Store.{Client, Key}
use raise.World.{M, catch, pure, World, World, ok, ◌>>◌, Result-cases}
use raise.Prelude.{◌≡◌, inl, inr, refl}

unfoldable on_visit_confirmed : Client → (World → World) → Instant → Key → Key → M (Unit {0})
on_visit_confirmed c meanwhile now r v =
    catch (do recompute c meanwhile now r v initial; pure tt) λ e. pure tt

-- The subscriber never throws.
on_visit_confirmed_quiet :
    (c : Client) (meanwhile : World → World) (now : Instant) (r v : Key) (w : World)
    → (on_visit_confirmed c meanwhile now r v w).0 ≡ ok tt
unfolding on_visit_confirmed
on_visit_confirmed_quiet c meanwhile now r v w =
    elim (Result-cases (recompute c meanwhile now r v initial w).0) [
      | inl (x, e) ↦ rw e refl
      | inr (x, e) ↦ rw e refl
    ]
