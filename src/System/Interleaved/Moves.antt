-- ===== src/System/Interleaved/Moves.antt =====
-- Interleaved requests to internal/handler, with the checks that they have read, under the
-- invariant of the shared state.
use mathlib.Core.Option
use cron_mon.Base.{◌≡◌, refl, ℕ, zero, suc, Option, none, some, List, [], ◌∷◌, All, All-append}
use cron_mon.Base.Text.{Text}
use cron_mon.Time.{Time}
use cron_mon.Cache.Coherence.{CheckStore}
use cron_mon.World.{World}
use cron_mon.Handler.Ping.{handle}
use cron_mon.Handler.Check.{handle_update, handle_pause}
use cron_mon.System.{Services, LeavesChecks, Event, pings, updates, pauses, step}
use cron_mon.System.Interleaved.{
  Access, ping, update, pause, key_of, Pending, Move, whole, reads, writes, Machine, pick, finish,
  finish_picked, move, moves,
}
use cron_mon.System.Interleaved.Births.{
  Good, IsReadable, IsFresh, finish-Good, get-IsReadable, step-Good,
}

-- The request as one event.
abbrev event_of : Access → Event
event_of (ping uuid type now r) = pings uuid type now r
event_of (update id now r) = updates id now r
event_of (pause id now) = pauses id now

-- A request that writes right after its read is the whole handler.
pub move-reads :
    {Db : Type 0} (s : Services Db) (a : Access) (w : World Db)
    → moves s (reads a ∷ writes 0 ∷ []) (record { world = w; pending = [] })
      ≡ record { world = step s (event_of a) w; pending = [] }
unfolding moves move finish_picked pick finish step handle handle_update handle_pause
move-reads s (ping uuid type now r) w = refl
move-reads s (update id now r) w = refl
move-reads s (pause id now) w = refl

module _ {Db : Type 0} (s : Services Db) (laws : CheckStore s.checks) (leaves : LeavesChecks s laws)
    (born : Text → Time) where
  -- The machine: a good state, and readable checks in the requests that are pending.
  abbrev pub AllReadable : List Pending → Type 0
  AllReadable = All (λ p. IsReadable s laws leaves born p.read)

  pub record Sound (m : Machine Db) : Type 0 where
    pub good : Good s laws leaves born m.world
    pub readable : AllReadable m.pending

  -- A new UUID is given to one check only.
  abbrev pub IsFreshMove : Move → Type 0
  IsFreshMove (whole e) = IsFresh s laws leaves born e
  IsFreshMove (reads a) = Unit {0}
  IsFreshMove (writes n) = Unit {0}

  abbrev Picked : Option (Pending × List Pending) → Type 0
  Picked none = Unit {0}
  Picked (some (p, ps)) = IsReadable s laws leaves born p.read × AllReadable ps

  behind-Picked :
      (p : Pending) (o : Option (Pending × List Pending))
      → IsReadable s laws leaves born p.read
      → Picked o
      → Picked (Option.map (λ (q, qs). (q, p ∷ qs)) o)
  behind-Picked p none ready h = tt
  behind-Picked p (some (q, qs)) ready h = (h.0, (ready, h.1))

  pick-Picked : (n : ℕ) (ps : List Pending) → AllReadable ps → Picked (pick n ps)
  unfolding pick
  pick-Picked zero [] h = tt
  pick-Picked zero (p ∷ ps) h = h
  pick-Picked (suc n) [] h = tt
  pick-Picked (suc n) (p ∷ ps) h = behind-Picked p (pick n ps) h.0 (pick-Picked n ps h.1)

  finish_picked-Sound :
      (o : Option (Pending × List Pending)) (m : Machine Db)
      → Picked o
      → Sound m
      → Sound (finish_picked s o m)
  unfolding finish_picked
  finish_picked-Sound none m h v = v
  finish_picked-Sound (some (p, ps)) m h v = record {
    good = finish-Good s laws leaves born p.access p.read m.world h.0 v.good;
    readable = h.1;
  }

  move-Sound : (x : Move) (m : Machine Db) → IsFreshMove x → Sound m → Sound (move s x m)
  unfolding move
  move-Sound (whole e) m fresh v = record {
    good = step-Good s laws leaves born e m.world fresh v.good;
    readable = v.readable;
  }
  move-Sound (reads a) m fresh v = record {
    good = v.good;
    readable =
        All-append _ m.pending _ v.readable
          (get-IsReadable s laws leaves born (key_of a) m.world v.good, tt);
  }
  move-Sound (writes n) m fresh v =
      finish_picked-Sound (pick n m.pending) m (pick-Picked n m.pending v.readable) v

  -- However the reads and the writes of the requests are interleaved with each other and with all
  -- other events, the cache stays keyed by ID and in agreement with the database, the alert
  -- channel within its capacity, and each cached check paused exactly if it has saved a status to
  -- restore, which is not "paused", and so is each check that a pending request has read; whether
  -- database calls succeed or fail, as long as each UUID is given to one check only.
  pub moves-Sound :
      (xs : List Move) (m : Machine Db) → All IsFreshMove xs → Sound m → Sound (moves s xs m)
  unfolding moves
  moves-Sound [] m fresh v = v
  moves-Sound (x ∷ xs) m fresh v = moves-Sound xs (move s x m) fresh.1 (move-Sound x m fresh.0 v)
