-- ===== src/System/Interleaved.antt =====
-- The program of main.go with the requests of internal/handler/ping.go and check.go as two steps
-- each: a handler reads its check from the cache, and writes it back when other goroutines may
-- have run.
pub mod Births
pub mod Moves
use mathlib.Core.Option
use cron_mon.Base.{ℕ, zero, suc, Option, none, some, List, [], ◌∷◌, ◌++◌}
use cron_mon.Base.Text.{Text}
use cron_mon.Time.{Time}
use cron_mon.Model.{Check, PingType}
use cron_mon.Http.{Request}
use cron_mon.Cache.{get}
use cron_mon.World.{World}
use cron_mon.Handler.Ping
use cron_mon.Handler.Check
use cron_mon.System.{Services, Event, step}

-- A request that reads a check and writes it back.
pub data Access : Type 0 where
  ping : Text → PingType → Time → Request → Access
  update : Text → Time → Request → Access
  pause : Text → Time → Access

abbrev pub key_of : Access → Text
key_of (ping uuid type now r) = uuid
key_of (update id now r) = id
key_of (pause id now) = id

-- A request that has read its check, or found that there is none.
pub record Pending : Type 0 where
  pub access : Access
  pub read : Option Check

pub data Move : Type 0 where
  whole : Event → Move
  reads : Access → Move
  -- The request at that place among those that are pending.
  writes : ℕ → Move

pub record Machine (Db : Type 0) : Type 0 where
  pub world : World Db
  pub pending : List Pending

-- The request at the place, and the others.
unfoldable pub pick : ℕ → List Pending → Option (Pending × List Pending)
pick n [] = none
pick zero (p ∷ ps) = some (p, ps)
pick (suc n) (p ∷ ps) = Option.map (λ (q, qs). (q, p ∷ qs)) (pick n ps)

module _ {Db : Type 0} (s : Services Db) where
  open s use {cron, checks, channels, ping_rows, trusted_proxy}

  -- What the handler does after its read.
  unfoldable pub finish : Access → Option Check → World Db → World Db
  finish (ping uuid type now r) read w =
      Ping.handle_known cron checks channels ping_rows trusted_proxy read type now r w
  finish (update id now r) read w = (Check.update_known checks cron id now r read w).1
  finish (pause id now) read w = (Check.pause_known checks id now read w).1

  unfoldable pub finish_picked : Option (Pending × List Pending) → Machine Db → Machine Db
  unfolding finish
  finish_picked none m = m
  finish_picked (some (p, ps)) m = record { world = finish p.access p.read m.world; pending = ps }

  unfoldable pub move : Move → Machine Db → Machine Db
  unfolding step finish_picked pick
  move (whole e) m = record m { world = step s e m.world }
  move (reads a) m =
      let p : Pending = record { access = a; read = get (key_of a) m.world.cache } in
      record m { pending = m.pending ++ p ∷ [] }
  move (writes n) m = finish_picked (pick n m.pending) m

  unfoldable pub moves : List Move → Machine Db → Machine Db
  unfolding move
  moves [] m = m
  moves (x ∷ xs) m = moves xs (move x m)
