-- ===== src/World.antt =====
-- The state that the goroutines of main.go share: the cache, which holds the database, and the
-- alert channel.
use cron_mon.Cache.{StateCache}
use cron_mon.Alerts.{AlertChannel}

pub record World (Db : Type 0) : Type 0 where
  pub cache : StateCache Db
  pub alerts : AlertChannel

abbrev pub with_db : {Db : Type 0} → World Db → Db → World Db
with_db w db = record w { cache = record w.cache { db = db } }
