-- ===== src/Tests/Running.antt =====
-- A client with two workers that starts, takes a message and stops.
use anu_db.Base.{◌≡◌, refl, true, false, [], ◌∷◌, some, codes, if◌then◌else◌}
use anu_db.Status
use anu_db.Exec.{returns}
use anu_db.Json.{Json}
use anu_db.RocksDb.{RocksDb}
use anu_db.Engine.{Engine, open_engine}
use anu_db.Database.{open_database}
use anu_db.Mqtt.Worker.{State, Work, Outcome}
use anu_db.Mqtt.Client.{Client, Launch, start, stop}
use anu_db.Mqtt.Client.Starting.{start_lem, receiving}
use anu_db.Mqtt.Client.Stopping.{stopped, stop_lem}
use anu_db.Tests.Memory.{memory}
use anu_db.Tests.Requests.{session}
use anu_db.Tests.Values.{values}

instance abbrev R : RocksDb
R = memory

instance abbrev J : Json
J = values

abbrev idle : Client memory values
idle = record { running = false; session = session; workers = [] }

abbrev launch : Launch
launch = record {
  client_open = true;
  can_alloc = true ∷ true ∷ [];
  dialer_created = true;
  tls_enabled = false;
  tls_ready = false;
  dialer_started = true;
}

opens : (open_engine session.database.engine).0 ≡ returns Status.ok
unfolding open_engine
opens = refl

start_lem_example :
    ((start launch idle).0 ≡ returns true)
    × ((start launch idle).1.running ≡ true)
    × ((start launch idle).1.workers ≡ receiving ∷ receiving ∷ [])
    × ((start launch idle).1.session
        ≡ record session { database = (open_database session.database).1 })
start_lem_example = start_lem launch idle Status.ok refl opens

abbrev running : Client memory values
running = (start launch idle).1

stop_lem_example :
    (e : Engine memory) × (stop running
      ≡ (returns tt, if running.running then stopped running e else running))
stop_lem_example = stop_lem running

abbrev message : Outcome
message = record {
  succeeded = true;
  received = record { topic = codes "anudb/request"; payload = codes "q" };
  allocated = true;
}

abbrev taken : Work
taken = record receiving { state = State.wait; msg = some message.received }

abbrev busy : Client memory values
busy = record running { workers = receiving ∷ taken ∷ [] }
