-- ===== src/Mqtt/Client/Stopping.antt =====
-- mqtt/AnuDBMqttClient.cpp: what stop leaves.
use anu_db.Base.{◌≡◌, false, [], if◌then◌else◌, Bool-cases, inl, inr}
use anu_db.Exec.{returns}
use anu_db.Json.{Json}
use anu_db.RocksDb.{RocksDb}
use anu_db.Engine.{Engine}
use anu_db.Database.Objects.{close_database-returns}
use anu_db.Mqtt.Client.{Client, stop}

module _ ⦃R : RocksDb⦄ ⦃J : Json⦄ (c : Client R J) where
  -- A client after stop, with this engine.
  abbrev pub stopped : Engine R → Client R J
  stopped e = record {
    running = false;
    session = record c.session {
      database = record { is_db_open = false; engine = e; collections = [] };
      coll_map = [];
    };
    workers = [];
  }

  -- Whatever RocksDB says, stop returns. A client that runs is left without workers, without
  -- pointers to collections, and with a database that is marked as closed and has no collection
  -- objects; another client is left as it is.
  pub stop_lem : (e : Engine R) × (stop c ≡ (returns tt, if c.running then stopped e else c))
  unfolding stop
  stop_lem =
      let (t, e, closed) = close_database-returns c.session.database in
      elim (Bool-cases c.running) [ inl runs ↦ (e, rw (runs, closed)) | inr idle ↦ (e, rw idle) ]
