-- ===== src/Mqtt/Client/System.antt =====
-- mqtt/AnuDBMqttClient.cpp: a client, its workers and its database together. nng calls client_cb for
-- the workers in any order; the mutex of handle_request makes a turn one step. A stop is one step too,
-- though stop() does not take the mutex: a stop during a request is left out.
use anu_db.Base.{ℕ, ◌≡◌, Bool, List, [], some, Bytes, All, set, get_elem?, lookup, arith}
use anu_db.Exec.{returns}
use anu_db.Json.{Json}
use anu_db.RocksDb.{RocksDb}
use anu_db.Mqtt.Session.{Session, Surroundings, Pointer}
use anu_db.Mqtt.Session.Pointers.{Tracks}
use anu_db.Mqtt.Worker.{Work, Call, Outcome}
use anu_db.Mqtt.Worker.Turns.{IsReady}
use anu_db.Mqtt.Requests.{worker_turn}
use anu_db.Mqtt.Client.{Client, Launch, start, stop}

pub nothing_tracked : (n : Bytes) (p : Pointer) → lookup n [] ≡ some p → ⊥
unfolding lookup
nothing_tracked n p h = ground (arith, h)

module _ ⦃R : RocksDb⦄ ⦃J : Json⦄ where
  -- Every worker is ready for its next turn, and every pointer of collMap_ is to an object that the
  -- database has.
  abbrev pub IsSound : Client R J → Type 0
  IsSound c = All IsReady c.workers × Tracks c.session

module _ ⦃R : RocksDb⦄ ⦃J : Json⦄ (env : Surroundings J) where
  -- A start, a stop, or a turn of a worker, each of which returns.
  pub data Step : Client R J → Client R J → Type 0 where
    starts : (l : Launch) (c c' : Client R J) (b : Bool) → start l c ≡ (returns b, c') → Step c c'
    stops : (c c' : Client R J) → stop c ≡ (returns tt, c') → Step c c'
    turns :
        (c : Client R J) (i : ℕ) (o : Outcome) (w w' : Work) (calls : List Call) (s : Session R J)
        → get_elem? c.workers i ≡ some w
        → worker_turn env o w c.session ≡ (returns (w', calls), s)
        → Step c (record c { session = s; workers = set c.workers i w' })

  pub data Reaches (c : Client R J) : Client R J → Type 0 where
    here : Reaches c c
    after : {d e : Client R J} → Reaches c d → Step d e → Reaches c e
