-- ===== src/Mqtt/Session.antt =====
-- mqtt/AnuDBMqttClient.cpp: what the handlers of requests change: the database, the pointers to its
-- collection objects, the response, and the responses handed to send_response. `db_` is never null,
-- since main() passes the database that it made, so a test of it is left out.
pub mod Answers
pub mod Pointers
use anu_db.Base.{
  ℕ, Bool, true, false, List, [], ◌∷◌, ◌++◌, Option, none, some, Bytes, codes, Dict, lookup, insert,
  if◌then◌else◌,
}
use anu_db.Exec.{
  Exec, Result, Try, ◌>>=◌, ◌>>◌, ◌>>?◌, pure, crash, gets, lift, try_catch, gives, throws, returns,
  raises,
}
use anu_db.Json.{Json}
use anu_db.RocksDb.{RocksDb}
use anu_db.Engine.{Engine}
use anu_db.Engine.Export.{Files, Disk}
use anu_db.Collection.{Chance}
use anu_db.Database.{Database, get_collection, on_engine}

-- A Collection*: to an object of the database, to one that was destroyed, or null.
pub data Pointer : Type 0 where
  live dangling null : Pointer

pub record Session (R : RocksDb) (J : Json) : Type 0 where
  pub database : Database R
  -- `collMap_`
  pub coll_map : Dict Pointer
  -- `resp`
  pub resp : J.Value
  -- The topics and payloads of the responses that were sent before the last.
  pub sent : List (Bytes × Bytes)
  -- The files of exports.
  pub files : Files

-- What the handlers take from outside: the fuel of loops over iterators, the time and rand(), the
-- file system, and dump(4) of the JSON library.
pub record Surroundings (J : Json) : Type 0 where
  pub fuel : ℕ
  pub chance : Chance
  pub disk : Disk
  pub dump_indented : J.Value → Try Bytes
  -- Whether the thread of an export runs before the call that starts it returns.
  pub early : Bool

module _ ⦃R : RocksDb⦄ ⦃J : Json⦄ where
  abbrev pub in_session :
      {A : Type 0} → Session R J → Result A × Database R → Result A × Session R J
  in_session s (r, d) = (r, record s { database = d })

  -- A call of the database.
  abbrev pub on_database : {A : Type 0} → Exec (Database R) A → Exec (Session R J) A
  on_database m s = in_session s (m s.database)

  abbrev pub set_coll_map : (Dict Pointer → Dict Pointer) → Exec (Session R J) (Unit {0})
  set_coll_map f s = (returns tt, record s { coll_map = f s.coll_map })

  abbrev pub set_resp : J.Value → Exec (Session R J) (Unit {0})
  set_resp v s = (returns tt, record s { resp = v })

  -- send_response(payload, work, response_topic)
  abbrev pub send : Bytes → Bytes → Exec (Session R J) (Unit {0})
  send topic payload s = (returns tt, record s { sent = s.sent ++ (topic, payload) ∷ [] })

  abbrev answered : Session R J → Try J.Value → Result (Unit {0}) × Session R J
  answered s (gives v) = (returns tt, record s { resp = v })
  answered s (throws m) = (raises m, s)

  -- resp[key] = text
  abbrev pub answer : Bytes → Bytes → Exec (Session R J) (Unit {0})
  answer key text s = answered s (J.set_member s.resp key (J.string_value text))

  -- resp["status"] = status; resp["message"] = message;
  abbrev pub say : Bytes → Bytes → Exec (Session R J) (Unit {0})
  say status message = answer (codes "status") status >> answer (codes "message") message

  -- std::string x = req[key]
  abbrev pub text_at : J.Value → Bytes → Exec (Session R J) Bytes
  text_at req key = lift (J.at_key req key >>? λ v. J.get_string v)

  -- try { body } catch (const std::exception& e) { ... "Exception: " + e.what() }
  abbrev pub guarded : Exec (Session R J) (Unit {0}) → Exec (Session R J) (Unit {0})
  guarded body = try_catch body (λ m. say (codes "error") (codes "Exception: " ++ m))

  abbrev pointed : Option Pointer → Bytes → Exec (Session R J) Bool
  pointed (some p) name = pure true
  pointed none name = do
    found ← on_database (get_collection name)
    let bound = set_coll_map (λ m. insert name live m) >> pure true
    let missing =
        say (codes "error") (codes "Collection :" ++ (name ++ codes " is not found")) >> pure false
    if found then bound else missing

  -- Whether collMap_ has a pointer to the collection, after one was asked of the database.
  abbrev pub find_collection : Bytes → Exec (Session R J) Bool
  find_collection name = gets (λ s. lookup name s.coll_map) >>= λ p. pointed p name

  abbrev through : {A : Type 0} → Option Pointer → Exec (Engine R) A → Exec (Session R J) A
  through (some live) m = on_database (on_engine m)
  through (some dangling) m = crash
  through (some null) m = crash
  through none m = crash

  -- A call through collMap_[name].
  abbrev pub on_collection : {A : Type 0} → Bytes → Exec (Engine R) A → Exec (Session R J) A
  on_collection name m = gets (λ s. lookup name s.coll_map) >>= λ p. through p m

  -- Dropping a collection destroys the object that a pointer was to.
  abbrev pub expired : Option Pointer → Bytes → Dict Pointer → Dict Pointer
  expired (some live) name m = insert name dangling m
  expired _ name m = m

  abbrev pub expire : Bytes → Exec (Session R J) (Unit {0})
  expire name = set_coll_map (λ m. expired (lookup name m) name m)
