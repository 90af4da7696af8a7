-- ===== src/Mqtt/Client.antt =====
-- mqtt/AnuDBMqttClient.cpp: start and stop. The texts of the certificates, the user's name and the
-- messages on the console are left out; what nng returns is an argument.
pub mod Starting
pub mod Stopping
pub mod System
use anu_db.Base.{Bool, true, false, List, [], ◌∷◌, ◌++◌, Option, none, some, if◌then◌else◌}
use anu_db.Status.{is_ok}
use anu_db.Exec.{Exec, Result, returns, ◌>>=◌, ◌>>◌, pure, crash, gets, from_result}
use anu_db.Json.{Json}
use anu_db.RocksDb.{RocksDb}
use anu_db.Database.{open_database, close_database}
use anu_db.Mqtt.Session.{Session, on_database, set_coll_map}
use anu_db.Mqtt.Worker.{State, Work, Outcome, client_cb}

pub record Client (R : RocksDb) (J : Json) : Type 0 where
  pub running : Bool
  pub session : Session R J
  pub workers : List Work

-- Whether the calls of nng succeed: opening the client, each alloc_work(), creating the dialer, its
-- TLS configuration, and starting it.
pub record Launch : Type 0 where
  pub client_open : Bool
  pub can_alloc : List Bool
  pub dialer_created : Bool
  pub tls_enabled : Bool
  pub tls_ready : Bool
  pub dialer_started : Bool

abbrev new_work : Work
new_work = record { state = State.init; msg = none; request_id = none; reply = none }

-- alloc_work() for each place of `works`; `none` is the null pointer.
pub alloc_works : List Bool → List (Option Work)
alloc_works [] = []
alloc_works (b ∷ bs) = (if b then some new_work else none) ∷ alloc_works bs

-- workers_.push_back(work)
pub pushed : List (Option Work) → List Work
pushed [] = []
pushed (none ∷ ws) = pushed ws
pushed (some w ∷ ws) = w ∷ pushed ws

-- The first turn looks at no result of nng.
abbrev no_outcome : Outcome
no_outcome = record {
  succeeded = true;
  received = record { topic = []; payload = [] };
  allocated = true;
}

module _ ⦃R : RocksDb⦄ ⦃J : Json⦄ where
  abbrev in_client : {A : Type 0} → Client R J → Result A × Session R J → Result A × Client R J
  in_client c (r, s) = (r, record c { session = s })

  abbrev pub on_session : {A : Type 0} → Exec (Session R J) A → Exec (Client R J) A
  on_session m c = in_client c (m c.session)

  abbrev set_running : Bool → Exec (Client R J) (Unit {0})
  set_running b c = (returns tt, record c { running = b })

  abbrev set_workers : List Work → Exec (Client R J) (Unit {0})
  set_workers ws c = (returns tt, record c { workers = ws })

  -- client_cb(works[i]): the first turn of each worker; a null pointer is dereferenced.
  first_turns : List (Option Work) → Exec (Client R J) (List Work)
  first_turns [] = pure []
  first_turns (none ∷ ws) = crash
  first_turns (some w ∷ ws) = do
    (w', calls) ← from_result (client_cb (λ t p. ([], [])) no_outcome w)
    rest ← first_turns ws
    pure (w' ∷ rest)

  -- A step of nng, or `return false`.
  abbrev or_false : Bool → Exec (Client R J) Bool → Exec (Client R J) Bool
  or_false b rest = if b then rest else pure false

  -- The workers of this start stand after those of an earlier one that failed.
  launched : List Work → List (Option Work) → Exec (Client R J) Bool
  unfolding first_turns
  launched earlier works = do
    turned ← first_turns works
    set_workers (earlier ++ turned)
    set_running true
    pure true

  dialed : Launch → Exec (Client R J) Bool
  unfolding launched alloc_works pushed
  dialed l =
      let works = alloc_works l.can_alloc in
      let tls = if l.tls_enabled then l.tls_ready else true in
      do
        earlier ← gets (λ c. c.workers)
        set_workers (earlier ++ pushed works)
        or_false l.dialer_created
            (or_false tls (or_false l.dialer_started (launched earlier works)))

  -- Where the database does not open, `return 1` is true.
  unfoldable pub start : Launch → Exec (Client R J) Bool
  unfolding dialed
  start l = do
    running ← gets (λ c. c.running)
    let opened = do
      status ← on_session (on_database open_database)
      if is_ok status then or_false l.client_open (dialed l) else pure true
    if running then pure true else opened

  -- A status of close() is only printed. The code does not take the mutex of handle_request; here
  -- no worker has a turn while it runs. The buffers of certificates, which it frees, are left out.
  unfoldable pub stop : Exec (Client R J) (Unit {0})
  stop = do
    running ← gets (λ c. c.running)
    let stopped = do
      set_running false
      on_session (set_coll_map (λ m. []))
      status ← on_session (on_database close_database)
      set_workers []
    if running then stopped else pure tt
