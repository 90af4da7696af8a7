-- ===== src/Mqtt/Client/Starting.antt =====
-- mqtt/AnuDBMqttClient.cpp: how start ends.
use anu_db.Base.{
  ◌≡◌, refl, sym, ◌∙◌, Bool, true, false, ◌&&◌, List, [], ◌∷◌, ◌++◌, none, if◌then◌else◌, arith,
  Bool-cases, inl, inr, map,
}
use anu_db.Status.{Status, is_ok}
use anu_db.Exec.{returns, crashes}
use anu_db.Json.{Json}
use anu_db.RocksDb.{RocksDb}
use anu_db.Engine.{open_engine}
use anu_db.Database.{open_database}
use anu_db.Database.Objects.{open_database-returns}
use anu_db.Mqtt.Worker.{State, Work, client_cb}
use anu_db.Mqtt.Client.{Client, Launch, alloc_works, pushed, first_turns, launched, dialed, start}

abbrev pub all_true : List Bool → Bool
all_true [] = true
all_true (b ∷ bs) = b && all_true bs

-- A worker after its first turn: it waits for a request.
abbrev pub receiving : Work
receiving = record { state = State.recv; msg = none; request_id = none; reply = none }

abbrev pub each_receiving : List Bool → List Work
each_receiving = map (λ b. receiving)

-- Whether the dialer is created, has its TLS configuration where TLS is enabled, and starts.
abbrev pub dials : Launch → Bool
dials l = l.dialer_created && (if l.tls_enabled then l.tls_ready else true) && l.dialer_started

module _ ⦃R : RocksDb⦄ ⦃J : Json⦄ where
  first_turns_lem :
      (bs : List Bool) (c : Client R J)
      → first_turns (alloc_works bs) c
        ≡ (if all_true bs then (returns (each_receiving bs), c) else (crashes, c))
  unfolding first_turns alloc_works client_cb
  first_turns_lem [] c = refl
  first_turns_lem (false ∷ bs) c = refl
  first_turns_lem (true ∷ bs) c = elim (Bool-cases (all_true bs)) [
    | inl all ↦ rw (first_turns_lem bs c, all)
    | inr lack ↦ rw (first_turns_lem bs c, lack)
  ]

  launched_lem :
      (earlier : List Work) (bs : List Bool) (c : Client R J)
      → launched earlier (alloc_works bs) c ≡ (
          if all_true bs
          then (returns true, record c { running = true; workers = earlier ++ each_receiving bs })
          else (crashes, c))
  unfolding launched
  launched_lem earlier bs c = elim (Bool-cases (all_true bs)) [
    | inl all ↦ rw (first_turns_lem bs c, all)
    | inr lack ↦ rw (first_turns_lem bs c, lack)
  ]

  -- From the allocation of the workers on.
  dialed_lem :
      (l : Launch) (c : Client R J)
      → let allocated = record c { workers = c.workers ++ pushed (alloc_works l.can_alloc) } in
        dialed l c ≡ (
          if dials l
          then (if all_true l.can_alloc
              then (
                returns true,
                record c { running = true; workers = c.workers ++ each_receiving l.can_alloc },
              )
              else (crashes, allocated))
          else (returns false, allocated))
  unfolding dialed
  dialed_lem l c =
      let earlier = c.workers in
      let allocated = record c { workers = earlier ++ pushed (alloc_works l.can_alloc) } in
      elim (Bool-cases l.dialer_created) [
        | inl created ↦ elim (Bool-cases (if l.tls_enabled then l.tls_ready else true)) [
          | inl ready ↦ elim (Bool-cases l.dialer_started) [
            | inl dialed_now ↦
                rw (created, ready, dialed_now) (launched_lem earlier l.can_alloc allocated)
            | inr fails ↦ rw (created, ready, fails)
          ]
          | inr fails ↦ rw (created, fails)
        ]
        | inr fails ↦ rw fails
      ]

  -- For a client that does not run, start looks first at the status of opening the database: where
  -- that is an error it returns true and the client does not run. Otherwise it returns false, and
  -- the client does not run, if nng does not open the client or the dialer fails; if an allocation
  -- of a worker failed it dereferences a null pointer; and else it returns true, and the client
  -- runs with its workers before and all the new ones, each of which waits for a request. Of the
  -- session only the database changes.
  pub start_lem :
      (l : Launch) (c : Client R J) (t : Status)
      → c.running ≡ false
      → (open_engine c.session.database.engine).0 ≡ returns t
      → ((start l c).0 ≡ (
          if is_ok t
          then (if l.client_open && dials l
              then (if all_true l.can_alloc then returns true else crashes)
              else returns false)
          else returns true))
        × ((start l c).1.running ≡ (is_ok t && (l.client_open && dials l) && all_true l.can_alloc))
        × ((start l c).1.workers ≡ (
            if is_ok t && l.client_open
            then c.workers
              ++ (if dials l && all_true l.can_alloc
                  then each_receiving l.can_alloc
                  else pushed (alloc_works l.can_alloc))
            else c.workers))
        × ((start l c).1.session
            ≡ record c.session { database = (open_database c.session.database).1 })
  unfolding start
  start_lem l c t idle opened =
      let (t', r, e) = open_database-returns c.session.database in
      let t_is : t' ≡ t = (let h = sym r ∙ opened in ground (arith, h)) in
      let c1 : Client R J = record c {
        running = false;
        session = record c.session {
          database = record c.session.database {
            is_db_open = true;
            engine = (open_engine c.session.database.engine).1;
          };
        };
      } in
      rw (idle, e, t_is)
        (elim (Bool-cases (is_ok t)) [
          | inl ok ↦ elim (Bool-cases l.client_open) [
            | inl yes_open ↦ elim (Bool-cases (dials l)) [
              | inl yes_dial ↦ elim (Bool-cases (all_true l.can_alloc)) [
                | inl all ↦
                    rw (ok, yes_open) (rw (dialed_lem l c1, yes_dial, all) (refl, refl, refl, refl))
                | inr lack ↦
                    rw (ok, yes_open)
                      (rw (dialed_lem l c1, yes_dial, lack) (refl, refl, refl, refl))
              ]
              | inr no_dial ↦
                  rw (ok, yes_open) (rw (dialed_lem l c1, no_dial) (refl, refl, refl, refl))
            ]
            | inr no_open ↦ rw (ok, no_open) (refl, refl, refl, refl)
          ]
          | inr bad ↦ rw bad (refl, refl, refl, refl)
        ])
