-- ===== src/Mqtt/Worker/Turns.antt =====
-- What the turns of a worker keep, and how a request comes to its answer.
use anu_db.Base.{ℕ, ◌+◌, ◌≡◌, refl, Bool, true, false, List, [], ◌∷◌, Option, none, some, Bytes}
use anu_db.Exec.{returns}
use anu_db.Mqtt.Worker.{
  State, Message, Work, Call, Outcome, Handler, Turned, client_cb, turn_of, received_turn,
  wait_turn, handled, answered, send_turn, reply_turn, published,
}

-- A message is held in the state WAIT only, and a reply has an identifier to be sent to.
abbrev HoldsMessage : State → Option Message → Type 0
HoldsMessage State.wait none = ⊥
HoldsMessage State.wait (some m) = Unit
HoldsMessage _ none = Unit
HoldsMessage _ (some m) = ⊥

abbrev HasId : Option Bytes → Option Bytes → Type 0
HasId none id = Unit
HasId (some r) none = ⊥
HasId (some r) (some id) = Unit

abbrev pub IsReady : Work → Type 0
IsReady w = HoldsMessage w.state w.msg × HasId w.reply w.request_id

-- The operations that a turn starts, after which nng calls the worker again.
abbrev pub started : List Call → ℕ
started [] = 0
started (Call.free m ∷ cs) = started cs
started (c ∷ cs) = 1 + started cs

-- The messages that a turn frees, and those that a worker holds.
abbrev pub freed : List Call → ℕ
freed [] = 0
freed (Call.free m ∷ cs) = 1 + freed cs
freed (c ∷ cs) = freed cs

abbrev pub held : Option Message → ℕ
held none = 0
held (some m) = 1

-- A turn that went well: one operation is started, and a message held before is freed, or else none.
abbrev pub GoesWell : Work → Turned → Type 0
GoesWell w t =
    (w' : Work) × (calls : List Call) × (t ≡ returns (w', calls))
    × IsReady w'
    × (started calls ≡ 1)
    × (freed calls ≡ held w.msg)

-- The turns of a worker that holds a message.
answered-GoesWell :
    (id answer : Bytes) (m : Message) (old reply : Option Bytes)
    → GoesWell
        (record { state = State.wait; msg = some m; request_id = old; reply = reply })
        (answered id answer m
          (record { state = State.wait; msg = some m; request_id = old; reply = reply }))
unfolding answered
answered-GoesWell id [] m old none = (_, _, refl, (tt, tt), refl, refl)
answered-GoesWell id [] m old (some r) = (_, _, refl, (tt, tt), refl, refl)
answered-GoesWell id (c ∷ cs) m old reply = (_, _, refl, (tt, tt), refl, refl)

handled-GoesWell :
    (handle : Handler) (m : Message) (payload : Bytes) (id reply : Option Bytes)
    → HasId reply id
    → GoesWell
        (record { state = State.wait; msg = some m; request_id = id; reply = reply })
        (handled handle m payload
          (record { state = State.wait; msg = some m; request_id = id; reply = reply }))
unfolding handled
handled-GoesWell handle m [] id reply r = (_, _, refl, (tt, r), refl, refl)
handled-GoesWell handle m (c ∷ cs) id reply r =
    answered-GoesWell (handle m.topic (c ∷ cs)).0 (handle m.topic (c ∷ cs)).1 m id reply

received_turn-GoesWell :
    (o : Outcome) (succeeded : Bool) (id reply : Option Bytes)
    → o.succeeded ≡ succeeded
    → HasId reply id
    → GoesWell
        (record { state = State.recv; msg = none; request_id = id; reply = reply })
        (received_turn o
          (record { state = State.recv; msg = none; request_id = id; reply = reply }))
unfolding received_turn
received_turn-GoesWell o true id reply e r = (
  record { state = State.wait; msg = some o.received; request_id = id; reply = reply },
  Call.sleep ∷ [],
  rw e,
  (tt, r),
  refl,
  refl,
)
received_turn-GoesWell o false id reply e r = (
  record { state = State.recv; msg = none; request_id = id; reply = reply },
  Call.receive ∷ [],
  rw e,
  (tt, r),
  refl,
  refl,
)

reply_turn-GoesWell :
    (allocated : Bool) (id reply : Option Bytes)
    → HasId reply id
    → GoesWell
        (record { state = State.send; msg = none; request_id = id; reply = reply })
        (reply_turn allocated reply
          (record { state = State.send; msg = none; request_id = id; reply = reply }))
unfolding reply_turn
reply_turn-GoesWell allocated id none r = (_, _, refl, (tt, tt), refl, refl)
reply_turn-GoesWell allocated none (some reply) r = absurd r
reply_turn-GoesWell true (some id) (some reply) r = (_, _, refl, (tt, tt), refl, refl)
reply_turn-GoesWell false (some id) (some reply) r = (_, _, refl, (tt, tt), refl, refl)

send_turn-GoesWell :
    (o : Outcome) (succeeded : Bool) (id reply : Option Bytes)
    → o.succeeded ≡ succeeded
    → HasId reply id
    → GoesWell
        (record { state = State.send; msg = none; request_id = id; reply = reply })
        (send_turn o (record { state = State.send; msg = none; request_id = id; reply = reply }))
unfolding send_turn
send_turn-GoesWell o true id reply e r =
    let (w, calls, t, ready, one, all) = reply_turn-GoesWell o.allocated id reply r in
    (w, calls, rw e t, ready, one, all)
send_turn-GoesWell o false id reply e r = (
  record { state = State.recv; msg = none; request_id = id; reply = reply },
  Call.receive ∷ [],
  rw e,
  (tt, r),
  refl,
  refl,
)

turn_of-GoesWell :
    (handle : Handler) (o : Outcome) (s : State) (msg : Option Message) (id reply : Option Bytes)
    → IsReady (record { state = s; msg = msg; request_id = id; reply = reply })
    → GoesWell
        (record { state = s; msg = msg; request_id = id; reply = reply })
        (turn_of handle o s (record { state = s; msg = msg; request_id = id; reply = reply }))
unfolding turn_of wait_turn
turn_of-GoesWell handle o State.init none id reply r = (_, _, refl, (tt, r.1), refl, refl)
turn_of-GoesWell handle o State.init (some m) id reply r = absurd r.0
turn_of-GoesWell handle o State.recv (some m) id reply r = absurd r.0
turn_of-GoesWell handle o State.recv none id reply r =
    received_turn-GoesWell o o.succeeded id reply refl r.1
turn_of-GoesWell handle o State.wait none id reply r = absurd r.0
turn_of-GoesWell handle o State.wait (some m) id reply r =
    handled-GoesWell handle m m.payload id reply r.1
turn_of-GoesWell handle o State.send (some m) id reply r = absurd r.0
turn_of-GoesWell handle o State.send none id reply r =
    send_turn-GoesWell o o.succeeded id reply refl r.1

-- Each turn of a ready worker, whatever nng and the handler return, ends without dereferencing a
-- null pointer in a ready worker, starts exactly one operation, so that the worker is called again,
-- and frees the message that it held, if it held one.
pub client_cb-GoesWell :
    (handle : Handler) (o : Outcome) (w : Work) → IsReady w → GoesWell w (client_cb handle o w)
unfolding client_cb
client_cb-GoesWell handle o w r = turn_of-GoesWell handle o w.state w.msg w.request_id w.reply r

-- A worker that waits with a request whose payload and answer are not empty frees it, publishes the
-- answer under the identifier of the request, and receives again, in three turns, if the operations
-- succeed and a message can be allocated.
pub client_cb_publishes :
    (handle : Handler) (first second third : Outcome) (w : Work) (topic cs id as_ : Bytes) (c a : ℕ)
    → w.state ≡ State.wait
    → w.msg ≡ some (record { topic = topic; payload = c ∷ cs })
    → handle topic (c ∷ cs) ≡ (id, a ∷ as_)
    → second.succeeded ≡ true
    → second.allocated ≡ true
    → third.succeeded ≡ true
    → (w1 w2 w3 : Work) × (client_cb handle first w
        ≡ returns (w1, Call.free (record { topic = topic; payload = c ∷ cs }) ∷ Call.sleep ∷ []))
      × (client_cb handle second w1 ≡ returns (w2, Call.publish id (a ∷ as_) ∷ []))
      × (client_cb handle third w2 ≡ returns (w3, Call.receive ∷ []))
      × (w3.state ≡ State.recv)
unfolding client_cb turn_of wait_turn handled answered send_turn reply_turn published
client_cb_publishes handle first second third w topic cs id as_ c a s e h b d f = (
  record { state = State.send; msg = none; request_id = some id; reply = some (a ∷ as_) },
  record { state = State.send; msg = none; request_id = none; reply = none },
  record { state = State.recv; msg = none; request_id = none; reply = none },
  rw (s, e, h),
  rw (b, d),
  rw f,
  refl,
)
