-- ===== src/Mqtt/Worker.antt =====
-- mqtt/AnuDBMqttClient.cpp: client_cb, which nng calls when the operation that a worker started has
-- ended. A turn of it is a function of the worker and of what the calls of nng return.
pub mod Turns
use anu_db.Base.{Bool, true, false, List, [], ◌∷◌, Option, none, some, Bytes, if◌then◌else◌}
use anu_db.Exec.{Result, returns, crashes}

pub data State : Type 0 where
  init : State
  recv : State
  wait : State
  send : State

pub record Message : Type 0 where
  pub topic : Bytes
  pub payload : Bytes

-- `msg`, `requestid` and `reply` are pointers.
pub record Work : Type 0 where
  pub state : State
  pub msg : Option Message
  pub request_id : Option Bytes
  pub reply : Option Bytes

-- What a turn calls: nng_ctx_recv, nng_sleep_aio, nng_ctx_send with a topic and a payload, and
-- nng_msg_free.
pub data Call : Type 0 where
  receive : Call
  sleep : Call
  publish : Bytes → Bytes → Call
  free : Message → Call

-- Whether the operation that ended had result 0, the message that it received, and whether a message
-- can be allocated.
pub record Outcome : Type 0 where
  pub succeeded : Bool
  pub received : Message
  pub allocated : Bool

-- handle_request of a topic and a payload: the request's identifier and the answer.
abbrev pub Handler : Type 0
Handler = Bytes → Bytes → Bytes × Bytes

abbrev pub Turned : Type 0
Turned = Result (Work × List Call)

-- work->state = RECV; nng_ctx_recv(...)
abbrev receiving : Work → List Call → Turned
receiving w calls = returns (record w { state = State.recv }, calls)

received_turn : Outcome → Work → Turned
received_turn o w =
    if o.succeeded
    then returns (record w { state = State.wait; msg = some o.received }, Call.sleep ∷ [])
    else receiving w (Call.receive ∷ [])

-- The answer of the handler, and the message that is freed.
answered : Bytes → Bytes → Message → Work → Turned
answered id [] m w =
    receiving (record w { msg = none; request_id = some id }) (Call.free m ∷ Call.receive ∷ [])
answered id (c ∷ cs) m w = returns (
  record w { state = State.send; msg = none; request_id = some id; reply = some (c ∷ cs) },
  Call.free m ∷ Call.sleep ∷ [],
)

handled : Handler → Message → Bytes → Work → Turned
unfolding answered
handled handle m [] w = receiving (record w { msg = none }) (Call.free m ∷ Call.receive ∷ [])
handled handle m (c ∷ cs) w = let (id, answer) = handle m.topic (c ∷ cs) in answered id answer m w

wait_turn : Handler → Option Message → Work → Turned
unfolding handled
wait_turn handle none w = crashes
wait_turn handle (some m) w = handled handle m m.payload w

-- The state stays SEND, so that the turn after the sending looks at its result.
published : Option Bytes → Bytes → Work → Turned
published none reply w = crashes
published (some topic) reply w =
    returns (record w { reply = none; request_id = none }, Call.publish topic reply ∷ [])

reply_turn : Bool → Option Bytes → Work → Turned
unfolding published
reply_turn allocated none w = receiving w (Call.receive ∷ [])
reply_turn allocated (some reply) w =
    if allocated then published w.request_id reply w else receiving w (Call.receive ∷ [])

send_turn : Outcome → Work → Turned
unfolding reply_turn
send_turn o w =
    if o.succeeded then reply_turn o.allocated w.reply w else receiving w (Call.receive ∷ [])

turn_of : Handler → Outcome → State → Work → Turned
unfolding received_turn wait_turn send_turn
turn_of handle o State.init w = receiving w (Call.receive ∷ [])
turn_of handle o State.recv w = received_turn o w
turn_of handle o State.wait w = wait_turn handle w.msg w
turn_of handle o State.send w = send_turn o w

unfoldable pub client_cb : Handler → Outcome → Work → Turned
unfolding turn_of
client_cb handle o w = turn_of handle o w.state w
