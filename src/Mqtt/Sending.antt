-- ===== src/Mqtt/Sending.antt =====
-- mqtt/AnuDBMqttClient.cpp: send_response.
pub mod Retries
use anu_db.Base.{
  ℕ, zero, suc, ◌+◌, Bool, true, false, not, ◌&&◌, Option, none, some, if◌then◌else◌, leb,
}

-- What nng_ctx_sendmsg returns: 0, NNG_ETIMEDOUT, NNG_EAGAIN or another error.
pub data Reply : Type 0 where
  accepted : Reply
  timed_out : Reply
  try_again : Reply
  refused : Reply

-- The variables of the loop, and how often nng_ctx_sendmsg and nng_msg_free were called.
pub record Sending : Type 0 where
  pub attempt : ℕ
  pub sent_successfully : Bool
  pub calls : ℕ
  pub frees : ℕ

abbrev pub max_retries : ℕ
max_retries = 3

abbrev pub unsent : Sending
unsent = record { attempt = 0; sent_successfully = false; calls = 0; frees = 0 }

abbrev called : Sending → Sending
called s = record s { calls = s.calls + 1 }

abbrev freed : Sending → Sending
freed s = record s { frees = s.frees + 1 }

-- A failed attempt that may be repeated, with the rest of the loop.
retry : (Sending → Option Sending) → Sending → Option Sending
retry rest s =
    let s' = record s { attempt = s.attempt + 1 } in
    let again = rest s' in if leb s'.attempt max_retries then again else some (freed s')

after_reply : (Sending → Option Sending) → Reply → Sending → Option Sending
unfolding retry
after_reply rest accepted s = some (record s { sent_successfully = true })
after_reply rest timed_out s = retry rest s
after_reply rest try_again s = retry rest s
after_reply rest refused s = some (freed s)

-- The replies are a function of the calls before. `none` is a loop whose fuel ran out.
unfoldable pub send_loop : (ℕ → Reply) → ℕ → Sending → Option Sending
unfolding after_reply
send_loop reply zero s = none
send_loop reply (suc fuel) s =
    let body = after_reply (send_loop reply fuel) (reply s.calls) (called s) in
    if leb s.attempt max_retries && not s.sent_successfully then body else some s

-- Nothing is sent where no message could be allocated. Four rounds are enough.
unfoldable pub send_response : Bool → (ℕ → Reply) → Option Sending
unfolding send_loop
send_response allocated reply = if allocated then send_loop reply 4 unsent else some unsent
