-- ===== src/Tests/Messages.antt =====
-- The MQTT worker and the sending of a response at concrete replies.
use anu_db.Base.{ℕ, zero, suc, ◌≡◌, refl, true, [], ◌∷◌, none, some, codes}
use anu_db.Exec.{returns}
use anu_db.Mqtt.Worker.{State, Work, Call, Outcome, Handler, client_cb}
use anu_db.Mqtt.Worker.Turns.{GoesWell, client_cb-GoesWell, client_cb_publishes}
use anu_db.Mqtt.Sending.{Reply, timed_out, try_again, accepted, Sending, send_response}
use anu_db.Mqtt.Sending.Retries.{Decides, send_response-Decides}

-- The first call times out, the second is to be tried again, and the third is accepted.
abbrev replies : ℕ → Reply
replies zero = timed_out
replies (suc zero) = try_again
replies (suc (suc n)) = accepted

send_response-Decides_example :
    (n : ℕ) × (s : Sending) × (send_response true replies ≡ some s) × Decides replies n s
send_response-Decides_example = send_response-Decides replies

-- Every request is answered.
abbrev answering : Handler
answering topic payload = (codes "anudb/response/1", codes "{}")

abbrev good : Outcome
good = record {
  succeeded = true;
  received = record { topic = codes "anudb/request"; payload = codes "q" };
  allocated = true;
}

abbrev waiting : Work
waiting = record {
  state = State.wait;
  msg = some (record { topic = codes "anudb/request"; payload = codes "q" });
  request_id = none;
  reply = none;
}

client_cb-GoesWell_example : GoesWell waiting (client_cb answering good waiting)
client_cb-GoesWell_example = client_cb-GoesWell answering good waiting (tt, tt)

client_cb_publishes_example :
    (w1 w2 w3 : Work) × (client_cb answering good waiting
      ≡ returns (
        w1,
        Call.free (record { topic = codes "anudb/request"; payload = codes "q" }) ∷ Call.sleep ∷ [],
      ))
    × (client_cb answering good w1
        ≡ returns (w2, Call.publish (codes "anudb/response/1") (codes "{}") ∷ []))
    × (client_cb answering good w2 ≡ returns (w3, Call.receive ∷ []))
    × (w3.state ≡ State.recv)
client_cb_publishes_example =
    client_cb_publishes answering good good good waiting (codes "anudb/request") []
      (codes "anudb/response/1") (codes "}") b'q' b'{' refl refl refl refl refl refl
