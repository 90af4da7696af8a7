-- ===== src/Mqtt/Sending/Retries.antt =====
-- How the loop of send_response ends.
use anu_db.Base.{
  ℕ, zero, suc, ◌+◌, ◌<◌, ◌≤◌, ◌≡◌, refl, Bool, true, false, some, Option, if◌then◌else◌, arith,
  leb, eqb, Bool-cases, inl, inr,
}
use anu_db.Mqtt.Sending.{
  Reply, accepted, timed_out, try_again, refused, Sending, send_loop, send_response, after_reply,
  retry,
}

abbrev pub is_accepted : Reply → Bool
is_accepted accepted = true
is_accepted _ = false

abbrev pub is_retriable : Reply → Bool
is_retriable timed_out = true
is_retriable try_again = true
is_retriable _ = false

-- The n-th reply decides: those before it ask for a retry, and so does it only where no retry is left.
abbrev pub Decides : (ℕ → Reply) → ℕ → Sending → Type 0
Decides reply n s =
    (n ≤ 3)
    × (s.calls ≡ suc n)
    × ((j : ℕ) → j < n → is_retriable (reply j) ≡ true)
    × (is_retriable (reply n) ≡ true → n ≡ 3)
    × (s.sent_successfully ≡ is_accepted (reply n))
    × (s.frees ≡ (if is_accepted (reply n) then 0 else 1))

-- A loop that ended after n calls or more.
abbrev Ends : (ℕ → Reply) → ℕ → ℕ → Type 0
Ends reply fuel n =
    (m : ℕ) × (s : Sending) × (send_loop reply fuel
        (record { attempt = n; sent_successfully = false; calls = n; frees = 0 })
      ≡ some s)
    × Decides reply m s

-- The last retriable reply is among the first n + 1.
extended :
    (reply : ℕ → Reply) (n : ℕ)
    → ((j : ℕ) → j < n → is_retriable (reply j) ≡ true)
    → is_retriable (reply n) ≡ true
    → (j : ℕ) → j < n + 1
    → is_retriable (reply j) ≡ true
extended reply n p q j l = elim (Bool-cases (eqb j n)) [
  | inl same ↦ let j_is : j ≡ n = ground arith in rw j_is q
  | inr differ ↦ p j (ground (arith, differ, l))
]

after_reply-retry :
    (rest : Sending → Option Sending) (r : Reply) (s : Sending)
    → is_retriable r ≡ true
    → after_reply rest r s ≡ retry rest s
unfolding after_reply
after_reply-retry rest accepted s q = absurd (ground arith)
after_reply-retry rest timed_out s q = refl
after_reply-retry rest try_again s q = refl
after_reply-retry rest refused s q = absurd (ground arith)

unaccepted : (r : Reply) → is_retriable r ≡ true → is_accepted r ≡ false
unaccepted accepted q = absurd (ground arith)
unaccepted timed_out q = refl
unaccepted try_again q = refl
unaccepted refused q = refl

retried :
    (reply : ℕ → Reply) (fuel n : ℕ)
    → n + suc fuel ≡ 4
    → ((j : ℕ) → j < n → is_retriable (reply j) ≡ true)
    → is_retriable (reply n) ≡ true
    → ((n + 1 ≤ 3) → Ends reply fuel (n + 1))
    → Ends reply (suc fuel) n
unfolding send_loop retry
retried reply fuel n e p q ih = elim (Bool-cases (leb (n + 1) 3)) [
  | inl more ↦
      let l : n ≤ 3 = ground (arith, more) in
      let (m, s, r, d) = ih (ground (arith, more)) in
      let l' : leb n 3 ≡ true = ground arith in
      (m, s, rw (l', after_reply-retry _ (reply n) _ q, more) r, d)
  | inr no_more ↦
      let n_is : n ≡ 3 = ground (arith, no_more, e) in
      let l' : leb n 3 ≡ true = ground arith in
      let a : is_accepted (reply n) ≡ false = unaccepted (reply n) q in
      (
        n,
        record { attempt = n + 1; sent_successfully = false; calls = n + 1; frees = 1 },
        rw (l', after_reply-retry _ (reply n) _ q, no_more),
        (omega (arith, n_is), omega arith, p, λ h. n_is, rw a, rw a),
      )
]

send_loop-Ends :
    (reply : ℕ → Reply) (fuel n : ℕ)
    → n + fuel ≡ 4
    → n ≤ 3
    → ((j : ℕ) → j < n → is_retriable (reply j) ≡ true)
    → Ends reply fuel n
unfolding send_loop
send_loop-Ends reply zero n e l p = absurd (omega arith)
send_loop-Ends reply (suc fuel) n e l p =
    go (reply n) refl
      (λ r l'. send_loop-Ends reply fuel (n + 1) (omega arith) l' (extended reply n p r))
  where
    go :
        (r : Reply)
        → reply n ≡ r
        → (is_retriable (reply n) ≡ true → n + 1 ≤ 3 → Ends reply fuel (n + 1))
        → Ends reply (suc fuel) n
    go accepted q ih = (
      n,
      record { attempt = n; sent_successfully = true; calls = n + 1; frees = 0 },
      rw q (ground arith),
      (l, omega arith, p, λ h. absurd (ground arith), ground arith, ground arith),
    )
    go timed_out q ih = retried reply fuel n e p (rw q) (ih (rw q))
    go try_again q ih = retried reply fuel n e p (rw q) (ih (rw q))
    go refused q ih = (
      n,
      record { attempt = n; sent_successfully = false; calls = n + 1; frees = 1 },
      rw q (ground arith),
      (l, omega arith, p, λ h. absurd (ground arith), ground arith, ground arith),
    )

-- With a message allocated, the sending ends after at most four calls; all replies but the last ask
-- for a retry, and so does the last only if it is the fourth; the message was sent where the last
-- reply accepts it, and is freed once where it does not.
pub send_response-Decides :
    (reply : ℕ → Reply)
    → (n : ℕ) × (s : Sending) × (send_response true reply ≡ some s) × Decides reply n s
unfolding send_response
send_response-Decides reply =
    send_loop-Ends reply 4 0 refl (omega arith) (λ j l. absurd (omega arith))
