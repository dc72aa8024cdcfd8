-- ===== src/Ros/Nodes/Retry.antt =====
-- service.py: the loop of `RosService.send`.
use ros_tcp_endpoint.Prelude.{
  ℕ, zero, suc, ◌+◌, ◌<◌, ◌≤◌, ◌≡◌, ap, ◌∙◌, Bytes, Option, none, some, ltb, if◌then◌else◌, arith,
}
use ros_tcp_endpoint.Prelude.Result.{Exc, Result, ok, err, ◌>>=◌}
use ros_tcp_endpoint.Platform.{Platform}

-- What an attempt meets: `self.client.wait_for_service` raises, which it does when the client was
-- unregistered or destroyed meanwhile; no service within a second; an exception of the call itself;
-- no result within ten seconds; or the result.
pub data Attempt (M : Type 0) : Type 0 where
  wait_raised : Exc → Attempt M
  unavailable raised no_result : Attempt M
  answered : M → Attempt M

-- What an attempt comes to. Only the wait stands outside the `try`.
unfoldable pub answer : {M : Type 0} → Attempt M → Result (Option M)
answer (wait_raised e) = err e
answer (answered m) = ok (some m)
answer _ = ok none

-- `while attempt < 3`, with the outcomes of the attempts by number: the result, and the value of
-- `attempt` that the loop ends with, counting an attempt that was answered or whose wait raised.
unfoldable pub call_loop : {M : Type 0} → ℕ → (ℕ → Attempt M) → ℕ → Result (Option M) × ℕ
unfolding answer
call_loop zero outcome attempt = (ok none, attempt)
call_loop (suc fuel) outcome attempt =
    let again = call_loop fuel outcome (attempt + 1) in
    let once : Result (Option _) × ℕ = elim (answer (outcome attempt)) [
      | err e ↦ (err e, attempt + 1)
      | ok found ↦ elim found [ some response ↦ (ok (some response), attempt + 1) | none ↦ again ]
    ] in
    if ltb attempt 3 then once else (ok none, attempt)

-- `RosService.send`: every round but the last adds to `attempt`, so four rounds are enough.
unfoldable pub service_send :
    (P : Platform) → P.Class → Bytes → (ℕ → Attempt P.Message) → Result (Option P.Message)
unfolding call_loop
service_send P srv_class payload outcome = do
  request ← P.deserialize payload (P.request_class srv_class)
  (call_loop 4 outcome 0).0

-- More fuel changes nothing: the loop ends by its test.
call_loop-fuel :
    {M : Type 0} (fuel attempt : ℕ) (outcome : ℕ → Attempt M)
    → 3 < fuel + attempt
    → call_loop (suc fuel) outcome attempt ≡ call_loop fuel outcome attempt
unfolding call_loop
call_loop-fuel zero attempt outcome h = ground arith
call_loop-fuel (suc fuel) attempt outcome h =
    ground (arith, call_loop-fuel fuel (attempt + 1) outcome)

-- The first of three attempts that is answered or raises.
abbrev pub first_answer :
    {M : Type 0} → Result (Option M) → Result (Option M) → Result (Option M) → Result (Option M)
first_answer (err e) _ _ = err e
first_answer (ok (some a)) _ _ = ok (some a)
first_answer (ok none) (err e) _ = err e
first_answer (ok none) (ok (some b)) _ = ok (some b)
first_answer (ok none) (ok none) c = c

call_loop-more :
    {M : Type 0} (k : ℕ) (outcome : ℕ → Attempt M)
    → call_loop (k + 4) outcome 0 ≡ call_loop 4 outcome 0
call_loop-more zero outcome = ap (λ n. call_loop n outcome 0) (omega arith)
call_loop-more (suc k) outcome =
    ap (λ n. call_loop n outcome 0) {x = suc k + 4} {y = suc (k + 4)} (omega arith)
    ∙ (call_loop-fuel (k + 4) 0 outcome (omega arith) ∙ call_loop-more k outcome)

call_loop-first :
    {M : Type 0} (outcome : ℕ → Attempt M)
    → ((call_loop 4 outcome 0).0
        ≡ first_answer (answer (outcome 0)) (answer (outcome 1)) (answer (outcome 2)))
      × ((call_loop 4 outcome 0).1 ≤ 3)
unfolding call_loop
call_loop-first outcome = ground arith

pub service_send_lem :
    (P : Platform) (srv_class : P.Class) (payload : Bytes) (outcome : ℕ → Attempt P.Message)
    (request : P.Message) (k : ℕ)
    → P.deserialize payload (P.request_class srv_class) ≡ ok request
    → (service_send P srv_class payload outcome
        ≡ first_answer (answer (outcome 0)) (answer (outcome 1)) (answer (outcome 2)))
      × ((call_loop 4 outcome 0).1 ≤ 3)
      × (call_loop (k + 4) outcome 0 ≡ call_loop 4 outcome 0)
service_send_lem P srv_class payload outcome request k h = (
  unfold service_send in rw (h, ◌>>=◌) (call_loop-first outcome).0,
  (call_loop-first outcome).1,
  call_loop-more k outcome,
)
