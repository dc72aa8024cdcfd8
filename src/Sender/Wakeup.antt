-- ===== src/Sender/Wakeup.antt =====
-- thread_pauser.py and tcp_sender.py: a response that comes before its thread waits.
use ros_tcp_endpoint.Prelude.{ℕ, ◌<◌, ◌≡◌, ◌≢◌, Bytes, Text, some, arith, Option-cases, inl, inr}
use ros_tcp_endpoint.Prelude.Dict.{ℕ_eq, get, get-put, get-remove}
use ros_tcp_endpoint.Prelude.Keeps.{Keeps}
use ros_tcp_endpoint.Platform.{Platform}
use ros_tcp_endpoint.Pauser.{asleep, sleep_until_resumed, resume_with_result}
use ros_tcp_endpoint.Json.{Json, int, bool}
use ros_tcp_endpoint.Struct.Int.{pos}
use ros_tcp_endpoint.Sender.{Sender, put_queue, get_or_register_topic_id}
use ros_tcp_endpoint.Sender.Send.{
  send_unity_message, store_slot, allocate_request, begin_service_request, sleep_request, respond,
  send_unity_service_response,
}
use ros_tcp_endpoint.Sender.Parts.{Any, any_items, Keeps-begin, Keeps-send_unity_message}
use ros_tcp_endpoint.Sender.Service.{IsWaiting}

-- Thread `p` sleeps, and no request in the table is its.
pub record IsLost {P : Platform} (p : ℕ) (s : Sender P) : Type 0 where
  pub old : p < s.next_pauser
  pub sleeps : (s.pausers p).sleeper ≡ asleep
  pub absent : (k : ℕ) → get s.services_waiting k ≢ some p

-- What the other threads do next.
pub data Step {P : Platform} (s : Sender P) : Sender P → Type 0 where
  requests : (topic : Text) (m : P.Message) → Step s (begin_service_request topic m s).1
  responds : (srv_id : Json) (body : Bytes) → Step s (send_unity_service_response srv_id body s).1
  sleeps : (other : ℕ) → Step s (sleep_request other s).1
  sends : (topic : Text) (m : P.Message) → Step s (send_unity_message topic m s).1

pub data Reach {P : Platform} (s : Sender P) : Sender P → Type 0 where
  here : Reach s s
  next : {t u : Sender P} → Reach s t → Step t u → Reach s u

module _ {P : Platform} (p : ℕ) where
  Keeps-put_queue : (item : Bytes) → Keeps {S = Sender P} (IsLost p) (put_queue item)
  unfolding put_queue
  Keeps-put_queue item = record {
    at = λ s h. elim (Option-cases s.queue) [
      | inl e ↦ rw (e, put_queue) h
      | inr (q, e) ↦
          rw (e, put_queue) (record { old = h.old; sleeps = h.sleeps; absent = h.absent })
    ];
  }

  Keeps-store_slot : (n : ℕ) (m : P.Message) → Keeps {S = Sender P} (IsLost p) (store_slot n m)
  unfolding store_slot
  Keeps-store_slot n m = record {
    at = λ s h. record { old = h.old; sleeps = h.sleeps; absent = h.absent };
  }

  Keeps-register : (t : Text) → Keeps {S = Sender P} (IsLost p) (get_or_register_topic_id t)
  unfolding get_or_register_topic_id
  Keeps-register t = record {
    at = λ s h. record {
      old = ground (arith, h.old);
      sleeps = ground (arith, h.sleeps);
      absent = λ k e. h.absent k (ground arith);
    };
  }

  Keeps-allocate : Keeps {S = Sender P} (IsLost p) allocate_request
  unfolding allocate_request
  Keeps-allocate = record {
    at = λ s h. record {
      old = omega (arith, h.old);
      sleeps = ground (arith, h.old, h.sleeps);
      absent = λ k e.
          ground
            (arith, get-put s.services_waiting s.next_srv_id k s.next_pauser, h.old, h.absent k);
    };
  }

  respond-IsLost :
      (n : ℕ) (body : Bytes) (s : Sender P) → IsLost p s → IsLost p (respond n body s).1
  unfolding respond resume_with_result
  respond-IsLost n body s h = elim (Option-cases (get s.services_waiting n)) [
    | inl e ↦ rw (e, respond) h
    | inr (r, e) ↦
        rw (e, respond)
          (record {
            old = h.old;
            sleeps = ground (arith, h.sleeps, h.absent n);
            absent = λ k g. ground (arith, get-remove s.services_waiting n k, h.absent k);
          })
  ]

  response-IsLost :
      (srv_id : Json) (body : Bytes) (s : Sender P)
      → IsLost p s
      → IsLost p (send_unity_service_response srv_id body s).1
  unfolding send_unity_service_response
  response-IsLost (int (pos n)) body s h = respond-IsLost n body s h
  response-IsLost (bool b) body s h = respond-IsLost _ body s h
  response-IsLost _ body s h = h

  sleep-IsLost : (other : ℕ) (s : Sender P) → IsLost p s → IsLost p (sleep_request other s).1
  unfolding sleep_request sleep_until_resumed
  sleep-IsLost other s h = record {
    old = h.old;
    sleeps = ground (arith, h.sleeps);
    absent = h.absent;
  }

  Step-IsLost : {s t : Sender P} → Step s t → IsLost p s → IsLost p t
  Step-IsLost {s} (requests topic m) h =
      (Keeps-begin (IsLost p) Any (any_items P) (λ b _. Keeps-put_queue b) Keeps-allocate topic
          m).at
        s h
  Step-IsLost {s} (responds srv_id body) h = response-IsLost srv_id body s h
  Step-IsLost {s} (sleeps other) h = sleep-IsLost other s h
  Step-IsLost {s} (sends topic m) h =
      (Keeps-send_unity_message (IsLost p) Any (any_items P) (λ b _. Keeps-put_queue b)
          Keeps-store_slot Keeps-register topic m).at
        s h

  pub Reach-IsLost : {s t : Sender P} → IsLost p s → Reach s t → IsLost p t
  Reach-IsLost h here = h
  Reach-IsLost h (next r st) = Step-IsLost st (Reach-IsLost h r)

  early-IsLost :
      (n : ℕ) (body : Bytes) (s : Sender P)
      → IsWaiting s
      → get s.services_waiting n ≡ some p
      → IsLost p (sleep_request p (respond n body s).1).1
  unfolding respond sleep_request sleep_until_resumed
  early-IsLost n body s w e =
      rw (e, respond)
        (record {
          old = (w.given n p e).1;
          sleeps = ground arith;
          absent = λ k g. ground (arith, get-remove s.services_waiting n k, w.distinct n k p e);
        })

  -- With the table of waiting requests in order, if a waiting request is answered before its thread
  -- sleeps on the condition, the thread stays asleep whatever requests, responses, sleeps of
  -- threads and messages follow.
  pub lost_wakeup :
      (n : ℕ) (body : Bytes) (s t : Sender P)
      → IsWaiting s
      → get s.services_waiting n ≡ some p
      → Reach (sleep_request p (respond n body s).1).1 t
      → (t.pausers p).sleeper ≡ asleep
  lost_wakeup n body s t w e r = (Reach-IsLost (early-IsLost n body s w e) r).sleeps
