-- ===== src/Sender/Service.antt =====
-- Unity services: how requests and responses find one another, and the sleeping threads.
use ros_tcp_endpoint.Prelude.{
  ℕ, ◌<◌, ◌≡◌, [], ◌∷◌, ◌++◌, Bytes, Text, none, some, arith, Option-cases, inl, inr, if◌then◌else◌,
  ◌==◌, codes,
}
use ros_tcp_endpoint.Prelude.Dict.{ℕ_eq, get, remove, get-put, get-remove}
use ros_tcp_endpoint.Prelude.Result.{ok, err, key_error}
use ros_tcp_endpoint.Prelude.Keeps.{Keeps}
use ros_tcp_endpoint.Sender.Parts.{Any, any_items, Keeps-begin}
use ros_tcp_endpoint.Platform.{Platform}
use ros_tcp_endpoint.Pauser.{resumed, sleep_until_resumed, resume_with_result}
use ros_tcp_endpoint.Json.{Json, int}
use ros_tcp_endpoint.Struct.Int.{pos}
use ros_tcp_endpoint.Client.Serialize.{serialize_command, serialize_message, service}
use ros_tcp_endpoint.Sender.{Sender, update, put_queue}
use ros_tcp_endpoint.Sender.Send.{
  allocate_request, begin_service_request, sleep_request, finish_service_request, respond,
  resume_request, send_unity_service_response,
}

-- Every waiting request has a number that was given out, and a pauser of its own.
pub record IsWaiting {P : Platform} (s : Sender P) : Type 0 where
  pub given :
      (k p : ℕ) → get s.services_waiting k ≡ some p → (k < s.next_srv_id) × (p < s.next_pauser)
  pub distinct :
      (j k p : ℕ) → get s.services_waiting j ≡ some p → get s.services_waiting k ≡ some p → j ≡ k

module _ {P : Platform} where
  pub Keeps-put_queue : (item : Bytes) → Keeps {S = Sender P} IsWaiting (put_queue item)
  unfolding put_queue
  Keeps-put_queue item = record {
    at = λ s h. elim (Option-cases s.queue) [
      | inl e ↦ rw (e, put_queue) h
      | inr (q, e) ↦ rw (e, put_queue) (record { given = h.given; distinct = h.distinct })
    ];
  }

  pub Keeps-allocate : Keeps {S = Sender P} IsWaiting allocate_request
  unfolding allocate_request
  Keeps-allocate = record {
    at = λ s h. record {
      given = λ k p e.
          ground (arith, get-put s.services_waiting s.next_srv_id k s.next_pauser, h.given k p);
      distinct = λ j k p d e. ground (
        arith,
        get-put s.services_waiting s.next_srv_id k s.next_pauser,
        get-put s.services_waiting s.next_srv_id j s.next_pauser,
        h.given k p,
        h.given j p,
        h.distinct j k p,
      );
    };
  }

  Keeps-resume : (n p : ℕ) (body : Bytes) → Keeps {S = Sender P} IsWaiting (resume_request n p body)
  unfolding resume_request
  Keeps-resume n p body = record {
    at = λ s h. record {
      given = λ k p e. ground (arith, get-remove s.services_waiting n k, h.given k p);
      distinct = λ j k p d e. ground (
        arith,
        get-remove s.services_waiting n k,
        get-remove s.services_waiting n j,
        h.distinct j k p,
      );
    };
  }

  pub Keeps-respond : (n : ℕ) (body : Bytes) → Keeps {S = Sender P} IsWaiting (respond n body)
  unfolding respond
  Keeps-respond n body = record {
    at = λ s h. elim (Option-cases (get s.services_waiting n)) [
      | inl e ↦ rw (e, respond) h
      | inr (p, e) ↦ rw (e, respond) ((Keeps-resume n p body).at s h)
    ];
  }

  -- A service request, whatever becomes of it, keeps the table of waiting requests in order:
  -- numbers below the next one, no two requests with one pauser, and every pauser made before.
  begin_service_request-IsWaiting :
      (topic : Text) (request : P.Message) (s : Sender P)
      → IsWaiting s
      → IsWaiting (begin_service_request topic request s).1
  begin_service_request-IsWaiting topic request s h =
      (Keeps-begin IsWaiting Any (any_items P) (λ b _. Keeps-put_queue b) Keeps-allocate topic
          request).at
        s h

  -- A response from Unity, for any value of `srv_id`, known or not, keeps the table of waiting
  -- requests in order.
  send_unity_service_response-IsWaiting :
      (srv_id : Json) (body : Bytes) (s : Sender P)
      → IsWaiting s
      → IsWaiting (send_unity_service_response srv_id body s).1
  unfolding send_unity_service_response
  send_unity_service_response-IsWaiting (int (pos n)) body s h = (Keeps-respond n body).at s h
  send_unity_service_response-IsWaiting (Json.bool b) body s h = (Keeps-respond _ body).at s h
  send_unity_service_response-IsWaiting _ body s h = h

  -- A response with a waiting number: its thread gets the body, its entry is gone, and nothing else changes.
  pub respond-known :
      (n p : ℕ) (body : Bytes) (s : Sender P)
      → get s.services_waiting n ≡ some p
      → (respond n body s ≡ (
        ok tt,
        record s {
          services_waiting = remove s.services_waiting n;
          pausers = update s.pausers p (resume_with_result body (s.pausers p));
        },
      ))
        × ((k : ℕ)
            → get (respond n body s).1.services_waiting k
              ≡ (if n == k then none else get s.services_waiting k))
  unfolding respond
  respond-known n p body s e =
      (ground arith, λ k. ground (arith, get-remove s.services_waiting n k))

  -- A response with another number raises `KeyError` and changes nothing.
  pub respond-unknown :
      (n : ℕ) (body : Bytes) (s : Sender P)
      → get s.services_waiting n ≡ none
      → send_unity_service_response (int (pos n)) body s ≡ (err key_error, s)
  unfolding send_unity_service_response
  respond-unknown n body s e = ground arith

  -- A request that is in the table, then waits, and then is answered: its thread runs again, what
  -- it returns is the body of the response deserialized with the response class, and no other
  -- request's pauser changes.
  request_answered :
      (n p : ℕ) (body : Bytes) (response_class : P.Class) (s : Sender P)
      → get s.services_waiting n ≡ some p
      → (((respond n body (sleep_request p s).1).1.pausers p).sleeper ≡ resumed)
        × ((finish_service_request p response_class (respond n body (sleep_request p s).1).1).0
            ≡ P.deserialize body response_class)
        × ((other : ℕ)
            → (respond n body (sleep_request p s).1).1.pausers other ≡ (
                if p == other
                then record { result = some body; sleeper = resumed }
                else s.pausers other))
  unfolding respond sleep_request finish_service_request sleep_until_resumed resume_with_result
  request_answered n p body response_class s e = (ground arith, ground arith, λ other. ground arith)

  -- A service request on an active connection whose header and message serialize, with the table of
  -- waiting requests in order: it takes a number that no waiting request has, enters itself with a
  -- pauser of its own and leaves every other entry, and appends the `__request` header and the
  -- message to the active queue as one item.
  pub begin_service_request_lem :
      (topic : Text) (request : P.Message) (s : Sender P) (q : ℕ) (header message : Bytes)
      → IsWaiting s
      → s.queue ≡ some q
      → serialize_command P (codes "__request") (service (int (pos s.next_srv_id))) ≡ ok header
      → serialize_message P topic request ≡ ok message
      → ((begin_service_request topic request s).0 ≡ ok (some s.next_pauser))
        × ((begin_service_request topic request s).1.queues q
            ≡ s.queues q ++ (header ++ message) ∷ [])
        × (get s.services_waiting s.next_srv_id ≡ none)
        × ((k : ℕ)
            → get (begin_service_request topic request s).1.services_waiting k
              ≡ (if s.next_srv_id == k then some s.next_pauser else get s.services_waiting k))
  unfolding begin_service_request put_queue
  begin_service_request_lem topic request s q header message w hq hh hm = (
    ground arith,
    ground arith,
    elim (Option-cases (get s.services_waiting s.next_srv_id)) [
      | inl e ↦ e
      | inr (p, e) ↦ absurd (omega (arith, w.given s.next_srv_id p e))
    ],
    λ k. ground (arith, get-put s.services_waiting s.next_srv_id k s.next_pauser),
  )
