-- ===== src/Sender/Correlation/Calls.antt =====
-- tcp_sender.py: a request to a Unity service, from the call over the sleep to the answer.
use ros_tcp_endpoint.Prelude.{
  ℕ, ◌≡◌, [], refl, ap, Bytes, Text, none, some, arith, codes, Option-cases, inl, inr,
}
use ros_tcp_endpoint.Prelude.Dict.{ℕ_eq, Text_eq, get, get-put, get-remove}
use ros_tcp_endpoint.Prelude.Result.{ok}
use ros_tcp_endpoint.Prelude.Keeps.{Keeps-bind, Keeps-pure}
use ros_tcp_endpoint.Platform.{Platform}
use ros_tcp_endpoint.Json.{int}
use ros_tcp_endpoint.Struct.Int.{pos}
use ros_tcp_endpoint.Pauser
use ros_tcp_endpoint.Pauser.{Pauser, asleep, resumed, sleep_until_resumed, resume_with_result}
use ros_tcp_endpoint.Sender.{Sender}
use ros_tcp_endpoint.Sender.Send.{
  allocate_request, begin_service_request, sleep_request, respond, finish_service_request,
  start_request, send_pair,
}
use ros_tcp_endpoint.Sender.Parts.{Any, any_items, Keeps-send_pair}
use ros_tcp_endpoint.Sender.Service.{IsWaiting}
use ros_tcp_endpoint.Sender.Correlation.{Meanwhile, IsWatched, Keeps-put_queue, Meanwhile-Watched}

-- The number of one request; and no number at all, once it is answered.
abbrev pub IsNumber : ℕ → ℕ → Type 0
IsNumber n k = k ≡ n

abbrev pub IsNothing : ℕ → Type 0
IsNothing k = ⊥

module _ {P : Platform} (topic : Text) (request : P.Message) (s : Sender P) (w : IsWaiting s) where
  abbrev NewWatch : Sender P → Type 0
  NewWatch = IsWatched (IsNumber s.next_srv_id) s.next_pauser Pauser.new

  allocated : NewWatch (allocate_request s).1
  unfolding allocate_request
  allocated = record {
    old = omega arith;
    value = ground arith;
    only = λ k e.
        ground (
          arith,
          get-put s.services_waiting s.next_srv_id k s.next_pauser,
          w.given k s.next_pauser,
        );
    kept = λ k same. (
      omega (arith, same),
      ground (arith, get-put s.services_waiting s.next_srv_id k s.next_pauser, same),
    );
  }

  started : NewWatch (start_request topic request s).1
  unfolding start_request allocate_request
  started =
      (Keeps-bind (send_pair (codes "__request") (int (pos s.next_srv_id)) topic request) _
          (Keeps-send_pair NewWatch Any (any_items P) (λ b _. Keeps-put_queue _ _ _ b) _ _ topic
            request)
          λ _. Keeps-pure (some s.next_pauser)).at
        (allocate_request s).1 allocated

  begin_idle : s.queue ≡ none → (begin_service_request topic request s).0 ≡ ok none
  unfolding begin_service_request
  begin_idle e = rw (e, begin_service_request) refl

  begun :
      (begin_service_request topic request s).0 ≡ ok (some s.next_pauser)
      → NewWatch (begin_service_request topic request s).1
  unfolding begin_service_request
  begun h = elim (Option-cases s.queue) [
    | inl e ↦ absurd (cc (h, begin_idle e))
    | inr (q, e) ↦ rw (e, begin_service_request) started
  ]

module _ {P : Platform} (n p : ℕ) (body : Bytes) (t : Sender P) where
  slept :
      IsWatched (IsNumber n) p Pauser.new t
      → IsWatched (IsNumber n) p (sleep_until_resumed Pauser.new) (sleep_request p t).1
  unfolding sleep_request
  slept h = record { old = h.old; value = ground (arith, h.value); only = h.only; kept = h.kept }

  answered :
      IsWatched (IsNumber n) p (sleep_until_resumed Pauser.new) t
      → ((respond n body t).0 ≡ ok tt)
        × IsWatched IsNothing p
            (record { result = some body; sleeper = resumed })
            (respond n body t).1
  unfolding respond sleep_until_resumed resume_with_result
  answered h =
      let e = (h.kept n refl).1 in
      rw (e, respond)
        (
          refl,
          record {
            old = h.old;
            value = ground (arith, h.value);
            only = λ k g. ground (arith, get-remove t.services_waiting n k, h.only k);
            kept = λ k no. absurd no;
          },
        )

asleep_watch :
    {P : Platform} (topic : Text) (request : P.Message) (s s₁ s₂ : Sender P)
    → IsWaiting s
    → (begin_service_request topic request s).0 ≡ ok (some s.next_pauser)
    → Meanwhile (IsNumber s.next_srv_id) s.next_pauser (begin_service_request topic request s).1 s₁
    → Meanwhile (IsNumber s.next_srv_id) s.next_pauser (sleep_request s.next_pauser s₁).1 s₂
    → IsWatched (IsNumber s.next_srv_id) s.next_pauser (sleep_until_resumed Pauser.new) s₂
asleep_watch topic request s s₁ s₂ w starts first second =
    let n = s.next_srv_id in
    let p = s.next_pauser in
    let h = Meanwhile-Watched (IsNumber n) p Pauser.new first (begun topic request s w starts) in
    Meanwhile-Watched (IsNumber n) p (sleep_until_resumed Pauser.new) second (slept n p [] s₁ h)

-- With the table of waiting requests in order, a service request is started, its thread sleeps, the
-- response with its number comes, and the thread goes on. Before the thread sleeps and from then to
-- the response, other requests may start, be answered and sleep, messages may be sent and sender
-- threads may start, run and end, in any order; and so they may after the response, with any
-- further responses. Then the response is accepted, its thread has been woken, and what it returns
-- is the body of this response, deserialized with the response class: it is neither lost nor
-- exchanged for another's.
pub call_answered :
    {P : Platform} (topic : Text) (request : P.Message) (body : Bytes) (response_class : P.Class)
    (s s₁ s₂ s₃ : Sender P)
    → IsWaiting s
    → (begin_service_request topic request s).0 ≡ ok (some s.next_pauser)
    → Meanwhile (IsNumber s.next_srv_id) s.next_pauser (begin_service_request topic request s).1 s₁
    → Meanwhile (IsNumber s.next_srv_id) s.next_pauser (sleep_request s.next_pauser s₁).1 s₂
    → Meanwhile IsNothing s.next_pauser (respond s.next_srv_id body s₂).1 s₃
    → ((respond s.next_srv_id body s₂).0 ≡ ok tt)
      × ((s₃.pausers s.next_pauser).sleeper ≡ resumed)
      × ((finish_service_request s.next_pauser response_class s₃).0
          ≡ P.deserialize body response_class)
unfolding finish_service_request
call_answered topic request body response_class s s₁ s₂ s₃ w starts first second third =
    let n = s.next_srv_id in
    let p = s.next_pauser in
    let h₂ = asleep_watch topic request s s₁ s₂ w starts first second in
    let (returns, done) = answered n p body s₂ h₂ in
    let h₃ =
      Meanwhile-Watched IsNothing p (record { result = some body; sleeper = resumed }) third done in
    (returns, ap (λ v. v.sleeper) h₃.value, ground (arith, h₃.value))

-- With the table of waiting requests in order, a service request is started and its thread sleeps;
-- whatever other requests, responses with other numbers, sleeps of other threads, messages and
-- sender threads there are before and after that, the end of every connection and the start of new
-- ones included: the thread is still asleep, and its request still waits.
pub unanswered_sleeps :
    {P : Platform} (topic : Text) (request : P.Message) (s s₁ s₂ : Sender P)
    → IsWaiting s
    → (begin_service_request topic request s).0 ≡ ok (some s.next_pauser)
    → Meanwhile (IsNumber s.next_srv_id) s.next_pauser (begin_service_request topic request s).1 s₁
    → Meanwhile (IsNumber s.next_srv_id) s.next_pauser (sleep_request s.next_pauser s₁).1 s₂
    → ((s₂.pausers s.next_pauser).sleeper ≡ asleep)
      × (get s₂.services_waiting s.next_srv_id ≡ some s.next_pauser)
unfolding sleep_until_resumed
unanswered_sleeps topic request s s₁ s₂ w starts first second =
    let h = asleep_watch topic request s s₁ s₂ w starts first second in
    (ap (λ v. v.sleeper) h.value, (h.kept s.next_srv_id refl).1)
