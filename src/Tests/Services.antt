-- ===== src/Tests/Services.antt =====
-- Requests to Unity services.
use ros_tcp_endpoint.Prelude.{◌≡◌, refl, [], ◌∷◌, ◌++◌, Bytes, codes, some, false, arith}
use ros_tcp_endpoint.Prelude.Dict.{ℕ_eq, get}
use ros_tcp_endpoint.Prelude.Result.{ok}
use ros_tcp_endpoint.Json.{int}
use ros_tcp_endpoint.Struct.Int.{pos}
use ros_tcp_endpoint.Struct.{le_bytes, pack_unsigned, pack_i32}
use ros_tcp_endpoint.Utf8.{encode, encode_char}
use ros_tcp_endpoint.Pauser.{resumed, asleep}
use ros_tcp_endpoint.Client.Serialize.{serialize_command, serialize_message}
use ros_tcp_endpoint.Sender.Send.{
  begin_service_request, send_unity_message, sleep_request, finish_service_request, respond,
  send_unity_service_response,
}
use ros_tcp_endpoint.Sender.Service.{IsWaiting}
use ros_tcp_endpoint.Sender.Correlation.{requests, sleeps, sends, leaves, connects}
use ros_tcp_endpoint.Sender.Correlation.Calls.{call_answered, unanswered_sleeps}
use ros_tcp_endpoint.Sender.Correlation
use ros_tcp_endpoint.Sender.Loop.{Link, start_sender, leave_loop}
use ros_tcp_endpoint.Sender.Wakeup
use ros_tcp_endpoint.Sender.Wakeup.{lost_wakeup}
use ros_tcp_endpoint.Tests.Demo.{demo, connected, waiting}
use ros_tcp_endpoint.Sender.{Sender, put_queue}

abbrev pub header : Bytes
header = 9 ∷ 0 ∷ 0 ∷ 0 ∷ (codes "__request" ++ 4 ∷ 0 ∷ 0 ∷ 0 ∷ 233 ∷ 3 ∷ 0 ∷ 0 ∷ [])

abbrev pub message : Bytes
message = 1 ∷ 0 ∷ 0 ∷ 0 ∷ 97 ∷ 1 ∷ 0 ∷ 0 ∷ 0 ∷ 5 ∷ []

pub none-IsWaiting : IsWaiting connected
unfolding get
none-IsWaiting = record { given = λ k p e. absurd (cc); distinct = λ j k p d e. absurd (cc) }

one_waiting : IsWaiting waiting
unfolding get
one_waiting = record { given = λ k p e. ground arith; distinct = λ j k p d e. ground arith }

abbrev calling : Sender demo
calling = (begin_service_request (codes "a") (5 ∷ []) connected).1

abbrev first_link : Link
first_link = record { tid = 1; halted = false; sent = [] }

abbrev before_sleep : Sender demo
before_sleep =
    (begin_service_request (codes "b") (6 ∷ [])
      (begin_service_request (codes "a") (5 ∷ []) connected).1).1

abbrev before_answer : Sender demo
before_answer = (respond 1002 (8 ∷ []) (sleep_request 1 (sleep_request 0 before_sleep).1).1).1

abbrev after_answer : Sender demo
after_answer =
    (send_unity_message (codes "/chat") (9 ∷ []) (respond 1001 (7 ∷ []) before_answer).1).1

-- Another thread calls while this one is about to wait, waits too, and is answered first; the
-- response of this one is followed by a message of a topic.
call_answered_example :
    ((respond 1001 (7 ∷ []) before_answer).0 ≡ ok tt)
    × ((after_answer.pausers 0).sleeper ≡ resumed)
    × ((finish_service_request 0 7 after_answer).0 ≡ ok (7 ∷ []))
unfolding serialize_command serialize_message encode encode_char pack_unsigned pack_i32 le_bytes
    begin_service_request put_queue
call_answered_example =
    call_answered (codes "a") (5 ∷ []) (7 ∷ []) 7 connected before_sleep before_answer after_answer
      none-IsWaiting refl (Correlation.next Correlation.here (requests (codes "b") (6 ∷ [])))
      (Correlation.next (Correlation.next Correlation.here (sleeps 1 (λ e. omega arith)))
        (Correlation.responds 1002 (8 ∷ []) (λ e. omega arith)))
      (Correlation.next Correlation.here (sends (codes "/chat") (9 ∷ [])))

-- Thread 0 is answered before it waits, and once more after it.
lost_wakeup_example :
    ((send_unity_service_response
        (int (pos 1001))
        (8 ∷ [])
        (sleep_request 0 (respond 1001 (7 ∷ []) waiting).1).1).1.pausers
      0).sleeper
    ≡ asleep
unfolding get
lost_wakeup_example =
    lost_wakeup 0 1001 (7 ∷ []) waiting _ one_waiting refl
      (Wakeup.next Wakeup.here (Wakeup.responds (int (pos 1001)) (8 ∷ [])))

-- The connection ends and a new one begins.
abbrev left_alone : Sender demo
left_alone = (start_sender (leave_loop first_link (sleep_request 0 calling).1).1).1

unanswered_sleeps_example :
    ((left_alone.pausers 0).sleeper ≡ asleep) × (get left_alone.services_waiting 1001 ≡ some 0)
unfolding serialize_command serialize_message encode encode_char pack_unsigned pack_i32 le_bytes
    begin_service_request put_queue
unanswered_sleeps_example =
    unanswered_sleeps (codes "a") (5 ∷ []) connected calling left_alone none-IsWaiting refl
      Correlation.here
      (Correlation.next (Correlation.next Correlation.here (leaves first_link)) connects)
