-- ===== src/System/Steps.antt =====
-- An invariant holds along every step if it is kept by the operations that the steps are made of.
use ros_tcp_endpoint.Prelude.{
  ℕ, ◌≡◌, refl, sym, subst, arith, Text, Option, none, some, Option-cases, inl, inr, codes, ◌++◌,
}
use ros_tcp_endpoint.Prelude.Dict.{Text_eq, get, put}
use ros_tcp_endpoint.Prelude.Result.{ok}
use ros_tcp_endpoint.Prelude.Exec.{lift}
use ros_tcp_endpoint.Prelude.Keeps.{Keeps, Keeps-if, Keeps-pure, Keeps-bind, Keeps-lift}
use ros_tcp_endpoint.Platform.{Platform}
use ros_tcp_endpoint.Json.{Json}
use ros_tcp_endpoint.Ros.Nodes.{UnityService, RosSubscriber, throttle_message}
use ros_tcp_endpoint.Ros.Nodes.Retry.{Attempt, service_send}
use ros_tcp_endpoint.Sender.{Sender}
use ros_tcp_endpoint.Sender.Send.{
  sleep_request, begin_service_request, finish_service_request, send_ros_service_response,
}
use ros_tcp_endpoint.Sender.Loop.{Sendall, Link, start_sender, enter_loop, sender_round, leave_loop}
use ros_tcp_endpoint.Server.{
  TcpServer, ServiceCall, on_sender, send_unity_message, send_unity_error, subscriber_send,
  begin_unity_call, end_unity_call,
}
use ros_tcp_endpoint.Server.Parts.{KeepsParts}
use ros_tcp_endpoint.Client.Dispatch.{service_call_thread}
use ros_tcp_endpoint.Client.Dispatch.Parts.{Keeps-handle_message}
use ros_tcp_endpoint.System.{
  Step, message, forwards, calls_unity, sleeps, returns, answers, connects, enters, rounds, leaves,
  Reach, here, next,
}

module _ {P : Platform} where
  pub record KeepsSteps (Inv : TcpServer P → Type 0) : Type 0 where
    pub parts : KeepsParts Inv
    pub touched :
        (s : TcpServer P) (topic : Text) (r r' : RosSubscriber P)
        → get s.subscribers_table topic ≡ some r
        → r'.sub ≡ r.sub
        → Inv s
        → Inv (record s { subscribers_table = put s.subscribers_table topic r' })
    pub forwarded : (topic : Text) (m : P.Message) → Keeps Inv (send_unity_message topic m)
    pub requested :
        (topic : Text) (m : P.Message) → Keeps Inv (on_sender (begin_service_request topic m))
    pub responded :
        (id : Json) (topic : Text) (m : P.Message)
        → Keeps Inv (on_sender (send_ros_service_response id topic m))
    pub slept : (p : ℕ) → Keeps Inv (on_sender (sleep_request p))
    pub started : (s : TcpServer P) → Inv s → Inv (record s { sender = (start_sender s.sender).1 })
    pub entered :
        (s : TcpServer P) (tid : ℕ) (m : Sender P)
        → enter_loop tid s.sender ≡ ok m
        → Inv s
        → Inv (record s { sender = m })
    pub sent :
        (s : TcpServer P) (sends : Sendall) (link : Link)
        → Inv s
        → Inv (record s { sender = (sender_round sends link s.sender).1 })
    pub left :
        (s : TcpServer P) (link : Link)
        → Inv s
        → Inv (record s { sender = (leave_loop link s.sender).1 })

  finish_same : (p : ℕ) (c : P.Class) (s : Sender P) → (finish_service_request p c s).1 ≡ s
  unfolding finish_service_request
  finish_same p c s = ground arith

  module _ (Inv : TcpServer P → Type 0) (k : KeepsSteps Inv) where
    Keeps-subscriber_send :
        (topic : Text) (now : ℕ) (m : P.Message) → Keeps Inv (subscriber_send topic now m)
    unfolding subscriber_send
    Keeps-subscriber_send topic now m = record {
      at = λ s h. elim (Option-cases (get s.subscribers_table topic)) [
        | inl e ↦ rw (e, subscriber_send) h
        | inr (r, e) ↦
            rw (e, subscriber_send)
              ((Keeps-if (throttle_message now r).0 _ _ (k.forwarded r.topic m) (Keeps-pure tt)).at
                _ (k.touched s topic r (throttle_message now r).1 e refl h))
      ];
    }

    Keeps-answer :
        (c : ServiceCall P) (response : Option P.Message)
        → Keeps Inv (elim response [
          | none ↦
              send_unity_error
                (codes "No response data from service '" ++ c.destination ++ codes "'!")
          | some r ↦ on_sender (send_ros_service_response c.srv_id c.destination r)
        ])
    Keeps-answer c none = k.parts.errors _
    Keeps-answer c (some r) = k.responded c.srv_id c.destination r

    Keeps-service_call :
        (c : ServiceCall P) (outcome : ℕ → Attempt P.Message)
        → Keeps Inv (service_call_thread c outcome)
    unfolding service_call_thread
    Keeps-service_call c outcome =
        Keeps-bind (lift (service_send P c.ros_communicator.srv_class c.payload outcome)) _
          (Keeps-lift _) (Keeps-answer c)

    Keeps-end :
        (r : UnityService P) (p : Option ℕ) (response : P.Message)
        → Keeps Inv (end_unity_call r p response)
    unfolding end_unity_call
    Keeps-end r none response = record { at = λ s h. h }
    Keeps-end r (some p) response =
        Keeps-bind (on_sender (finish_service_request p (P.response_class r.service_class))) _
          (record {
            at = λ s h.
                subst (λ m. Inv (record s { sender = m }))
                  (sym (finish_same p (P.response_class r.service_class) s.sender)) h;
          })
          λ result. Keeps-pure _

    Step-keeps : {s t : TcpServer P} → Step s t → Inv s → Inv t
    unfolding begin_unity_call
    Step-keeps {s} (message destination payload) h =
        (Keeps-handle_message Inv k.parts destination payload).at s h
    Step-keeps {s} (forwards topic now m) h = (Keeps-subscriber_send topic now m).at s h
    Step-keeps {s} (calls_unity r request) h = (k.requested r.topic request).at s h
    Step-keeps {s} (sleeps p) h = (k.slept p).at s h
    Step-keeps {s} (returns r p response) h = (Keeps-end r p response).at s h
    Step-keeps {s} (answers c outcome) h = (Keeps-service_call c outcome).at s h
    Step-keeps {s} connects h = k.started s h
    Step-keeps {s} (enters tid m e) h = k.entered s tid m e h
    Step-keeps {s} (rounds sends link) h = k.sent s sends link h
    Step-keeps {s} (leaves link) h = k.left s link h

    pub Reach-keeps : {s t : TcpServer P} → Reach s t → Inv s → Inv t
    Reach-keeps here h = h
    Reach-keeps (next r st) h = Step-keeps st (Reach-keeps r h)
