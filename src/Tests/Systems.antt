-- ===== src/Tests/Systems.antt =====
-- The whole endpoint.
use ros_tcp_endpoint.Prelude.{
  ◌≡◌, refl, true, false, [], ◌∷◌, ◌++◌, codes, some, Bytes, Text, text_eq, text_eq_iff,
  if◌then◌else◌, arith,
}
use ros_tcp_endpoint.Ros.Nodes.Fields.{has_name}
use ros_tcp_endpoint.Prelude.Result.{ok}
use ros_tcp_endpoint.Struct.{le_bytes, pack_unsigned, pack_i32}
use ros_tcp_endpoint.Utf8.{encode, encode_char, decode}
use ros_tcp_endpoint.Client.Serialize.{serialize_command, serialize_message}
use ros_tcp_endpoint.Client.Dispatch.{handle_message}
use ros_tcp_endpoint.Ros.Nodes.{UnityService}
use ros_tcp_endpoint.Sender.Loop.{complete, start_sender, sender_round}
use ros_tcp_endpoint.Sender.Reconnect.{entered, enter_loop-ok}
use ros_tcp_endpoint.Server.{TcpServer, new_server, begin_unity_call, end_unity_call}
use ros_tcp_endpoint.System.{Reach, here, next, connects, enters, message, calls_unity, rounds}
use ros_tcp_endpoint.System.Sound.{IsSound, Reach-IsSound}
use ros_tcp_endpoint.System.UnityCall.{answered, unity_call}
use ros_tcp_endpoint.Tests.Demo.{demo, server}
use ros_tcp_endpoint.Tests.Sending.{hello, greets}
use ros_tcp_endpoint.Tests.Services
use ros_tcp_endpoint.Tests.Services.{header, none-IsWaiting}

abbrev adder : UnityService demo
adder = record {
  node_name = codes "a_UnityService";
  topic = codes "a";
  service_class = 7;
  queue_size = 10;
  service = some 0;
}

abbrev pub fresh : TcpServer demo
fresh = new_server demo 8 4 []

-- Unity connects, a node calls a Unity service, the batch is sent, and an answer is announced.
abbrev started : TcpServer demo
started = record fresh { sender = (start_sender fresh.sender).1 }

abbrev joined : TcpServer demo
joined = record started { sender = entered 1 hello started.sender }

abbrev pub calling : TcpServer demo
calling = (begin_unity_call adder (5 ∷ []) joined).1

abbrev flushed : TcpServer demo
flushed = record calling {
  sender = (sender_round complete (record { tid = 1; halted = false; sent = [] }) calling.sender).1;
}

abbrev announced : TcpServer demo
announced = (handle_message (codes "__response") (codes "{}") flushed).1

pub steps_called : Reach fresh calling
steps_called =
    next
      (next (next here connects)
        (enters 1 joined.sender (enter_loop-ok 1 hello started.sender greets)))
      (calls_unity adder (5 ∷ []))

steps : Reach fresh announced
steps =
    next (next steps_called (rounds complete (record { tid = 1; halted = false; sent = [] })))
      (message (codes "__response") (codes "{}"))

Reach-IsSound_example : IsSound announced
Reach-IsSound_example = Reach-IsSound 8 4 [] steps

-- `setattr` and then `getattr`.
written :
    (m : Bytes) (f g : Text)
    → demo.field_names m ≡ demo.field_names (7 ∷ [])
    → has_name (demo.field_names (7 ∷ [])) f ≡ true
    → demo.read_field (demo.write_field m f (demo.read_field (7 ∷ []) f)) g
      ≡ (if text_eq f g then demo.read_field (7 ∷ []) g else demo.read_field m g)
written m f g same inside =
    ground (arith, text_eq_iff f (codes "data"), text_eq_iff g (codes "data"), text_eq_iff f g)

unity_call_example :
    ((begin_unity_call adder (5 ∷ []) server).0 ≡ ok (some 0))
    × ((begin_unity_call adder (5 ∷ []) server).1.sender.queues 1
        ≡ [] ++ (header ++ Services.message) ∷ [])
    × (filled_in : Bytes) × ((end_unity_call adder
          (some 0)
          (6 ∷ [])
          (answered server adder (5 ∷ []) (codes "{}") (codes "a") (7 ∷ []))).0
        ≡ ok filled_in)
    × ((f : Text)
        → demo.read_field filled_in f ≡ (
            if has_name (demo.field_names (7 ∷ [])) f
            then demo.read_field (7 ∷ []) f
            else demo.read_field (6 ∷ []) f))
unfolding serialize_command serialize_message encode encode_char pack_unsigned pack_i32 le_bytes
    decode
unity_call_example =
    unity_call server adder (5 ∷ []) 1 header Services.message none-IsWaiting refl refl refl
      (codes "{}") (codes "{}") (codes "a") (7 ∷ []) (6 ∷ []) (7 ∷ []) refl refl refl refl refl
      written (λ m f same inside. refl)
