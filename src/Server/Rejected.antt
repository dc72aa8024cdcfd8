-- ===== src/Server/Rejected.antt =====
-- server.py: registrations that are refused, by each of the four commands.
use mathlib.Core.Bool.{Bool}
use ros_tcp_endpoint.Prelude.{ℕ, ◌≡◌, refl, ◌⊎◌, inl, inr, [], ◌∷◌, ◌++◌, Text, codes, none}
use ros_tcp_endpoint.Prelude.Result.{Result, ok}
use ros_tcp_endpoint.Prelude.Exec.{Exec}
use ros_tcp_endpoint.Platform.{Platform}
use ros_tcp_endpoint.Sender.Send
use ros_tcp_endpoint.Server.{TcpServer, send_unity_error}
use ros_tcp_endpoint.Server.Resolve.{resolve_message_name}
use ros_tcp_endpoint.Server.SysCommands

-- The commands that register something for a topic or service, with their other arguments.
pub data Registration : Type 0 where
  subscribe : (queue_size : ℕ) (reliability durability history : Text) → Registration
  publish : (queue_size : ℕ) (latch : Bool) (reliability history : Text) → Registration
  ros_service unity_service : Registration

-- The folder of the package in which the class is looked for.
abbrev pub extension : Registration → Text
extension (subscribe _ _ _ _) = codes "msg"
extension (publish _ _ _ _) = codes "msg"
extension ros_service = codes "srv"
extension unity_service = codes "srv"

-- The message about a class that is not found.
abbrev pub unknown_text : Registration → Text → Text → Text
unknown_text (subscribe _ _ _ _) topic message_name =
    codes "SysCommand.subscribe - Unknown message class '" ++ message_name ++ codes "'"
unknown_text (publish _ _ _ _) topic message_name =
    codes "SysCommand.publish - Unknown message class '" ++ message_name ++ codes "'"
unknown_text ros_service topic message_name =
    codes "RegisterRosService("
    ++ topic
    ++ codes ", "
    ++ message_name
    ++ codes ") - Unknown service class '"
    ++ message_name
    ++ codes "'"
unknown_text unity_service topic message_name =
    codes "RegisterUnityService("
    ++ topic
    ++ codes ", "
    ++ message_name
    ++ codes ") - Unknown service class '"
    ++ message_name
    ++ codes "'"

-- The message about a blank name.
abbrev pub blank_text : Registration → Text → Text
blank_text (subscribe _ _ _ _) message_name =
    codes "Can't subscribe to a blank topic name! SysCommand.subscribe(, "
    ++ message_name
    ++ codes ")"
blank_text (publish _ _ _ _) message_name =
    codes "Can't publish to a blank topic name! SysCommand.publish(, " ++ message_name ++ codes ")"
blank_text ros_service message_name =
    codes "RegisterRosService(, " ++ message_name ++ codes ") - Can't register a blank topic name!"
blank_text unity_service message_name =
    codes "RegisterUnityService(, "
    ++ message_name
    ++ codes ") - Can't register a blank topic name!"

-- The error for a registration that is refused: a blank name is looked at first.
abbrev pub refusal : Registration → Text → Text → Text
refusal g [] message_name = blank_text g message_name
refusal g (c ∷ topic) message_name = unknown_text g (c ∷ topic) message_name

module _ {P : Platform} where
  abbrev pub register : Registration → Text → Text → Exec (TcpServer P) (Unit {0})
  register (subscribe queue_size reliability durability history) topic message_name =
      SysCommands.subscribe topic message_name queue_size reliability durability history
  register (publish queue_size latch reliability history) topic message_name =
      SysCommands.publish topic message_name queue_size latch reliability history
  register ros_service topic message_name = SysCommands.ros_service topic message_name
  register unity_service topic message_name = SysCommands.unity_service topic message_name

  -- The command does nothing but send the error.
  abbrev pub refused : Registration → Text → Text → TcpServer P → Result (Unit {0}) × TcpServer P
  refused g topic message_name s =
      let sent = Send.send_unity_error (refusal g topic message_name) s.sender in
      (sent.0, record s { sender = sent.1 })

  blank_rejected :
      (g : Registration) (message_name : Text) (s : TcpServer P)
      → register g [] message_name s ≡ refused g [] message_name s
  unfolding SysCommands.subscribe SysCommands.publish SysCommands.ros_service
      SysCommands.unity_service send_unity_error
  blank_rejected (subscribe _ _ _ _) message_name s = refl
  blank_rejected (publish _ _ _ _) message_name s = refl
  blank_rejected ros_service message_name s = refl
  blank_rejected unity_service message_name s = refl

  unknown_rejected :
      (g : Registration) (c : ℕ) (topic message_name : Text) (s : TcpServer P)
      → resolve_message_name P message_name (extension g) ≡ ok none
      → register g (c ∷ topic) message_name s ≡ refused g (c ∷ topic) message_name s
  unfolding SysCommands.subscribe SysCommands.publish SysCommands.ros_service
      SysCommands.unity_service SysCommands.with_class send_unity_error
  unknown_rejected (subscribe _ _ _ _) c topic message_name s e = rw e refl
  unknown_rejected (publish _ _ _ _) c topic message_name s e = rw e refl
  unknown_rejected ros_service c topic message_name s e = rw e refl
  unknown_rejected unity_service c topic message_name s e = rw e refl

  -- Each of the four commands that register something, whatever its other arguments, for an empty
  -- name or for a class that is not found: the command only sends its error to Unity, for an empty
  -- name the one about that, and no object, no call of rclpy and no table changes.
  pub register_rejected :
      (g : Registration) (topic message_name : Text) (s : TcpServer P)
      → (topic ≡ []) ⊎ (resolve_message_name P message_name (extension g) ≡ ok none)
      → register g topic message_name s ≡ refused g topic message_name s
  register_rejected g [] message_name s _ = blank_rejected g message_name s
  register_rejected g (c ∷ topic) message_name s (inl blank) = absurd (cc)
  register_rejected g (c ∷ topic) message_name s (inr unknown) =
      unknown_rejected g c topic message_name s unknown
