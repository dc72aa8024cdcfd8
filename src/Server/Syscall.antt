-- ===== src/Server/Syscall.antt =====
-- server.py: `handle_syscommand`, which calls the command named by a destination "__name" with
-- the JSON object of the message as keyword arguments.
use ros_tcp_endpoint.Prelude.{
  ℕ, Bool, true, false, ◌||◌, List, [], ◌∷◌, Bytes, Text, codes, drop, Option, none, some, text_eq,
  if◌then◌else◌,
}
use ros_tcp_endpoint.Prelude.Result.{Result, ok, err, attribute_error, type_error, json_error}
use ros_tcp_endpoint.Prelude.Exec.{Exec, pure, raise, lift, ◌>>=◌, ◌>>◌}
use ros_tcp_endpoint.Platform.{Platform}
use ros_tcp_endpoint.Struct.Int.{pos}
use ros_tcp_endpoint.Json.{Json, bool, int, str, obj, Fields, end, field, get_field}
use ros_tcp_endpoint.Text.{rstrip_nul}
use ros_tcp_endpoint.Utf8.{decode}
use ros_tcp_endpoint.Server.{TcpServer}
use ros_tcp_endpoint.Server.Resolve.{resolve_message_name}
use ros_tcp_endpoint.Server.SysCommands

-- The public attributes of `SysCommands` that are methods.
pub data Command : Type 0 where
  subscribe publish ros_service unity_service response request topic_list : Command
  resolve_name : Command

-- getattr(self.syscommands, name): the names of methods, then everything else. `tcp_server`, which
-- is an attribute and no function, and the attributes of every object are not among these names.
abbrev pub commands : List (Text × Command)
commands =
    (codes "subscribe", subscribe)
    ∷ (codes "publish", publish)
    ∷ (codes "ros_service", ros_service)
    ∷ (codes "unity_service", unity_service)
    ∷ (codes "response", response)
    ∷ (codes "request", request)
    ∷ (codes "topic_list", topic_list)
    ∷ (codes "resolve_message_name", resolve_name)
    ∷ []

unfoldable pub find_command : List (Text × Command) → Text → Result Command
find_command [] name = err attribute_error
find_command ((n, c) ∷ cs) name = if text_eq n name then ok c else find_command cs name

unfoldable pub get_command : Text → Result Command
unfolding find_command
get_command name = find_command commands name

-- Keyword arguments: every key is a parameter, and a parameter without default has a value. A
-- value of another JSON type than the parameter's documentation says counts as a wrong call.
unfoldable pub is_name : List Text → Text → Bool
is_name [] k = false
is_name (n ∷ ns) k = text_eq n k || is_name ns k

unfoldable pub known_keys : List Text → Fields → Bool
unfolding is_name
known_keys names end = true
known_keys names (field k v fs) = if is_name names k then known_keys names fs else false

unfoldable pub check_keys : List Text → Fields → Result (Unit {0})
unfolding known_keys
check_keys names fs = if known_keys names fs then ok tt else err type_error

abbrev pub as_text : Json → Result Text
as_text (str t) = ok t
as_text _ = err type_error

abbrev pub as_nat : Json → Result ℕ
as_nat (int (pos n)) = ok n
as_nat _ = err type_error

abbrev pub as_bool : Json → Result Bool
as_bool (bool b) = ok b
as_bool _ = err type_error

abbrev pub argument {ℓ} : {A : Type ℓ} → (Json → Result A) → Option Json → Result A
argument read none = err type_error
argument read (some v) = read v

abbrev pub argument_or {ℓ} : {A : Type ℓ} → (Json → Result A) → A → Option Json → Result A
argument_or read default none = ok default
argument_or read default (some v) = read v

-- A JSONDecodeError has the text read again, without what follows the first value.
unfoldable pub read_params : (P : Platform) → Text → Result Json → Result Json
read_params P message_json (err json_error) = P.raw_decode message_json
read_params P message_json r = r

module _ {P : Platform} where
  -- function(**params), for the fields of the object
  unfoldable pub call_command : Command → Fields → Exec (TcpServer P) (Unit {0})
  unfolding check_keys
  call_command subscribe fs = do
    lift (
        check_keys
          (codes "topic"
            ∷ codes "message_name"
            ∷ codes "queue_size"
            ∷ codes "reliability"
            ∷ codes "durability"
            ∷ codes "history"
            ∷ [])
          fs)
    topic ← lift (argument as_text (get_field fs (codes "topic")))
    message_name ← lift (argument as_text (get_field fs (codes "message_name")))
    queue_size ← lift (argument_or as_nat 10 (get_field fs (codes "queue_size")))
    reliability ← lift (argument_or as_text (codes "reliable") (get_field fs (codes "reliability")))
    durability ← lift (argument_or as_text (codes "volatile") (get_field fs (codes "durability")))
    history ← lift (argument_or as_text (codes "keep_last") (get_field fs (codes "history")))
    SysCommands.subscribe topic message_name queue_size reliability durability history
  call_command publish fs = do
    lift (
        check_keys
          (codes "topic"
            ∷ codes "message_name"
            ∷ codes "queue_size"
            ∷ codes "latch"
            ∷ codes "reliability"
            ∷ codes "history"
            ∷ [])
          fs)
    topic ← lift (argument as_text (get_field fs (codes "topic")))
    message_name ← lift (argument as_text (get_field fs (codes "message_name")))
    queue_size ← lift (argument_or as_nat 10 (get_field fs (codes "queue_size")))
    latch ← lift (argument_or as_bool false (get_field fs (codes "latch")))
    reliability ← lift (argument_or as_text (codes "reliable") (get_field fs (codes "reliability")))
    history ← lift (argument_or as_text (codes "keep_last") (get_field fs (codes "history")))
    SysCommands.publish topic message_name queue_size latch reliability history
  call_command ros_service fs = do
    lift (check_keys (codes "topic" ∷ codes "message_name" ∷ []) fs)
    topic ← lift (argument as_text (get_field fs (codes "topic")))
    message_name ← lift (argument as_text (get_field fs (codes "message_name")))
    SysCommands.ros_service topic message_name
  call_command unity_service fs = do
    lift (check_keys (codes "topic" ∷ codes "message_name" ∷ []) fs)
    topic ← lift (argument as_text (get_field fs (codes "topic")))
    message_name ← lift (argument as_text (get_field fs (codes "message_name")))
    SysCommands.unity_service topic message_name
  call_command response fs = do
    lift (check_keys (codes "srv_id" ∷ []) fs)
    srv_id ← lift (argument ok (get_field fs (codes "srv_id")))
    SysCommands.response srv_id
  call_command request fs = do
    lift (check_keys (codes "srv_id" ∷ []) fs)
    srv_id ← lift (argument ok (get_field fs (codes "srv_id")))
    SysCommands.request srv_id
  call_command topic_list fs = do lift (check_keys [] fs); SysCommands.topic_list
  call_command resolve_name fs = do
    lift (check_keys (codes "name" ∷ codes "extension" ∷ []) fs)
    name ← lift (argument as_text (get_field fs (codes "name")))
    extension ← lift (argument_or as_text (codes "msg") (get_field fs (codes "extension")))
    lift (resolve_message_name P name extension)
    pure tt

  unfoldable pub call_with : Command → Json → Exec (TcpServer P) (Unit {0})
  unfolding call_command
  call_with c (obj fs) = call_command c fs
  call_with c _ = raise type_error

  -- `getattr` raises where it has no attribute, so its result is never `None`.
  unfoldable pub handle_syscommand : Text → Bytes → Exec (TcpServer P) (Unit {0})
  unfolding get_command read_params call_with
  handle_syscommand topic payload = do
    function ← lift (get_command (drop 2 topic))
    message ← lift (decode payload)
    params ← lift (read_params P (rstrip_nul message) (P.loads (rstrip_nul message)))
    call_with function params
