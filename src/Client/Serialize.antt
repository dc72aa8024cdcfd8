-- ===== src/Client/Serialize.antt =====
-- client.py: the static methods of `ClientThread` that write frames, and the parameter objects of
-- tcp_sender.py that `serialize_command` is given.
use ros_tcp_endpoint.Prelude.{
  ℕ, ◌||◌, List, ◌++◌, Bytes, Text, codes, length, text_eq, if◌then◌else◌,
}
use ros_tcp_endpoint.Prelude.Result.{Result, ok, err, struct_error, ◌>>=◌}
use ros_tcp_endpoint.Struct.{pack_unsigned, pack_i32}
use ros_tcp_endpoint.Struct.Int.{pos, negsuc}
use ros_tcp_endpoint.Utf8.{encode}
use ros_tcp_endpoint.Json.{Json, bool, int, str, arr, obj, Fields, end, field, strings}
use ros_tcp_endpoint.Platform.{Platform}

-- struct.pack("<I%ss" % len(bs), len(bs), bs)
unfoldable pub pack_block : Bytes → Result Bytes
pack_block bs = do n ← pack_unsigned 4 (length bs); ok (n ++ bs)

-- The objects that are sent as the parameters of a command.
pub data SysCommand : Type 0 where
  log : (text : Text) → SysCommand
  service : (srv_id : Json) → SysCommand
  topics_response : (topics types : List Text) → SysCommand
  handshake : (version metadata : Text) → SysCommand
  topic_map : (topic : Text) (topic_id : ℕ) → SysCommand

-- params.__dict__
unfoldable pub to_dict : SysCommand → Fields
to_dict (log text) = field (codes "text") (str text) end
to_dict (service srv_id) = field (codes "srv_id") srv_id end
to_dict (topics_response topics types) =
    field (codes "topics") (arr (strings topics)) (field (codes "types") (arr (strings types)) end)
to_dict (handshake version metadata) =
    field (codes "version") (str version) (field (codes "metadata") (str metadata) end)
to_dict (topic_map topic topic_id) =
    field (codes "topic") (str topic) (field (codes "topic_id") (int (pos topic_id)) end)

-- getattr(params, 'srv_id', 0)
unfoldable pub srv_id_of : SysCommand → Json
srv_id_of (service srv_id) = srv_id
srv_id_of _ = int (pos 0)

-- struct.pack("<i", v): a Boolean is an integer, and any other value raises `struct.error`.
unfoldable pub pack_json_i32 : Json → Result Bytes
pack_json_i32 (int z) = pack_i32 z
pack_json_i32 (bool b) = pack_i32 (pos (if b then 1 else 0))
pack_json_i32 _ = err struct_error

module _ (P : Platform) where
  unfoldable pub serialize_message : Text → P.Message → Result Bytes
  unfolding pack_block
  serialize_message destination message = do
    dest_bytes ← encode destination
    dest_info ← pack_block dest_bytes
    serial_response ← P.serialize message
    msg_length ← pack_unsigned 4 (length serial_response)
    ok (dest_info ++ msg_length ++ serial_response)

  unfoldable pub serialize_message_with_topic_id : ℕ → P.Message → Result Bytes
  serialize_message_with_topic_id topic_id message = do
    marker ← pack_i32 (negsuc 0)
    topic_id_bytes ← pack_unsigned 2 topic_id
    serial_response ← P.serialize message
    msg_length ← pack_unsigned 4 (length serial_response)
    ok (marker ++ topic_id_bytes ++ msg_length ++ serial_response)

  -- The part after the command's name: binary for a service id, JSON for everything else.
  unfoldable pub serialize_params : Text → SysCommand → Result Bytes
  unfolding srv_id_of pack_json_i32 to_dict
  serialize_params command params =
      if text_eq command (codes "__request") || text_eq command (codes "__response")
      then pack_json_i32 (srv_id_of params)
      else encode (P.dumps (obj (to_dict params)))

  unfoldable pub serialize_command : Text → SysCommand → Result Bytes
  unfolding pack_block serialize_params
  serialize_command command params = do
    cmd_bytes ← encode command
    cmd_info ← pack_block cmd_bytes
    params_bytes ← serialize_params command params
    params_info ← pack_block params_bytes
    ok (cmd_info ++ params_info)

-- The mapping without a command around it; no part of the endpoint calls it.
unfoldable pub serialize_topic_id_mapping : Text → ℕ → Result Bytes
unfolding pack_block
serialize_topic_id_mapping topic topic_id = do
  topic_bytes ← encode topic
  topic_info ← pack_block topic_bytes
  topic_id_bytes ← pack_unsigned 2 topic_id
  ok (topic_info ++ topic_id_bytes)
