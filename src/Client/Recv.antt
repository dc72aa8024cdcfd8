-- ===== src/Client/Recv.antt =====
-- client.py: the methods of `ClientThread` that read from the connection.
pub mod Stream
pub mod Frames
pub mod Cut
pub mod Chunking
pub mod Progress
use ros_tcp_endpoint.Prelude.{
  ℕ, zero, suc, ◌+◌, ◌-◌, Bool, ◌&&◌, List, [], ◌∷◌, ◌++◌, Bytes, Text, codes, length, ltb, ◌==◌,
  if◌then◌else◌,
}
use ros_tcp_endpoint.Prelude.Result.{Result, ok, err, io_error, value_error, out_of_fuel}
use ros_tcp_endpoint.Prelude.Run.{Run, pure, raise, lift, ◌>>=◌}
use ros_tcp_endpoint.Socket.{Conn, recv_into}
use ros_tcp_endpoint.Struct.{of_le, unpack_i32}
use ros_tcp_endpoint.Struct.Int.{ℤ, pos, negsuc}
use ros_tcp_endpoint.Utf8.{decode}
use ros_tcp_endpoint.Text.{rstrip_nul, decimal}

-- The loop of `recvall`: `buffer` is the part of the bytearray before `pos`.
unfoldable pub recv_loop : ℕ → ℕ → Bytes → Run Conn Bytes
recv_loop zero size buffer = raise out_of_fuel
recv_loop (suc fuel) size buffer =
    let next : Run Conn Bytes = do
      read ← recv_into (size - length buffer)
      if length read == 0 then raise io_error else recv_loop fuel size (buffer ++ read)
    in if ltb (length buffer) size then next else pure buffer

-- `bytearray(size)` raises `ValueError` for a negative size. Each round but the last reads a byte,
-- so `size + 1` rounds are enough.
unfoldable pub recvall : ℤ → Run Conn Bytes
recvall (pos size) = recv_loop (suc size) size []
recvall (negsuc _) = raise value_error

unfoldable pub read_int32 : Run Conn ℕ
read_int32 = do raw_bytes ← recvall (pos 4); pure (of_le raw_bytes)

unfoldable pub read_string : Run Conn Text
read_string = do str_len ← read_int32; str_bytes ← recvall (pos str_len); lift (decode str_bytes)

-- f"__topicid_{topic_id}"
abbrev pub topic_id_destination : ℕ → Text
topic_id_destination topic_id = codes "__topicid_" ++ decimal topic_id

-- The branches of `read_message` on `first_int`: the marker -1, and the length of the topic.
unfoldable pub read_frame : ℤ → Run Conn (Text × Bytes)
read_frame (negsuc zero) = do
  topic_id_bytes ← recvall (pos 2)
  full_message_size ← read_int32
  body ← recvall (pos full_message_size)
  pure (topic_id_destination (of_le topic_id_bytes), body)
read_frame str_len = do
  str_bytes ← recvall str_len
  destination ← lift (decode str_bytes)
  full_message_size ← read_int32
  body ← recvall (pos full_message_size)
  pure (rstrip_nul destination, body)

-- The last test of the method only logs: it returns the same on both branches.
unfoldable pub read_message : Run Conn (Text × Bytes)
unfolding read_frame
read_message = do first_bytes ← recvall (pos 4); read_frame (unpack_i32 first_bytes)
