-- ===== src/Sender/Framing/Reads.antt =====
-- Frames as bytes, and the reader of client.py.
use ros_tcp_endpoint.Prelude.{
  ℕ, zero, suc, ◌^◌, ◌<◌, ◌≡◌, refl, ◌∙◌, List, [], ◌∷◌, ◌++◌, Bytes, Text, length, append_assoc,
}
use ros_tcp_endpoint.Prelude.Result.{Result, ok, ◌>>=◌}
use ros_tcp_endpoint.Text.{rstrip_nul}
use ros_tcp_endpoint.Utf8.RoundTrip.{decode-encode}
use ros_tcp_endpoint.Socket.{Conn, stream}
use ros_tcp_endpoint.Socket.Chunks.{IsLive}
use ros_tcp_endpoint.Client.Recv.{read_message, topic_id_destination}
use ros_tcp_endpoint.Client.Recv.Stream.{Reads}
use ros_tcp_endpoint.Client.Recv.Frames.{Parses-string_frame, Parses-id_frame}
use ros_tcp_endpoint.Sender.Framing.{IsFramed, empty, named, numbered, named_frame, numbered_frame}

-- A number of messages, one behind the other.
unfoldable pub read_messages : ℕ → Conn → Result (List (Text × Bytes) × Conn)
read_messages zero conn = ok ([], conn)
read_messages (suc n) conn = do
  first ← read_message conn
  rest ← read_messages n first.1
  ok (first.0 ∷ rest.0, rest.1)

-- What the frames say: destinations without trailing NULs, and payloads.
unfoldable pub messages : {xs : Bytes} → IsFramed xs → List (Text × Bytes)
messages empty = []
messages (named t name body e hn hb rest) = (rstrip_nul t, body) ∷ messages rest
messages (numbered n body hn hb rest) = (topic_id_destination n, body) ∷ messages rest

-- Every name has a length that the reader takes for one.
abbrev pub AllShort : {xs : Bytes} → IsFramed xs → Type 0
AllShort empty = Unit {0}
AllShort (named t name body e hn hb rest) = (length name < 2 ^ 31) × AllShort rest
AllShort (numbered n body hn hb rest) = AllShort rest

read_messages-next :
    (n : ℕ) (conn : Conn) (m : Text × Bytes) (ms : List (Text × Bytes)) (behind rest : Bytes)
    (r : Reads (read_message conn) m behind)
    → Reads (read_messages n r.conn) ms rest
    → Reads (read_messages (suc n) conn) (m ∷ ms) rest
unfolding read_messages
read_messages-next n conn m ms behind rest r k = record {
  conn = k.conn;
  live = k.live;
  left = k.left;
  returns = rw (r.returns, k.returns) refl;
}

-- A live connection on which whole frames arrive, cut into any chunks, with names of fewer than 2 ^
-- 31 bytes, and other bytes behind them: as many reads with `read_message` as there are frames
-- give, in their order, the destination and the body of each, and leave exactly the other bytes.
pub read_messages-IsFramed :
    {xs : Bytes} (f : IsFramed xs) (rest : Bytes) (conn : Conn)
    → AllShort f
    → IsLive conn
    → stream conn ≡ xs ++ rest
    → Reads (read_messages (length (messages f)) conn) (messages f) rest
unfolding read_messages messages
read_messages-IsFramed empty rest conn short live s = record {
  conn = conn;
  live = live;
  left = s;
  returns = refl;
}
read_messages-IsFramed (named t name body {rest = behind} e hn hb f) rest conn (first, short) live
      s =
    let r =
      (Parses-string_frame name t body first hb (decode-encode t name e)).at (behind ++ rest) conn
        live (s ∙ append_assoc (named_frame name body) behind rest) in
    read_messages-next (length (messages f)) conn (rstrip_nul t, body) (messages f) (behind ++ rest)
      rest r (read_messages-IsFramed f rest r.conn short r.live r.left)
read_messages-IsFramed (numbered n body {rest = behind} hn hb f) rest conn short live s =
    let r =
      (Parses-id_frame n body hn hb).at (behind ++ rest) conn live
        (s ∙ append_assoc (numbered_frame n body) behind rest) in
    read_messages-next (length (messages f)) conn (topic_id_destination n, body) (messages f)
      (behind ++ rest) rest r (read_messages-IsFramed f rest r.conn short r.live r.left)
