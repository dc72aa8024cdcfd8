-- ===== src/Client/RoundTrip.antt =====
-- What the serialisers of client.py write, `read_message` reads, however the bytes arrive.
use ros_tcp_endpoint.Prelude.{
  ℕ, ◌-◌, ◌^◌, ◌<◌, ◌≡◌, ap, ◌∙◌, ◌++◌, Bytes, Text, length, append_assoc, subst,
}
use ros_tcp_endpoint.Prelude.Result.{ok, >>=-eq-ok}
use ros_tcp_endpoint.Socket.{Conn, stream}
use ros_tcp_endpoint.Socket.Chunks.{IsLive}
use ros_tcp_endpoint.Struct.RoundTrip.{pack_unsigned-ok}
use ros_tcp_endpoint.Struct.{le_bytes, pack_unsigned, pack_i32}
use ros_tcp_endpoint.Struct.Int.{negsuc}
use ros_tcp_endpoint.Utf8.{encode}
use ros_tcp_endpoint.Utf8.RoundTrip.{decode-encode}
use ros_tcp_endpoint.Text.{rstrip_nul}
use ros_tcp_endpoint.Platform.{Platform}
use ros_tcp_endpoint.Client.Recv.{read_message, topic_id_destination}
use ros_tcp_endpoint.Client.Recv.Stream.{Reads}
use ros_tcp_endpoint.Client.Recv.Frames.{Parses-string_frame, Parses-id_frame}
use ros_tcp_endpoint.Client.Serialize.{
  pack_block, serialize_message, serialize_message_with_topic_id,
}

pub pack_block-ok :
    (bs x : Bytes)
    → pack_block bs ≡ ok x
    → (length bs < 2 ^ 32) × (x ≡ le_bytes 4 (length bs) ++ bs)
unfolding pack_block
pack_block-ok bs x h =
    let (n, hn, e) = >>=-eq-ok (pack_unsigned 4 (length bs)) (λ n. ok (n ++ bs)) h in
    let (fits, en) = pack_unsigned-ok 4 (length bs) n hn in (fits, cc (e, en))

regroup :
    {frame info m : Bytes} (l₁ name l₂ body : Bytes)
    → info ≡ l₁ ++ name
    → m ≡ l₂
    → ok (info ++ m ++ body) ≡ ok frame
    → frame ≡ l₁ ++ (name ++ (l₂ ++ body))
regroup l₁ name l₂ body p q e =
    cc (append_assoc (l₁ ++ name) l₂ body, append_assoc l₁ name (l₂ ++ body))

pack_marker : (m : Bytes) → pack_i32 (negsuc 0) ≡ ok m → m ≡ le_bytes 4 (2 ^ 32 - 1)
unfolding pack_i32 le_bytes
pack_marker m h = cc

id_layout :
    {frame : Bytes} (m i l : Bytes) (topic_id : ℕ) (body : Bytes)
    → m ≡ le_bytes 4 (2 ^ 32 - 1)
    → i ≡ le_bytes 2 topic_id
    → l ≡ le_bytes 4 (length body)
    → ok (m ++ i ++ l ++ body) ≡ ok frame
    → frame ≡ le_bytes 4 (2 ^ 32 - 1) ++ (le_bytes 2 topic_id ++ (le_bytes 4 (length body) ++ body))
id_layout m i l topic_id body p q r e =
    cc (append_assoc (m ++ i) l body, append_assoc m i (l ++ body))

-- The parts of a frame with a topic's name.
pub record NamedFrame (P : Platform) (dest : Text) (message : P.Message) (frame : Bytes)
    : Type 0 where
  pub name : Bytes
  pub body : Bytes
  pub encoded : encode dest ≡ ok name
  pub serialized : P.serialize message ≡ ok body
  pub name_fits : length name < 2 ^ 32
  pub body_fits : length body < 2 ^ 32
  pub layout : frame ≡ le_bytes 4 (length name) ++ (name ++ (le_bytes 4 (length body) ++ body))

module _ (P : Platform) where
  pub serialize_message-NamedFrame :
      (dest : Text) (message : P.Message) (frame : Bytes)
      → serialize_message P dest message ≡ ok frame
      → NamedFrame P dest message frame
  unfolding serialize_message
  serialize_message-NamedFrame dest message frame h =
      let (name, hn, h₁) = >>=-eq-ok (encode dest) _ h in
      let (info, hi, h₂) = >>=-eq-ok (pack_block name) _ h₁ in
      let (body, hb, h₃) = >>=-eq-ok (P.serialize message) _ h₂ in
      let (m, hm, h₄) = >>=-eq-ok (pack_unsigned 4 (length body)) _ h₃ in
      let (name_fits, en) = pack_block-ok name info hi in
      let (body_fits, em) = pack_unsigned-ok 4 (length body) m hm in
      record {
        name = name;
        body = body;
        encoded = hn;
        serialized = hb;
        name_fits = name_fits;
        body_fits = body_fits;
        layout = regroup (le_bytes 4 (length name)) name (le_bytes 4 (length body)) body en em h₄;
      }

  -- A frame that `serialize_message` writes for a destination of fewer than 2 ^ 31 bytes is read by
  -- `read_message`, whatever chunks it arrives in and whatever follows it, as the destination
  -- without its trailing NULs and the serialized body, and exactly the bytes behind the frame are
  -- left.
  pub read_message-serialize_message :
      (dest : Text) (message : P.Message) (name body frame rest : Bytes) (conn : Conn)
      → encode dest ≡ ok name
      → length name < 2 ^ 31
      → P.serialize message ≡ ok body
      → serialize_message P dest message ≡ ok frame
      → IsLive conn
      → stream conn ≡ frame ++ rest
      → Reads (read_message conn) (rstrip_nul dest, body) rest
  read_message-serialize_message dest message name body frame rest conn en hn eb h live s =
      let f = serialize_message-NamedFrame dest message frame h in
      (Parses-string_frame name dest body hn
          (subst (λ b. length b < 2 ^ 32) (cc (f.serialized, eb)) f.body_fits)
          (decode-encode dest name en)).at
        rest conn live (s ∙ ap (λ x. x ++ rest) (cc (f.layout, f.encoded, f.serialized)))

  -- The frame of a message with a topic's number.
  pub serialize_with_topic_id-layout :
      (topic_id : ℕ) (message : P.Message) (body frame : Bytes)
      → P.serialize message ≡ ok body
      → serialize_message_with_topic_id P topic_id message ≡ ok frame
      → (topic_id < 2 ^ 16)
        × (length body < 2 ^ 32)
        × (frame
            ≡ le_bytes 4 (2 ^ 32 - 1)
              ++ (le_bytes 2 topic_id ++ (le_bytes 4 (length body) ++ body)))
  unfolding serialize_message_with_topic_id
  serialize_with_topic_id-layout topic_id message body frame eb h =
      let (m, hm, h₁) = >>=-eq-ok (pack_i32 (negsuc 0)) _ h in
      let (i, hi, h₂) = >>=-eq-ok (pack_unsigned 2 topic_id) _ h₁ in
      let (b, hb, h₃) = >>=-eq-ok (P.serialize message) _ h₂ in
      let (l, hl, h₄) = >>=-eq-ok (pack_unsigned 4 (length b)) _ h₃ in
      let (id_fits, ei) = pack_unsigned-ok 2 topic_id i hi in
      let (body_fits, el) = pack_unsigned-ok 4 (length b) l hl in
      let same : b ≡ body = cc (hb, eb) in
      (
        id_fits,
        subst (λ b. length b < 2 ^ 32) same body_fits,
        id_layout m i l topic_id body (pack_marker m hm) ei
            (subst (λ b. l ≡ le_bytes 4 (length b)) same el)
            (subst (λ b. ok (m ++ i ++ l ++ b) ≡ ok frame) same h₄),
      )

  -- A frame that `serialize_message_with_topic_id` writes is read by `read_message`, whatever
  -- chunks it arrives in and whatever follows it, as the destination made from the topic's number
  -- and the serialized body, and exactly the bytes behind the frame are left.
  pub read_message-serialize_message_with_topic_id :
      (topic_id : ℕ) (message : P.Message) (body frame rest : Bytes) (conn : Conn)
      → P.serialize message ≡ ok body
      → serialize_message_with_topic_id P topic_id message ≡ ok frame
      → IsLive conn
      → stream conn ≡ frame ++ rest
      → Reads (read_message conn) (topic_id_destination topic_id, body) rest
  read_message-serialize_message_with_topic_id topic_id message body frame rest conn eb h live s =
      let (id_fits, body_fits, layout) =
        serialize_with_topic_id-layout topic_id message body frame eb h in
      (Parses-id_frame topic_id body id_fits body_fits).at rest conn live
        (s ∙ ap (λ x. x ++ rest) layout)
