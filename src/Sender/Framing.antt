-- ===== src/Sender/Framing.antt =====
-- Frames as bytes, and the serialisers of client.py and the slots of tcp_sender.py that make them.
pub mod Reads
use ros_tcp_endpoint.Prelude.{
  ℕ, ◌-◌, ◌^◌, ◌<◌, ◌≡◌, sym, subst, [], ◌∷◌, ◌++◌, Bytes, Text, length, append-nil, append_assoc,
  inl, inr, ◌∙◌, arith,
}
use ros_tcp_endpoint.Prelude.Dict.{Dict}
use ros_tcp_endpoint.Prelude.Result.{Exc, ok, err, Result-cases, >>=-eq-ok}
use ros_tcp_endpoint.Platform.{Platform}
use ros_tcp_endpoint.Struct.{le_bytes, pack_unsigned, pack_i32}
use ros_tcp_endpoint.Struct.Int.{negsuc}
use ros_tcp_endpoint.Utf8.{encode}
use ros_tcp_endpoint.Client.Serialize.{
  SysCommand, pack_block, serialize_params, serialize_command, serialize_message,
  serialize_message_with_topic_id,
}
use ros_tcp_endpoint.Client.RoundTrip.{
  pack_block-ok, serialize_message-NamedFrame, serialize_with_topic_id-layout,
}
use ros_tcp_endpoint.Sender.Loop.{join, serialize_pending}
use ros_tcp_endpoint.Sender.Parts.{Items}

-- A frame with a name, and one with a topic's number.
abbrev pub named_frame : Bytes → Bytes → Bytes
named_frame name body = le_bytes 4 (length name) ++ (name ++ (le_bytes 4 (length body) ++ body))

abbrev pub numbered_frame : ℕ → Bytes → Bytes
numbered_frame n body =
    le_bytes 4 (2 ^ 32 - 1) ++ (le_bytes 2 n ++ (le_bytes 4 (length body) ++ body))

-- Bytes that are frames, one behind the other, with nothing between or behind them.
pub data IsFramed : Bytes → Type 0 where
  empty : IsFramed []
  named :
      (t : Text) (name body : Bytes) {rest : Bytes}
      → encode t ≡ ok name
      → length name < 2 ^ 32
      → length body < 2 ^ 32
      → IsFramed rest
      → IsFramed (named_frame name body ++ rest)
  numbered :
      (n : ℕ) (body : Bytes) {rest : Bytes}
      → n < 2 ^ 16
      → length body < 2 ^ 32
      → IsFramed rest
      → IsFramed (numbered_frame n body ++ rest)

pub IsFramed-append : {xs ys : Bytes} → IsFramed xs → IsFramed ys → IsFramed (xs ++ ys)
IsFramed-append empty k = k
IsFramed-append {ys = ys} (named t name body {rest} e hn hb h) k =
    subst IsFramed (sym (append_assoc (named_frame name body) rest ys))
      (named t name body e hn hb (IsFramed-append h k))
IsFramed-append {ys = ys} (numbered n body {rest} hn hb h) k =
    subst IsFramed (sym (append_assoc (numbered_frame n body) rest ys))
      (numbered n body hn hb (IsFramed-append h k))

command_layout :
    {info more b : Bytes} (name body : Bytes)
    → info ≡ le_bytes 4 (length name) ++ name
    → more ≡ le_bytes 4 (length body) ++ body
    → ok (info ++ more) ≡ ok b
    → named_frame name body ++ [] ≡ b
command_layout name body p q e = cc (
  append_assoc (le_bytes 4 (length name)) name (le_bytes 4 (length body) ++ body),
  append-nil (named_frame name body),
)

module _ (P : Platform) where
  command-IsFramed :
      (name : Text) (c : SysCommand) (b : Bytes) → serialize_command P name c ≡ ok b → IsFramed b
  unfolding serialize_command
  command-IsFramed name c b h =
      let (cmd, hc, h₁) = >>=-eq-ok (encode name) _ h in
      let (info, hi, h₂) = >>=-eq-ok (pack_block cmd) _ h₁ in
      let (params, _, h₃) = >>=-eq-ok (serialize_params P name c) _ h₂ in
      let (more, hm, h₄) = >>=-eq-ok (pack_block params) _ h₃ in
      let (cmd_fits, ei) = pack_block-ok cmd info hi in
      let (params_fit, em) = pack_block-ok params more hm in
      subst IsFramed (command_layout cmd params ei em h₄)
        (named name cmd params hc cmd_fits params_fit empty)

  message-IsFramed :
      (t : Text) (m : P.Message) (b : Bytes) → serialize_message P t m ≡ ok b → IsFramed b
  message-IsFramed t m b h =
      let f = serialize_message-NamedFrame P t m b h in
      subst IsFramed (append-nil _ ∙ sym f.layout)
        (named t f.name f.body f.encoded f.name_fits f.body_fits empty)

  numbered-IsFramed :
      (n : ℕ) (m : P.Message) (b : Bytes)
      → serialize_message_with_topic_id P n m ≡ ok b
      → IsFramed b
  unfolding serialize_message_with_topic_id
  numbered-IsFramed n m b h =
      let (_, _, h₁) = >>=-eq-ok (pack_i32 (negsuc 0)) _ h in
      let (_, _, h₂) = >>=-eq-ok (pack_unsigned 2 n) _ h₁ in
      let (body, good, _) = >>=-eq-ok (P.serialize m) _ h₂ in
      let (fits, body_fits, layout) = serialize_with_topic_id-layout P n m body b good h in
      subst IsFramed (append-nil _ ∙ sym layout) (numbered n body fits body_fits empty)

  pub framed_items : Items P IsFramed
  framed_items = record {
    command = command-IsFramed;
    framed = numbered-IsFramed;
    pair = λ x t m b g e. IsFramed-append g (message-IsFramed t m b e);
  }

  pending_out :
      (n : ℕ) (m : P.Message) (slots : Dict ℕ P.Message) (e : Exc)
      → serialize_message_with_topic_id P n m ≡ err e
      → join (serialize_pending P slots) ≡ join (serialize_pending P ((n, m) ∷ slots))
  unfolding serialize_pending
  pending_out n m slots e bad = ground arith

  pending_in :
      (n : ℕ) (m : P.Message) (slots : Dict ℕ P.Message) (b : Bytes)
      → serialize_message_with_topic_id P n m ≡ ok b
      → b ++ join (serialize_pending P slots) ≡ join (serialize_pending P ((n, m) ∷ slots))
  unfolding serialize_pending join
  pending_in n m slots b good = ground arith

  pub pending-IsFramed : (slots : Dict ℕ P.Message) → IsFramed (join (serialize_pending P slots))
  unfolding serialize_pending join
  pending-IsFramed [] = empty
  pending-IsFramed ((n, m) ∷ slots) = elim (Result-cases (serialize_message_with_topic_id P n m)) [
    | inl (e, bad) ↦ subst IsFramed (pending_out n m slots e bad) (pending-IsFramed slots)
    | inr (b, good) ↦
        subst IsFramed (pending_in n m slots b good)
          (IsFramed-append (numbered-IsFramed n m b good) (pending-IsFramed slots))
  ]
