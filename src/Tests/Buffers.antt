-- ===== src/Tests/Buffers.antt =====
-- The zero-copy buffer.
use ros_tcp_endpoint.Prelude.{codes, ◌≡◌, refl, true, [], ◌∷◌, ◌++◌, Bytes, some, arith}
use ros_tcp_endpoint.Prelude.Result.{ok}
use ros_tcp_endpoint.Struct.{le_bytes, pack_unsigned}
use ros_tcp_endpoint.ZeroCopy.{
  ZeroCopyBuffer, write_message, read_message, serialize_zero_copy_reference,
  deserialize_zero_copy_reference,
}
use ros_tcp_endpoint.ZeroCopy.Buffer.{IsMapped, written, read_message-write_message, read_before}
use ros_tcp_endpoint.ZeroCopy.Reference.{deserialize-serialize_zero_copy_reference}

abbrev memory : Bytes
memory = 1 ∷ 2 ∷ 3 ∷ 0 ∷ 0 ∷ 0 ∷ []

abbrev buffer : ZeroCopyBuffer
buffer = record {
  buffer_size = 6;
  threshold = 2;
  enabled = true;
  mmap_file = some (codes "/tmp/a.bin");
  mmap_buffer = some memory;
  write_offset = 3;
}

mapped : IsMapped buffer memory
mapped = record { enabled = refl; memory = refl; size = refl; offset = omega arith }

read_message-write_message_example :
    (write_message (8 ∷ 9 ∷ []) buffer ≡ ok ((true, 3, 2), written buffer memory (8 ∷ 9 ∷ [])))
    × IsMapped (written buffer memory (8 ∷ 9 ∷ [])) (1 ∷ 2 ∷ 3 ∷ 8 ∷ 9 ∷ 0 ∷ [])
    × (read_message 3 2 (written buffer memory (8 ∷ 9 ∷ [])) ≡ ok (some (8 ∷ 9 ∷ [])))
read_message-write_message_example =
    read_message-write_message buffer memory (8 ∷ 9 ∷ []) mapped (omega arith)

read_before_example :
    read_message 0 3 (written buffer memory (8 ∷ 9 ∷ [])) ≡ read_message 0 3 buffer
unfolding write_message
read_before_example =
    read_before buffer memory (8 ∷ 9 ∷ []) mapped (omega arith) 0 3 3 2
      (written buffer memory (8 ∷ 9 ∷ [])) refl (omega arith)

reference : Bytes
reference = 0xff ∷ (le_bytes 8 3 ++ le_bytes 8 2)

deserialize-serialize_zero_copy_reference_example :
    deserialize_zero_copy_reference (reference ++ (4 ∷ [])) ≡ some (3, 2)
unfolding serialize_zero_copy_reference pack_unsigned le_bytes reference
deserialize-serialize_zero_copy_reference_example =
    deserialize-serialize_zero_copy_reference 3 2 reference (4 ∷ []) refl

abbrev pixels : Bytes
pixels = 1 ∷ 2 ∷ 3 ∷ 4 ∷ 5 ∷ 6 ∷ 7 ∷ 8 ∷ 9 ∷ 10 ∷ 11 ∷ 12 ∷ 13 ∷ 14 ∷ 15 ∷ 16 ∷ []
