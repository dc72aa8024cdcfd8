-- ===== src/ZeroCopy.antt =====
-- zero_copy.py: a memory-mapped buffer for large payloads, and the references into it.
pub mod Buffer
pub mod Reference
use ros_tcp_endpoint.Prelude.{
  ℕ, zero, suc, ◌+◌, ◌-◌, Bool, true, false, ◌&&◌, List, [], ◌∷◌, ◌++◌, Bytes, Text, Option, none,
  some, length, take, drop, ltb, leb, ◌==◌, if◌then◌else◌,
}
use ros_tcp_endpoint.Prelude.Result.{Result, ok, err, type_error, ◌>>=◌}
use ros_tcp_endpoint.Struct.{pack_unsigned, of_le}

-- `mmap_buffer` is the memory, `none` before `initialize` and after `close`; `mmap_file` is
-- the name of the temporary file, if there is one.
pub record ZeroCopyBuffer : Type 0 where
  pub buffer_size : ℕ
  pub threshold : ℕ
  pub enabled : Bool
  pub mmap_file : Option Text
  pub mmap_buffer : Option Bytes
  pub write_offset : ℕ

-- ZeroCopyBuffer(buffer_size) with ZERO_COPY_THRESHOLD set
unfoldable pub new_buffer : ℕ → ℕ → ZeroCopyBuffer
new_buffer buffer_size threshold = record {
  buffer_size = buffer_size;
  threshold = threshold;
  enabled = false;
  mmap_file = none;
  mmap_buffer = none;
  write_offset = 0;
}

unfoldable pub zeros : ℕ → Bytes
zeros zero = []
zeros (suc n) = 0 ∷ zeros n

-- What the operating system does with the temporary file and the mapping.
pub data MapOutcome : Type 0 where
  mapped no_map : Text → MapOutcome
  no_file : MapOutcome

-- `initialize`: the outcome of the system calls is an argument. A file that was made stays, also
-- where the mapping fails.
unfoldable pub initialize : MapOutcome → ZeroCopyBuffer → Bool × ZeroCopyBuffer
unfolding zeros
initialize (mapped name) z = (
  true,
  record z {
    mmap_file = some name;
    mmap_buffer = some (zeros z.buffer_size);
    enabled = true;
    write_offset = 0;
  },
)
initialize no_file z = (false, record z { enabled = false })
initialize (no_map name) z = (false, record z { mmap_file = some name; enabled = false })

unfoldable pub can_use_zero_copy : ZeroCopyBuffer → ℕ → Bool
can_use_zero_copy z message_size =
    z.enabled && (leb z.threshold message_size && leb (z.write_offset + message_size) z.buffer_size)

-- buffer[offset:offset + len(data)] = data; without a buffer, `None[...]` raises `TypeError`.
unfoldable pub write_at : Option Bytes → ℕ → Bytes → Result Bytes
write_at none offset payload = err type_error
write_at (some mem) offset payload =
    ok (take offset mem ++ (payload ++ drop (offset + length payload) mem))

unfoldable pub write_from : ℕ → Bytes → ZeroCopyBuffer → Result ((Bool × ℕ × ℕ) × ZeroCopyBuffer)
unfolding write_at
write_from offset payload z = do
  mem ← write_at z.mmap_buffer offset payload
  ok (
    (true, offset, length payload),
    record z { mmap_buffer = some mem; write_offset = offset + length payload },
  )

-- `write_message` returns (success, offset, size).
unfoldable pub write_message : Bytes → ZeroCopyBuffer → Result ((Bool × ℕ × ℕ) × ZeroCopyBuffer)
unfolding write_from
write_message payload z =
    if z.enabled
    then if ltb z.buffer_size (z.write_offset + length payload)
      then if ltb z.buffer_size (length payload)
        then ok ((false, 0, 0), record z { write_offset = 0 })
        else write_from 0 payload z
      else write_from z.write_offset payload z
    else ok ((false, 0, 0), z)

unfoldable pub slice : Option Bytes → ℕ → ℕ → Result (Option Bytes)
slice none offset size = err type_error
slice (some mem) offset size = ok (some (take size (drop offset mem)))

unfoldable pub read_message : ℕ → ℕ → ZeroCopyBuffer → Result (Option Bytes)
unfolding slice
read_message offset size z =
    if z.enabled
    then if ltb z.buffer_size (offset + size) then ok none else slice z.mmap_buffer offset size
    else ok none

unfoldable pub get_buffer_path : ZeroCopyBuffer → Text
get_buffer_path z = elim z.mmap_file [ none ↦ [] | some name ↦ name ]

unfoldable pub close : ZeroCopyBuffer → ZeroCopyBuffer
close z = record z { mmap_buffer = none; mmap_file = none; enabled = false }

unfoldable pub serialize_zero_copy_reference : ℕ → ℕ → Result Bytes
serialize_zero_copy_reference offset size = do
  marker ← pack_unsigned 1 0xff
  o ← pack_unsigned 8 offset
  n ← pack_unsigned 8 size
  ok (marker ++ (o ++ n))

unfoldable pub deserialize_zero_copy_reference : Bytes → Option (ℕ × ℕ)
deserialize_zero_copy_reference bs =
    if ltb (length bs) 17
    then none
    else if of_le (take 1 bs) == 0xff
    then some (of_le (take 8 (drop 1 bs)), of_le (take 8 (drop 9 bs)))
    else none
