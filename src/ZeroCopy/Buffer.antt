-- ===== src/ZeroCopy/Buffer.antt =====
-- What the zero-copy buffer keeps.
use ros_tcp_endpoint.Prelude.{
  ℕ, zero, suc, ◌+◌, ◌≤◌, ◌≡◌, refl, ap, sym, subst, ◌∙◌, true, [], ◌∷◌, ◌++◌, Bytes, some, length,
  take, drop, ltb, if◌then◌else◌, arith, length-append, length-take, length-drop, take-append_self,
}
use ros_tcp_endpoint.Prelude.Result.{ok}
use ros_tcp_endpoint.ZeroCopy.{ZeroCopyBuffer, write_message, read_message, zeros}

-- The memory is there exactly while the buffer is enabled, has the buffer's size, and the next
-- write starts inside it.
pub record IsMapped (z : ZeroCopyBuffer) (mem : Bytes) : Type 0 where
  pub enabled : z.enabled ≡ true
  pub memory : z.mmap_buffer ≡ some mem
  pub size : length mem ≡ z.buffer_size
  pub offset : z.write_offset ≤ z.buffer_size

length-zeros : (n : ℕ) → length (zeros n) ≡ n
unfolding zeros
length-zeros zero = refl
length-zeros (suc n) = ap suc (length-zeros n)

take-drop_middle :
    (n : ℕ) (mem payload rest : Bytes)
    → n ≤ length mem
    → take (length payload) (drop n (take n mem ++ (payload ++ rest))) ≡ payload
take-drop_middle zero mem payload rest h = take-append_self payload rest
take-drop_middle (suc n) [] payload rest h = absurd (omega arith)
take-drop_middle (suc n) (b ∷ mem) payload rest h =
    take-drop_middle n mem payload rest (omega arith)

-- Bytes before `n` are not touched by what is put at `n`.
take_before :
    (off size n : ℕ) (mem rest : Bytes)
    → off + size ≤ n
    → n ≤ length mem
    → take size (drop off (take n mem ++ rest)) ≡ take size (drop off mem)
take_before zero zero n mem rest h k = refl
take_before zero (suc size) zero mem rest h k = absurd (omega arith)
take_before zero (suc size) (suc n) [] rest h k = absurd (omega arith)
take_before zero (suc size) (suc n) (b ∷ mem) rest h k =
    ap (λ t. b ∷ t) (take_before zero size n mem rest (omega arith) (omega arith))
take_before (suc off) size zero mem rest h k = absurd (omega arith)
take_before (suc off) size (suc n) [] rest h k = absurd (omega arith)
take_before (suc off) size (suc n) (b ∷ mem) rest h k =
    take_before off size n mem rest (omega arith) (omega arith)

-- The memory after a write at `n`.
abbrev spliced : ℕ → Bytes → Bytes → Bytes
spliced n payload mem = take n mem ++ (payload ++ drop (n + length payload) mem)

length-spliced :
    (n : ℕ) (payload mem : Bytes)
    → n + length payload ≤ length mem
    → length (spliced n payload mem) ≡ length mem
length-spliced n payload mem h = omega (
  arith,
  length-append (take n mem) (payload ++ drop (n + length payload) mem),
  length-append payload (drop (n + length payload) mem),
  length-take n mem,
  length-drop (n + length payload) mem,
)

-- Where the next payload goes: on, or back to the start where it would pass the end.
abbrev pub place : ZeroCopyBuffer → ℕ → ℕ
place z size = if ltb z.buffer_size (z.write_offset + size) then 0 else z.write_offset

-- The state after a write.
abbrev pub written : ZeroCopyBuffer → Bytes → Bytes → ZeroCopyBuffer
written z mem payload = record z {
  mmap_buffer = some (spliced (place z (length payload)) payload mem);
  write_offset = place z (length payload) + length payload;
}

module _ (z : ZeroCopyBuffer) (mem payload : Bytes) (m : IsMapped z mem)
    (fits : length payload ≤ z.buffer_size) where
  place_fits : place z (length payload) + length payload ≤ length mem
  place_fits = ground (arith, m.size, m.offset)

  write_lem :
      write_message payload z
      ≡ ok ((true, place z (length payload), length payload), (written z mem payload))
  unfolding write_message
  write_lem = ground (arith, m.enabled, m.memory, m.size, m.offset)

  written-IsMapped :
      IsMapped (written z mem payload) (spliced (place z (length payload)) payload mem)
  written-IsMapped = record {
    enabled = m.enabled;
    memory = refl;
    size = length-spliced (place z (length payload)) payload mem place_fits ∙ m.size;
    offset = omega (arith, place_fits, m.size);
  }

  read_written :
      read_message (place z (length payload)) (length payload) (written z mem payload)
      ≡ ok (some payload)
  unfolding read_message
  read_written = ground (
    arith,
    m.enabled,
    place_fits,
    m.size,
    take-drop_middle (place z (length payload)) mem payload
        (drop (place z (length payload) + length payload) mem),
  )

  -- A payload of at least the threshold and at most the size of a mapped zero-copy buffer is
  -- written, at the write offset or at 0 if it does not fit there; the buffer stays in order, and a
  -- read at the returned offset and size gives the payload back.
  pub read_message-write_message :
      (write_message payload z
        ≡ ok ((true, place z (length payload), length payload), (written z mem payload)))
      × IsMapped (written z mem payload) (spliced (place z (length payload)) payload mem)
      × (read_message (place z (length payload)) (length payload) (written z mem payload)
          ≡ ok (some payload))
  read_message-write_message = (write_lem, written-IsMapped, read_written)

  written_before :
      (off size : ℕ)
      → off + size ≤ place z (length payload)
      → read_message off size (written z mem payload) ≡ read_message off size z
  unfolding read_message
  written_before off size h = ground (
    arith,
    m.enabled,
    m.memory,
    place_fits,
    take_before off size (place z (length payload)) mem
        (payload ++ drop (place z (length payload) + length payload) mem),
  )

  -- When `write_message` has written a payload of at most the size of a mapped zero-copy buffer, a
  -- read of what lies wholly before the returned offset gives what it gave before.
  pub read_before :
      (off size offset count : ℕ) (w : ZeroCopyBuffer)
      → write_message payload z ≡ ok ((true, offset, count), w)
      → off + size ≤ offset
      → read_message off size w ≡ read_message off size z
  read_before off size offset count w writes before =
      let at : place z (length payload) ≡ offset = cc (write_lem, writes) in
      let now : written z mem payload ≡ w = cc (write_lem, writes) in
      subst (λ v. read_message off size v ≡ read_message off size z) now
        (written_before off size (subst (λ n. off + size ≤ n) (sym at) before))
