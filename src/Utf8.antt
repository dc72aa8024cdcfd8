-- ===== src/Utf8.antt =====
-- `str.encode("utf-8")` and the strict `bytes.decode("utf-8")` of Python.
pub mod RoundTrip
use ros_tcp_endpoint.Prelude.{
  ℕ, zero, suc, ◌+◌, ◌*◌, ◌-◌, ◌/◌, ◌%◌, Bool, ◌&&◌, List, [], ◌∷◌, ◌++◌, Option, none, some, Bytes,
  Text, ltb, leb, ◌==◌, if◌then◌else◌,
}
use ros_tcp_endpoint.Prelude.Result.{Result, ok, err, unicode_error, ◌>>=◌}

-- The bytes of one code point; a surrogate raises `UnicodeEncodeError`.
unfoldable pub encode_char : ℕ → Result Bytes
encode_char c =
    if ltb c 0x80
    then ok (c ∷ [])
    else if ltb c 0x800
    then ok ((0xc0 + c / 64) ∷ (0x80 + c % 64) ∷ [])
    else if leb 0xd800 c && ltb c 0xe000
    then err unicode_error
    else if ltb c 0x10000
    then ok ((0xe0 + c / 4096) ∷ (0x80 + c / 64 % 64) ∷ (0x80 + c % 64) ∷ [])
    else if ltb c 0x110000
    then ok
        ((0xf0 + c / 262144) ∷ (0x80 + c / 4096 % 64) ∷ (0x80 + c / 64 % 64) ∷ (0x80 + c % 64) ∷ [])
    else err unicode_error

unfoldable pub encode : Text → Result Bytes
encode [] = ok []
encode (c ∷ s) = do b ← encode_char c; r ← encode s; ok (b ++ r)

-- Between two characters, or inside one: continuation bytes still to come after the next, the bits
-- read, and the bounds of the next byte.
pub data State : Type 0 where
  start : State
  inside : ℕ → ℕ → ℕ → ℕ → State

-- One byte: the next state and the character that it completes.
unfoldable pub decode_step : State → ℕ → Option (State × Option ℕ)
decode_step start b =
    if ltb b 0x80
    then some (start, some b)
    else if ltb b 0xc2
    then none
    else if ltb b 0xe0
    then some (inside 0 (b - 0xc0) 0x80 0xbf, none)
    else if ltb b 0xf0
    then some (
      inside 1 (b - 0xe0) (if b == 0xe0 then 0xa0 else 0x80) (if b == 0xed then 0x9f else 0xbf),
      none,
    )
    else if ltb b 0xf5
    then some (
      inside 2 (b - 0xf0) (if b == 0xf0 then 0x90 else 0x80) (if b == 0xf4 then 0x8f else 0xbf),
      none,
    )
    else none
decode_step (inside zero acc lo hi) b =
    if leb lo b && leb b hi then some (start, some (acc * 64 + (b - 0x80))) else none
decode_step (inside (suc k) acc lo hi) b =
    if leb lo b && leb b hi then some (inside k (acc * 64 + (b - 0x80)) 0x80 0xbf, none) else none

abbrev emit : Option ℕ → Result Text → Result Text
emit none r = r
emit (some c) (ok s) = ok (c ∷ s)
emit (some c) (err e) = err e

unfoldable pub decode_from : State → Bytes → Result Text
decode_from start [] = ok []
decode_from (inside _ _ _ _) [] = err unicode_error
decode_from st (b ∷ bs) = elim (decode_step st b) [
  | none ↦ err unicode_error
  | some (st', c) ↦ emit c (decode_from st' bs)
]

unfoldable pub decode : Bytes → Result Text
unfolding decode_from decode_step
decode bs = decode_from start bs
