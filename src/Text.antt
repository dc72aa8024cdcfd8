-- ===== src/Text.antt =====
-- The methods of Python's `str` that the endpoint calls, and the pattern of its one `re.sub`.
pub mod Parts
use ros_tcp_endpoint.Prelude.{
  ℕ, zero, suc, ◌+◌, ◌-◌, ◌/◌, ◌%◌, Bool, true, false, not, ◌&&◌, ◌||◌, List, [], ◌∷◌, ◌++◌, Text,
  codes, ltb, leb, ◌==◌, if◌then◌else◌,
}

-- s.startswith(p)
unfoldable pub starts_with : Text → Text → Bool
starts_with s [] = true
starts_with [] (_ ∷ _) = false
starts_with (c ∷ s) (d ∷ p) = c == d && starts_with s p

-- p in s
unfoldable pub contains : Text → Text → Bool
unfolding starts_with
contains [] p = starts_with [] p
contains (c ∷ s) p = starts_with (c ∷ s) p || contains s p

-- any(p in s for p in ps)
unfoldable pub contains_any : Text → List Text → Bool
unfolding contains
contains_any s [] = false
contains_any s (p ∷ ps) = contains s p || contains_any s ps

is_nil : Text → Bool
is_nil [] = true
is_nil (_ ∷ _) = false

-- s.rstrip("\x00")
unfoldable pub rstrip_nul : Text → Text
unfolding is_nil
rstrip_nul [] = []
rstrip_nul (c ∷ s) = let r = rstrip_nul s in if c == 0 && is_nil r then [] else c ∷ r

-- s.lower(), as far as an equation with an ASCII word reads it: the letters that become ASCII are
-- A to Z and the Kelvin sign. (U+0130 becomes two characters, the second not ASCII.)
unfoldable pub lower : Text → Text
lower [] = []
lower (c ∷ s) =
    (if leb b'A' c && leb c b'Z' then c + 32 else if c == 0x212a then b'k' else c) ∷ lower s

-- s.split(d) for a separator of one character: the first part and the others.
unfoldable pub split : ℕ → Text → Text × List Text
split d [] = ([], [])
split d (c ∷ s) = let r = split d s in if c == d then ([], r.0 ∷ r.1) else (c ∷ r.0, r.1)

unfoldable pub is_word_char : ℕ → Bool
is_word_char c =
    (leb b'A' c && leb c b'Z')
    || ((leb b'a' c && leb c b'z') || ((leb b'0' c && leb c b'9') || c == b'_'))

-- re.sub("[^A-Za-z0-9_]+", "", s)
unfoldable pub strip_name : Text → Text
unfolding is_word_char
strip_name [] = []
strip_name (c ∷ s) = let r = strip_name s in if is_word_char c then c ∷ r else r

-- The decimal digits of a number below 10 ^ fuel, the lowest last.
decimal_digits : ℕ → ℕ → Text → Text
decimal_digits zero n acc = acc
decimal_digits (suc fuel) n acc =
    let acc' : Text = (b'0' + n % 10) ∷ acc in
    let more = decimal_digits fuel (n / 10) acc' in if n / 10 == 0 then acc' else more

-- str(n) for a number below 10 ^ 20.
unfoldable pub decimal : ℕ → Text
unfolding decimal_digits
decimal n = decimal_digits 20 n []
