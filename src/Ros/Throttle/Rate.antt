-- ===== src/Ros/Throttle/Rate.antt =====
-- How often a throttled topic is forwarded.
use ros_tcp_endpoint.Prelude.{ℕ, ◌+◌, ◌≤◌, List, [], ◌∷◌, arith}

-- Times that do not go back, from `start` on, and not past `stop`.
abbrev pub IsClock : ℕ → ℕ → List ℕ → Type 0
IsClock start stop [] = start ≤ stop
IsClock start stop (t ∷ ts) = (start ≤ t) × IsClock t stop ts

-- Each time is at least `gap` after the one before, the first after `last`.
abbrev pub IsSpaced : ℕ → ℕ → List ℕ → Type 0
IsSpaced gap last [] = Unit
IsSpaced gap last (t ∷ ts) = (last + gap ≤ t) × IsSpaced gap t ts

IsClock-le : (start stop : ℕ) (ts : List ℕ) → IsClock start stop ts → start ≤ stop
IsClock-le start stop [] c = c
IsClock-le start stop (t ∷ ts) c = omega (arith, c.0, IsClock-le t stop ts c.1)
