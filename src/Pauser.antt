-- ===== src/Pauser.antt =====
-- thread_pauser.py: one thread sleeps on a condition until another hands it a result.
use ros_tcp_endpoint.Prelude.{Bytes, Option, none, some}

-- The sleeping thread, seen from the condition: before `wait`, inside it, and after a `notify`.
pub data Sleeper : Type 0 where
  awake asleep resumed : Sleeper

pub record Pauser : Type 0 where
  pub result : Option Bytes
  pub sleeper : Sleeper

-- ThreadPauser()
abbrev pub new : Pauser
new = record { result = none; sleeper = Sleeper.awake }

-- `sleep_until_resumed` up to the point where it waits.
unfoldable pub sleep_until_resumed : Pauser → Pauser
sleep_until_resumed p = record p { sleeper = Sleeper.asleep }

-- `notify` wakes a thread that waits, and is forgotten if none does.
notify : Sleeper → Sleeper
notify Sleeper.asleep = Sleeper.resumed
notify s = s

unfoldable pub resume_with_result : Bytes → Pauser → Pauser
unfolding notify
resume_with_result result p = record p { result = some result; sleeper = notify p.sleeper }
