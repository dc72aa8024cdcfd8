-- ===== src/Sender/Correlation.antt =====
-- What the threads of the sender do to a pauser and the requests that wait on it, while they do
-- something else.
pub mod Calls
use ros_tcp_endpoint.Prelude.{
  ℕ, ◌<◌, ◌≡◌, ◌≢◌, [], refl, sym, ap, subst, Bool, Bytes, Text, none, some, arith, codes,
  Option-cases, inl, inr,
}
use ros_tcp_endpoint.Prelude.Dict.{ℕ_eq, Text_eq, get, get-put, get-remove}
use ros_tcp_endpoint.Prelude.Result.{ok}
use ros_tcp_endpoint.Prelude.Keeps.{Keeps, Keeps-bind, Keeps-pure}
use ros_tcp_endpoint.Platform.{Platform}
use ros_tcp_endpoint.Json.{int}
use ros_tcp_endpoint.Struct.Int.{pos}
use ros_tcp_endpoint.Pauser
use ros_tcp_endpoint.Pauser.{Pauser, asleep, resumed, sleep_until_resumed, resume_with_result}
use ros_tcp_endpoint.Sender.{Sender, put_queue, get_or_register_topic_id}
use ros_tcp_endpoint.Sender.Send.{
  send_unity_message, store_slot, allocate_request, begin_service_request, sleep_request, respond,
  finish_service_request, start_request, send_pair,
}
use ros_tcp_endpoint.Sender.Loop.{Sendall, Link, start_sender, enter_loop, sender_round, leave_loop}
use ros_tcp_endpoint.Sender.Parts.{
  Any, any_items, Keeps-begin, Keeps-send_pair, Keeps-send_unity_message,
}
use ros_tcp_endpoint.Sender.Reconnect.{enter_loop-entered}
use ros_tcp_endpoint.Sender.Service.{IsWaiting}

-- What happens meanwhile: requests and responses of others, with numbers that are not `own`, sleeps
-- of other threads than `p`, messages, and all that the sender threads do.
pub data Step {P : Platform} (own : ℕ → Type 0) (p : ℕ) (s : Sender P) : Sender P → Type 0 where
  requests : (topic : Text) (m : P.Message) → Step own p s (begin_service_request topic m s).1
  responds : (k : ℕ) (body : Bytes) → ¬ own k → Step own p s (respond k body s).1
  sleeps : (other : ℕ) → other ≢ p → Step own p s (sleep_request other s).1
  sends : (topic : Text) (m : P.Message) → Step own p s (send_unity_message topic m s).1
  connects : Step own p s (start_sender s).1
  enters : (tid : ℕ) (m : Sender P) → enter_loop tid s ≡ ok m → Step own p s m
  rounds : (sends : Sendall) (link : Link) → Step own p s (sender_round sends link s).1
  leaves : (link : Link) → Step own p s (leave_loop link s).1

pub data Meanwhile {P : Platform} (own : ℕ → Type 0) (p : ℕ) (s : Sender P)
    : Sender P → Type 0 where
  here : Meanwhile own p s s
  next : {t u : Sender P} → Meanwhile own p s t → Step own p t u → Meanwhile own p s u

-- Pauser `p` has the value `v`, and the requests that wait on it are those of the numbers `own`.
pub record IsWatched {P : Platform} (own : ℕ → Type 0) (p : ℕ) (v : Pauser) (s : Sender P)
    : Type 0 where
  pub old : p < s.next_pauser
  pub value : s.pausers p ≡ v
  pub only : (k : ℕ) → get s.services_waiting k ≡ some p → own k
  pub kept : (k : ℕ) → own k → (k < s.next_srv_id) × (get s.services_waiting k ≡ some p)

module _ {P : Platform} (own : ℕ → Type 0) (p : ℕ) (v : Pauser) where
  abbrev Watched : Sender P → Type 0
  Watched = IsWatched own p v

  -- What does not touch the pausers and the waiting requests.
  same_watch :
      (s t : Sender P)
      → t.next_pauser ≡ s.next_pauser
      → t.pausers ≡ s.pausers
      → t.services_waiting ≡ s.services_waiting
      → t.next_srv_id ≡ s.next_srv_id
      → Watched s
      → Watched t
  same_watch s t a b c d h = record {
    old = rw a h.old;
    value = rw b h.value;
    only = rw c h.only;
    kept = rw (c, d) h.kept;
  }

  pub Keeps-put_queue : (item : Bytes) → Keeps {S = Sender P} Watched (put_queue item)
  unfolding put_queue
  Keeps-put_queue item = record {
    at = λ s h. elim (Option-cases s.queue) [
      | inl e ↦ rw (e, put_queue) h
      | inr (q, e) ↦ rw (e, put_queue) (same_watch s _ refl refl refl refl h)
    ];
  }

  Keeps-store_slot : (n : ℕ) (m : P.Message) → Keeps {S = Sender P} Watched (store_slot n m)
  unfolding store_slot
  Keeps-store_slot n m = record { at = λ s h. same_watch s _ refl refl refl refl h }

  Keeps-register : (t : Text) → Keeps {S = Sender P} Watched (get_or_register_topic_id t)
  unfolding get_or_register_topic_id
  Keeps-register t = record {
    at = λ s h. elim (Option-cases (get s.topic_to_id t)) [
      | inl e ↦ rw (e, get_or_register_topic_id) (same_watch s _ refl refl refl refl h)
      | inr (n, e) ↦ rw (e, get_or_register_topic_id) h
    ];
  }

  Keeps-allocate : Keeps {S = Sender P} Watched allocate_request
  unfolding allocate_request
  Keeps-allocate = record {
    at = λ s h. record {
      old = omega (arith, h.old);
      value = ground (arith, h.old, h.value);
      only = λ k e.
          h.only k
            (ground (arith, get-put s.services_waiting s.next_srv_id k s.next_pauser, h.old));
      kept = λ k o. (
        omega (arith, (h.kept k o).0),
        ground (
          arith,
          get-put s.services_waiting s.next_srv_id k s.next_pauser,
          (h.kept k o).0,
          (h.kept k o).1,
        ),
      );
    };
  }

  respond-Watched :
      (n : ℕ) (body : Bytes) (s : Sender P) → ¬ own n → Watched s → Watched (respond n body s).1
  unfolding respond resume_with_result
  respond-Watched n body s other h = elim (Option-cases (get s.services_waiting n)) [
    | inl e ↦ rw (e, respond) h
    | inr (r, e) ↦
        let apart : r ≢ p = λ same. other (h.only n (cc (e, same))) in
        rw (e, respond)
          (record {
            old = h.old;
            value = ground (arith, h.value, apart);
            only = λ k g. h.only k (ground (arith, get-remove s.services_waiting n k));
            kept = λ k o. (
              (h.kept k o).0,
              ground (arith, get-remove s.services_waiting n k, (h.kept k o).1, apart, e),
            );
          })
  ]

  sleep-Watched :
      (other : ℕ) (s : Sender P) → other ≢ p → Watched s → Watched (sleep_request other s).1
  unfolding sleep_request
  sleep-Watched other s apart h = record {
    old = h.old;
    value = ground (arith, h.value, apart);
    only = h.only;
    kept = h.kept;
  }

  Step-Watched : {s t : Sender P} → Step own p s t → Watched s → Watched t
  unfolding start_sender sender_round leave_loop
  Step-Watched {s} (requests topic m) h =
      (Keeps-begin Watched Any (any_items P) (λ b _. Keeps-put_queue b) Keeps-allocate topic m).at s
        h
  Step-Watched {s} (responds k body other) h = respond-Watched k body s other h
  Step-Watched {s} (sleeps other apart) h = sleep-Watched other s apart h
  Step-Watched {s} (sends topic m) h =
      (Keeps-send_unity_message Watched Any (any_items P) (λ b _. Keeps-put_queue b)
          Keeps-store_slot Keeps-register topic m).at
        s h
  Step-Watched {s} connects h = same_watch s _ refl refl refl refl h
  Step-Watched {s} {t} (enters tid m e) h =
      let (hello, _, same) = enter_loop-entered tid s t e in
      subst Watched (sym same) (same_watch s _ refl refl refl refl h)
  Step-Watched {s} (rounds works link) h = same_watch s _ refl refl refl refl h
  Step-Watched {s} (leaves link) h = same_watch s _ refl refl refl refl h

  pub Meanwhile-Watched : {s t : Sender P} → Meanwhile own p s t → Watched s → Watched t
  Meanwhile-Watched here h = h
  Meanwhile-Watched (next r st) h = Step-Watched st (Meanwhile-Watched r h)
