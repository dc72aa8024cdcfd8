-- ===== src/System/Framed.antt =====
-- What the queues of tcp_sender.py hold and its rounds write, as frames.
use ros_tcp_endpoint.Prelude.{
  ℕ, ◌≡◌, refl, sym, subst, true, false, List, [], ◌∷◌, ◌++◌, Bytes, Text, Option-cases, Bool-cases,
  inl, inr, ◌⊎◌, take, append-nil, ◌==◌,
}
use ros_tcp_endpoint.Prelude.Dict.{Text_eq, ℕ_eq, get}
use ros_tcp_endpoint.Prelude.Result.{ok}
use ros_tcp_endpoint.Prelude.Keeps.{Keeps}
use ros_tcp_endpoint.Platform.{Platform}
use ros_tcp_endpoint.Sender.{Sender, update, put_queue, get_or_register_topic_id, new_sender}
use ros_tcp_endpoint.Sender.Send.{respond, store_slot, allocate_request, sleep_request}
use ros_tcp_endpoint.Sender.Loop.{
  Link, join, start_sender, enter_loop, sender_round, leave_loop, handshake_bytes, send_batch,
  batch, Sendall, complete, broken, drain, serialize_pending,
}
use ros_tcp_endpoint.Sender.Reconnect.{enter_loop-entered}
use ros_tcp_endpoint.Sender.Streams.{join-append, send_batch-sent, send_batch-goes_on}
use ros_tcp_endpoint.Sender.Framing.{IsFramed, IsFramed-append, framed_items, pending-IsFramed}
use ros_tcp_endpoint.Server.{TcpServer, new_server}
use ros_tcp_endpoint.System.{Reach}
use ros_tcp_endpoint.System.Steps.{KeepsSteps, Reach-keeps}
use ros_tcp_endpoint.System.OfSender.{OfSender, KeepsSteps-sender}

-- Every queue's items, in their order, are frames.
pub record HasFrames {P : Platform} (s : Sender P) : Type 0 where
  pub queued : (q : ℕ) → IsFramed (join (s.queues q))

update-IsFramed :
    (queues : ℕ → List Bytes) (at q : ℕ) (items : List Bytes)
    → ((q : ℕ) → IsFramed (join (queues q)))
    → IsFramed (join items)
    → IsFramed (join (update queues at items q))
update-IsFramed queues at q items h new = elim (Bool-cases (at == q)) [
  | inl same ↦ rw same new
  | inr other ↦ rw other (h q)
]

single-IsFramed : (item : Bytes) → IsFramed item → IsFramed (join (item ∷ []))
unfolding join
single-IsFramed item h = subst IsFramed (sym (append-nil item)) h

send_batch-broken :
    (count : ℕ) (xs : List Bytes) (link : Link)
    → (((send_batch (broken count) xs link).0.sent ≡ link.sent ++ join xs)
        × ((send_batch (broken count) xs link).1 ≡ true))
      ⊎ (((send_batch (broken count) xs link).0.sent ≡ link.sent ++ take count (join xs))
          × ((send_batch (broken count) xs link).1 ≡ false))
unfolding send_batch join
send_batch-broken count [] link = inl (sym (append-nil link.sent), refl)
send_batch-broken count (x ∷ xs) link = inr (refl, refl)

module _ {P : Platform} where
  put-HasFrames : (item : Bytes) → IsFramed item → Keeps {S = Sender P} HasFrames (put_queue item)
  unfolding put_queue
  put-HasFrames item good = record {
    at = λ s h. elim (Option-cases s.queue) [
      | inl e ↦ rw (e, put_queue) h
      | inr (q, e) ↦
          rw (e, put_queue)
            (record {
              queued = λ r. update-IsFramed s.queues q r (s.queues q ++ item ∷ []) h.queued (
                  subst IsFramed (sym (join-append (s.queues q) (item ∷ [])))
                    (IsFramed-append (h.queued q) (single-IsFramed item good)));
            })
    ];
  }

  respond-HasFrames : (n : ℕ) (body : Bytes) → Keeps {S = Sender P} HasFrames (respond n body)
  unfolding respond
  respond-HasFrames n body = record {
    at = λ s h. elim (Option-cases (get s.services_waiting n)) [
      | inl e ↦ rw (e, respond) h
      | inr (p, e) ↦ rw (e, respond) (record { queued = h.queued })
    ];
  }

  register-HasFrames : (t : Text) → Keeps {S = Sender P} HasFrames (get_or_register_topic_id t)
  unfolding get_or_register_topic_id
  register-HasFrames t = record {
    at = λ s h. elim (Option-cases (get s.topic_to_id t)) [
      | inl e ↦ rw (e, get_or_register_topic_id) (record { queued = h.queued })
      | inr (n, e) ↦ rw (e, get_or_register_topic_id) h
    ];
  }

  enter-HasFrames : (s m : Sender P) (tid : ℕ) → enter_loop tid s ≡ ok m → HasFrames s → HasFrames m
  unfolding handshake_bytes
  enter-HasFrames s m tid e h =
      let (hello, greets, same) = enter_loop-entered tid s m e in
      subst HasFrames (sym same) (record {
        queued = λ q.
            update-IsFramed s.queues tid q (hello ∷ []) h.queued
              (single-IsFramed hello ((framed_items P).command _ _ hello greets));
      })

  KeepsSteps-HasFrames : KeepsSteps {P = P} (OfSender HasFrames)
  unfolding start_sender sender_round drain leave_loop allocate_request sleep_request store_slot
      join
  KeepsSteps-HasFrames =
      KeepsSteps-sender HasFrames IsFramed (framed_items P) put-HasFrames respond-HasFrames
        (λ n m. record { at = λ s h. record { queued = h.queued } }) register-HasFrames
        (record { at = λ s h. record { queued = h.queued } })
        (λ p. record { at = λ s h. record { queued = h.queued } })
        (λ s h. record { queued = h.queued }) enter-HasFrames
        (λ s sends link h. record {
          queued = λ q. update-IsFramed s.queues link.tid q [] h.queued IsFramed.empty;
        })
        (λ s link h. record { queued = h.queued })

  batch-IsFramed : (tid : ℕ) (s : Sender P) → HasFrames s → IsFramed (join (batch tid s))
  unfolding batch
  batch-IsFramed tid s h =
      subst IsFramed (sym (join-append (s.queues tid) (serialize_pending P s.stream_slots)))
        (IsFramed-append (h.queued tid) (pending-IsFramed P s.stream_slots))

  -- All of a batch was written and the thread goes on, or a part of it and the thread ends.
  abbrev pub WroteBatch : Sendall → Link → Sender P → Type 0
  WroteBatch sends link s =
      (((sender_round sends link s).0.0.sent ≡ link.sent ++ join (batch link.tid s))
        × ((sender_round sends link s).0.1 ≡ true))
      ⊎ ((count : ℕ) × (sends ≡ broken count)
          × ((sender_round sends link s).0.0.sent
              ≡ link.sent ++ take count (join (batch link.tid s)))
          × ((sender_round sends link s).0.1 ≡ false))

  round_writes : (sends : Sendall) (link : Link) (s : Sender P) → WroteBatch sends link s
  unfolding sender_round
  round_writes complete link s =
      inl (send_batch-sent link s (batch link.tid s), send_batch-goes_on link s (batch link.tid s))
  round_writes (broken count) link s = elim (send_batch-broken count (batch link.tid s) link) [
    | inl whole ↦ inl whole
    | inr (part, ends) ↦ inr (count, refl, part, ends)
  ]

-- Whatever the threads of the endpoint do to a new server, exceptions included, with one message of
-- a client handled at a time: what a round of a sender thread collects, on any connection, is whole
-- frames, one behind the other, with nothing between or behind them; and the round either writes
-- all of it and goes on, or its `sendall` raises after some bytes, these are a first part of it,
-- and the thread ends. A frame has the length of its name and the encoded name, or the marker and a
-- topic's number, and then the length of its body and the body, and all lengths and numbers fit.
pub sender_round-IsFramed :
    {P : Platform} (size threshold : ℕ) (graph : List (Text × List Text)) {t : TcpServer P}
    → Reach (new_server P size threshold graph) t
    → (sends : Sendall) (link : Link)
    → IsFramed (join (batch link.tid t.sender)) × WroteBatch sends link t.sender
unfolding new_server new_sender join
sender_round-IsFramed size threshold graph {t} r sends link = (
  batch-IsFramed link.tid t.sender (
      Reach-keeps (OfSender HasFrames) KeepsSteps-HasFrames r
        (record { queued = λ q. IsFramed.empty })),
  round_writes sends link t.sender,
)
