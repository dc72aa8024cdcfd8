-- ===== src/Client/Dispatch/Parts.antt =====
-- An invariant that every command keeps is kept by every message and by every call of a service.
use ros_tcp_endpoint.Prelude.{[], ◌∷◌, Bytes, Text, codes, none, Option-cases, inl, inr}
use ros_tcp_endpoint.Prelude.Dict.{Text_eq, get}
use ros_tcp_endpoint.Prelude.Keeps.{Keeps, Keeps-pure, Keeps-bind, Keeps-if}
use ros_tcp_endpoint.Platform.{Platform}
use ros_tcp_endpoint.Json.{Json}
use ros_tcp_endpoint.Text.{starts_with}
use ros_tcp_endpoint.Server.{TcpServer}
use ros_tcp_endpoint.Server.Parts.{KeepsParts, Keeps-handle_syscommand}
use ros_tcp_endpoint.Client.Dispatch.{
  start_service_call, send_ros_service_request, handle_pending, publish_message, handle_plain,
  handle_message,
}

module _ {P : Platform} (Inv : TcpServer P → Type 0) (parts : KeepsParts Inv) where
  Keeps-send_ros_service_request :
      (id : Json) (destination : Text) (payload : Bytes)
      → Keeps Inv (send_ros_service_request id destination payload)
  unfolding send_ros_service_request start_service_call
  Keeps-send_ros_service_request id destination payload = record {
    at = λ s h. elim (Option-cases (get s.ros_services_table destination)) [
      | inl e ↦ rw (e, send_ros_service_request) ((parts.errors _).at s h)
      | inr (r, e) ↦ rw (e, send_ros_service_request) (parts.calls s _ h)
    ];
  }

  Keeps-handle_pending :
      (id : Json) (destination : Text) (payload : Bytes)
      → Keeps Inv (handle_pending id destination payload)
  unfolding handle_pending
  Keeps-handle_pending id destination payload = record {
    at = λ s h.
        (Keeps-if s.pending_srv_is_request _ _
            (Keeps-send_ros_service_request id destination payload) (parts.answers id payload)).at
          s h;
  }

  Keeps-publish_message :
      (destination : Text) (payload : Bytes) → Keeps Inv (publish_message destination payload)
  unfolding publish_message
  Keeps-publish_message destination payload = record {
    at = λ s h. elim (Option-cases (get s.publishers_table destination)) [
      | inl e ↦ rw (e, publish_message) ((parts.errors _).at s h)
      | inr (r, e) ↦ rw (e, publish_message) ((parts.publishes r payload).at s h)
    ];
  }

  Keeps-handle_plain :
      (destination : Text) (payload : Bytes) → Keeps Inv (handle_plain destination payload)
  unfolding handle_plain
  Keeps-handle_plain [] payload = Keeps-pure tt
  Keeps-handle_plain (c ∷ cs) payload =
      Keeps-if (starts_with (c ∷ cs) (codes "__")) _ _
        (Keeps-handle_syscommand Inv parts (c ∷ cs) payload)
        (Keeps-publish_message (c ∷ cs) payload)

  -- Every message of every client, whether it is handled or raises, keeps the invariant.
  pub Keeps-handle_message :
      (destination : Text) (payload : Bytes) → Keeps Inv (handle_message destination payload)
  unfolding handle_message
  Keeps-handle_message destination payload = record {
    at = λ s h. elim (Option-cases s.pending_srv_id) [
      | inl e ↦ rw (e, handle_message) ((Keeps-handle_plain destination payload).at s h)
      | inr (id, e) ↦
          rw (e, handle_message)
            ((Keeps-bind (handle_pending id destination payload) _
                (Keeps-handle_pending id destination payload)
                λ _. record { at = λ t k. parts.pending t none t.pending_srv_is_request k }).at
              s h)
    ];
  }
