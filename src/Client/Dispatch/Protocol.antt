-- ===== src/Client/Dispatch/Protocol.antt =====
-- `__request` and `__response`: what such a command and the message after it do together.
use ros_tcp_endpoint.Prelude.{
  ℕ, suc, ◌≡◌, refl, ap, ◌∙◌, Bool, true, false, [], ◌∷◌, ◌++◌, Bytes, Text, codes, none, some,
}
use ros_tcp_endpoint.Prelude.Dict.{Text_eq, ℕ_eq, get, remove}
use ros_tcp_endpoint.Prelude.Result.{ok, key_error}
use ros_tcp_endpoint.Platform.{Platform}
use ros_tcp_endpoint.Json.{Json, int, obj, field, end, get_field}
use ros_tcp_endpoint.Struct.Int.{ℤ, pos}
use ros_tcp_endpoint.Text.{rstrip_nul, starts_with}
use ros_tcp_endpoint.Utf8.{decode}
use ros_tcp_endpoint.Socket.{Conn}
use ros_tcp_endpoint.Pauser.{asleep, resumed}
use ros_tcp_endpoint.Ros.Nodes.{RosService}
use ros_tcp_endpoint.Client.Recv.{read_message}
use ros_tcp_endpoint.Client.Dispatch.{handle_message, run_loop, raised}
use ros_tcp_endpoint.Client.Dispatch.Deliver.{request_starts_call, response_resumes}
use ros_tcp_endpoint.Client.Dispatch.Wedge.{wedged_client}
use ros_tcp_endpoint.Server.{TcpServer}
use ros_tcp_endpoint.Server.SysCommands.{request, response}
use ros_tcp_endpoint.Server.Syscall.{handle_syscommand, get_command, call_with}
use ros_tcp_endpoint.Sender.{update}

-- The parameters of both commands.
abbrev pub srv_id_params : ℤ → Json
srv_id_params n = obj (field (codes "srv_id") (int n) end)

module _ {P : Platform} (s : TcpServer P) (message : Text) (payload : Bytes) (n : ℤ)
    (idle : s.pending_srv_id ≡ none) (text : decode payload ≡ ok message)
    (params : P.loads (rstrip_nul message) ≡ ok (srv_id_params n)) where
  pub announce_request :
      handle_message (codes "__request") payload s
      ≡ (ok tt, record s { pending_srv_id = some (int n); pending_srv_is_request = true })
  unfolding handle_message handle_syscommand starts_with get_command call_with get_field request
  announce_request = rw (idle, text, params) refl

  announce_response :
      handle_message (codes "__response") payload s
      ≡ (ok tt, record s { pending_srv_id = some (int n); pending_srv_is_request = false })
  unfolding handle_message handle_syscommand starts_with get_command call_with get_field response
  announce_response = rw (idle, text, params) refl

  -- A client's `__request` command, with nothing pending, and then a message to a registered ROS
  -- service: one call of that service is started, with the message's payload and the `srv_id` of
  -- the command, nothing is pending any more, and nothing else changes but the mark that the last
  -- command was a request.
  pub request_protocol :
      (destination : Text) (body : Bytes) (r : RosService P)
      → get s.ros_services_table destination ≡ some r
      → handle_message destination body (handle_message (codes "__request") payload s).1 ≡ (
        ok tt,
        record s {
          pending_srv_id = none;
          pending_srv_is_request = true;
          service_calls =
              s.service_calls
              ++ record {
                srv_id = int n;
                destination = destination;
                payload = body;
                ros_communicator = r;
              }
                ∷ [];
        },
      )
  request_protocol destination body r found = rw announce_request (
      request_starts_call
        (record s { pending_srv_id = some (int n); pending_srv_is_request = true }) destination body
        (int n) r refl refl found)

module _ {P : Platform} (s : TcpServer P) (message : Text) (payload : Bytes) (n : ℕ)
    (idle : s.pending_srv_id ≡ none) (text : decode payload ≡ ok message)
    (params : P.loads (rstrip_nul message) ≡ ok (srv_id_params (pos n))) where
  -- A client's `__response` command, with nothing pending and a `srv_id` that a waiting request has
  -- whose thread sleeps, and then a message to any destination: the thread is resumed with the
  -- message's payload as its result, the entry is removed, nothing is pending any more, and nothing
  -- else changes but the mark that the last command was a response.
  pub response_protocol :
      (destination : Text) (body : Bytes) (p : ℕ)
      → get s.sender.services_waiting n ≡ some p
      → (s.sender.pausers p).sleeper ≡ asleep
      → handle_message destination body (handle_message (codes "__response") payload s).1 ≡ (
        ok tt,
        record s {
          pending_srv_id = none;
          pending_srv_is_request = false;
          sender = record s.sender {
            services_waiting = remove s.sender.services_waiting n;
            pausers = update s.sender.pausers p (record { result = some body; sleeper = resumed });
          };
        },
      )
  response_protocol destination body p found a =
      let s₁ : TcpServer P = record s {
        pending_srv_id = some (int (pos n));
        pending_srv_is_request = false;
      } in
      let (whole, woken) = response_resumes s₁ destination body n p refl refl found a in
      rw (announce_response s message payload (pos n) idle text params) (
        whole
        ∙ ap
            (λ t. (
              ok tt,
              record s {
                pending_srv_id = none;
                pending_srv_is_request = false;
                sender = record s.sender {
                  services_waiting = remove s.sender.services_waiting n;
                  pausers = update s.sender.pausers p t;
                };
              },
            ))
            woken)

  -- A `__response` command, with nothing pending, whose `srv_id` no request waits for is accepted;
  -- from then on the first message that a client thread reads, whatever it is, raises `KeyError`
  -- and ends the thread, and leaves the server as the command left it, so that the same awaits the
  -- next client.
  pub unknown_response :
      (fuel : ℕ) (halts : ℕ → Bool) (conn conn' : Conn) (destination : Text) (body : Bytes)
      → get s.sender.services_waiting n ≡ none
      → halts 0 ≡ false
      → read_message conn ≡ ok ((destination, body), conn')
      → ((handle_message (codes "__response") payload s).0 ≡ ok tt)
        × (run_loop (suc fuel) halts conn (handle_message (codes "__response") payload s).1
            ≡ (raised key_error, (handle_message (codes "__response") payload s).1))
  unknown_response fuel halts conn conn' destination body none_waits h r =
      let s₁ : TcpServer P = record s {
        pending_srv_id = some (int (pos n));
        pending_srv_is_request = false;
      } in
      rw (announce_response s message payload (pos n) idle text params) (
        refl,
        wedged_client s₁ n fuel halts conn conn' destination body
            (record { pending = refl; response = refl; unknown = none_waits }) h r,
      )
