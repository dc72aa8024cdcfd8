-- ===== src/Server/Owned/Replace.antt =====
-- How a table's object is replaced: the old object's entity is destroyed before the new one is made.
use ros_tcp_endpoint.Prelude.{ℕ, ◌+◌, ◌≡◌, refl, Text, none, some, arith, subst, sym}
use ros_tcp_endpoint.Prelude.Dict.{Text_eq, get, put, get-put_self}
use ros_tcp_endpoint.Prelude.Result.{Exc, Result, ok, err}
use ros_tcp_endpoint.Prelude.Exec.{Exec, ◌>>◌}
use ros_tcp_endpoint.Prelude.Keeps.{Keeps}
use ros_tcp_endpoint.Platform.{Platform}
use ros_tcp_endpoint.Sender.{update}
use ros_tcp_endpoint.Ros.Nodes.{
  RosCall, destroy_subscription, destroy_publisher, destroy_client, destroy_service,
}
use ros_tcp_endpoint.Ros.Graph.{Kind, Graph, after_call, subscription, publisher, client, service}
use ros_tcp_endpoint.Server.{TcpServer}
use ros_tcp_endpoint.Server.Owned.{
  Object, handle, table, with_table, IsOwned, table-with_table_self,
}
use ros_tcp_endpoint.Server.Owned.Tables.{called, IsOwned-drop, IsOwned-put_dead, IsOwned-make}

-- The call that destroys an entity.
abbrev pub destroy : {P : Platform} → Kind → ℕ → RosCall P
destroy subscription h = destroy_subscription h
destroy publisher h = destroy_publisher h
destroy client h = destroy_client h
destroy service h = destroy_service h

module _ {P : Platform} (k : Kind) (topic : Text) (s : TcpServer P) where
  -- What unregistering the topic's old object does.
  pub data Unregisters (r : Result (Unit {0}) × TcpServer P) : Type 0 where
    absent : get (table k s) topic ≡ none → r ≡ (ok tt, s) → Unregisters r
    dead :
        (old : Object P k)
        → get (table k s) topic ≡ some old
        → handle P k old ≡ none
        → r ≡ (ok tt, with_table k (put (table k s) topic old) s.node s)
        → Unregisters r
    live :
        (old new : Object P k) (h : ℕ)
        → get (table k s) topic ≡ some old
        → handle P k old ≡ some h
        → handle P k new ≡ none
        → ((g : Graph) → after_call (destroy {P = P} k h) g ≡ update g h none)
        → r ≡ (
          ok tt,
          with_table k
              (put (table k s) topic new)
              (called (destroy k h) s.node.next_handle s.node)
              s,
        )
        → Unregisters r

  -- What registering a new object does after that.
  pub data Registers (r : Result (Unit {0}) × TcpServer P) : Type 0 where
    refused : (e : Exc) → r ≡ (err e, s) → Registers r
    made :
        (new : Object P k) (c : RosCall P)
        → handle P k new ≡ some s.node.next_handle
        → ((g : Graph) → after_call c g ≡ update g s.node.next_handle (some (k, topic)))
        → r ≡ (
          ok tt,
          with_table k (put (table k s) topic new) (called c (s.node.next_handle + 1) s.node) s,
        )
        → Registers r

  -- The topic has no entity of the kind.
  abbrev IsVacant : Type 0
  IsVacant = (r : Object P k) → get (table k s) topic ≡ some r → handle P k r ≡ none

module _ {P : Platform} (k : Kind) (topic : Text) where
  record IsVacated (r : Result (Unit {0}) × TcpServer P) : Type 0 where
    pub returns : r.0 ≡ ok tt
    pub owned : IsOwned r.1
    pub vacant : IsVacant k topic r.1

  IsVacant-put :
      (s : TcpServer P) (new : Object P k) (n : _)
      → handle P k new ≡ none
      → IsVacant k topic (with_table k (put (table k s) topic new) n s)
  IsVacant-put s new n gone =
      rw (table-with_table_self n s k (put (table k s) topic new))
        λ r e. ground (arith, get-put_self (table k s) topic new)

  Unregisters-IsVacated :
      (s : TcpServer P) (r : Result (Unit {0}) × TcpServer P)
      → IsOwned s
      → Unregisters k topic s r
      → IsVacated r
  Unregisters-IsVacated s r own (absent e q) =
      subst IsVacated (sym q) (record { returns = refl; owned = own; vacant = λ r d. cc })
  Unregisters-IsVacated s r own (dead old e gone q) = subst IsVacated (sym q) (record {
    returns = refl;
    owned = IsOwned-put_dead s own k topic old old e gone gone;
    vacant = IsVacant-put s old _ gone;
  })
  Unregisters-IsVacated s r own (live old new h e there gone drops q) =
      subst IsVacated (sym q) (record {
        returns = refl;
        owned = IsOwned-drop s own k topic new old h (destroy k h) e there gone drops;
        vacant = IsVacant-put s new _ gone;
      })

  Registers-IsOwned :
      (s : TcpServer P) (r : Result (Unit {0}) × TcpServer P)
      → IsOwned s
      → IsVacant k topic s
      → Registers k topic s r
      → IsOwned r.1
  Registers-IsOwned s r own vacant (refused e q) = subst (λ t. IsOwned t.1) (sym q) own
  Registers-IsOwned s r own vacant (made new c there makes q) =
      subst (λ t. IsOwned t.1) (sym q) (IsOwned-make s own k topic new c vacant there makes)

  pub Keeps-replace :
      (m n : Exec (TcpServer P) (Unit {0}))
      → ((s : TcpServer P) → Unregisters k topic s (m s))
      → ((s : TcpServer P) → Registers k topic s (n s))
      → Keeps IsOwned (m >> n)
  Keeps-replace m n unregisters registers = record {
    at = λ s own.
        let v = Unregisters-IsVacated s (m s) own (unregisters s) in
        rw v.returns (Registers-IsOwned (m s).1 (n (m s).1) v.owned v.vacant (registers (m s).1));
  }
