-- ===== src/Server/Services.antt =====
-- server.py: `SysCommands.ros_service` and `SysCommands.unity_service`, by what replacing an object
-- does to any of the four tables.
use ros_tcp_endpoint.Prelude.{
  ℕ, ◌+◌, ◌≡◌, ◌≢◌, refl, sym, ◌∙◌, ap, List, [], ◌∷◌, ◌++◌, Text, codes, Option, none, some, true,
  false, if◌then◌else◌, arith, text_eq, append-nil, append_assoc, subst,
}
use ros_tcp_endpoint.Prelude.Dict.{Dict, Text_eq, get, put, get-put}
use ros_tcp_endpoint.Prelude.Result.{Result, ok}
use ros_tcp_endpoint.Prelude.Exec.{Exec, ◌>>◌, ◌>>=◌, modify}
use ros_tcp_endpoint.Platform.{Platform}
use ros_tcp_endpoint.Text.{strip_name}
use ros_tcp_endpoint.Ros.Graph.{Kind, subscription, publisher, client, service}
use ros_tcp_endpoint.Ros.Nodes.{
  Node, RosCall, RosService, UnityService, create_client, create_service, new_ros_service,
  new_unity_service,
}
use ros_tcp_endpoint.Server.{TcpServer, on_node}
use ros_tcp_endpoint.Server.Resolve.{resolve_message_name}
use ros_tcp_endpoint.Server.SysCommands.{
  ros_service, register_ros_service, unregister_old_ros_service, unity_service,
  register_unity_service, unregister_old_unity_service,
}
use ros_tcp_endpoint.Server.Owned.{
  Object, handle, table, with_table, table-with_table_self, table-with_table_other,
}
use ros_tcp_endpoint.Server.Owned.Tables.{called}
use ros_tcp_endpoint.Server.Owned.Replace.{Unregisters, absent, dead, live, destroy}
use ros_tcp_endpoint.Server.Owned.Commands.{
  unregister_ros_service-Unregisters, unregister_unity_service-Unregisters,
}

-- The calls that drop an object's entity, none if there is nothing to drop.
abbrev pub drop : {P : Platform} (k : Kind) → Option (Object P k) → List (RosCall P)
drop k none = []
drop {P} k (some old) = elim (handle P k old) [ none ↦ [] | some h ↦ destroy k h ∷ [] ]

module _ {P : Platform} (n m : Node P) (s : TcpServer P) where
  node-with_table : (k : Kind) (d : Dict Text (Object P k)) → (with_table k d n s).node ≡ n
  node-with_table subscription d = refl
  node-with_table publisher d = refl
  node-with_table client d = refl
  node-with_table service d = refl

  with_table-with_table :
      (k : Kind) (d e : Dict Text (Object P k))
      → with_table k e m (with_table k d n s) ≡ with_table k e m s
  with_table-with_table subscription d e = refl
  with_table-with_table publisher d e = refl
  with_table-with_table client d e = refl
  with_table-with_table service d e = refl

module _ {P : Platform} (k : Kind) (topic : Text) (new : Object P k) (create : RosCall P)
    (s : TcpServer P) where
  -- The topic's object was replaced: the old one's entity is destroyed, then one call makes the new
  -- one's; the table has it for this topic, and nothing else in the tables changes.
  pub record IsReplaced (r : Result (Unit {0}) × TcpServer P) : Type 0 where
    pub returns : r.0 ≡ ok tt
    pub calls : r.1.node.calls ≡ s.node.calls ++ (drop k (get (table k s) topic) ++ create ∷ [])
    pub replaced :
        (t : Text) → get (table k r.1) t ≡ (if text_eq topic t then some new else get (table k s) t)
    pub others : (j : Kind) → k ≢ j → table j r.1 ≡ table j s

  -- The state with the new object, from the table and the calls after the old one was dropped.
  abbrev made : List (RosCall P) → Dict Text (Object P k) → TcpServer P
  made calls d =
      with_table k (put d topic new)
        (record { calls = calls ++ create ∷ []; next_handle = s.node.next_handle + 1 }) s

  made-IsReplaced :
      (calls : List (RosCall P)) (d : Dict Text (Object P k))
      → calls ≡ s.node.calls ++ drop k (get (table k s) topic)
      → ((t : Text) → text_eq topic t ≡ false → get d t ≡ get (table k s) t)
      → IsReplaced (ok tt, made calls d)
  made-IsReplaced calls d e same =
      let n : Node P = record {
        calls = calls ++ create ∷ [];
        next_handle = s.node.next_handle + 1;
      } in
      record {
        returns = refl;
        calls =
            rw (node-with_table n n s k (put d topic new))
              (ap (λ cs. cs ++ create ∷ []) e ∙ append_assoc s.node.calls _ _);
        replaced = λ t.
            rw (table-with_table_self n s k (put d topic new))
              (ground (arith, get-put d topic t new, same t));
        others = λ j ne. table-with_table_other n s k j (put d topic new) ne;
      }

module _ {P : Platform} (k : Kind) (topic : Text) (new : Object P k) (create : RosCall P)
    (s : TcpServer P) (n : Exec (TcpServer P) (Unit {0}))
    (makes : (t : TcpServer P)
      → t.node.next_handle ≡ s.node.next_handle
      → n t ≡ (
        ok tt,
        with_table k (put (table k t) topic new) (called create (s.node.next_handle + 1) t.node) t,
      )) where
  -- The object is made where the old one was taken out.
  makes_after :
      (calls : List (RosCall P)) (d : Dict Text (Object P k))
      → n (with_table k d (record { calls = calls; next_handle = s.node.next_handle }) s)
        ≡ (ok tt, made k topic new create s calls d)
  makes_after calls d =
      let old : Node P = record { calls = calls; next_handle = s.node.next_handle } in
      let after = with_table k d old s in
      makes after (ap (λ m. m.next_handle) (node-with_table old old s k d))
      ∙ ap
          (λ (r : Dict Text (Object P k) × Node P). (
            ok tt,
            with_table k (put r.0 topic new) (called create (s.node.next_handle + 1) r.1) after,
          ))
          (λ i. (table-with_table_self old s k d i, node-with_table old old s k d i))
      ∙ ap (λ t. (ok tt, t))
          (with_table-with_table old (called create (s.node.next_handle + 1) old) s k d
            (put d topic new))

  both :
      (m : Exec (TcpServer P) (Unit {0})) (t u : TcpServer P)
      → m s ≡ (ok tt, t)
      → n t ≡ (ok tt, u)
      → IsReplaced k topic new create s (ok tt, u)
      → IsReplaced k topic new create s ((m >> n) s)
  both m t u first second h = subst (IsReplaced k topic new create s) (sym (rw first second)) h

  replace-IsReplaced :
      (m : Exec (TcpServer P) (Unit {0}))
      → Unregisters k topic s (m s)
      → IsReplaced k topic new create s ((m >> n) s)
  replace-IsReplaced m (absent e q) =
      both m s (made k topic new create s s.node.calls (table k s)) q (makes s refl) (
        made-IsReplaced k topic new create s s.node.calls (table k s)
          (rw e (sym (append-nil s.node.calls))) λ t other. refl)
  replace-IsReplaced m (dead old e gone q) =
      let d = put (table k s) topic old in
      both m (with_table k d s.node s) (made k topic new create s s.node.calls d) q
        (makes_after s.node.calls d)
        (made-IsReplaced k topic new create s s.node.calls d
          (rw e (rw (gone, drop) (sym (append-nil s.node.calls))))
          λ t other. ground (arith, get-put (table k s) topic t old))
  replace-IsReplaced m (live old new' h e there gone drops q) =
      let d = put (table k s) topic new' in
      let calls = s.node.calls ++ destroy k h ∷ [] in
      both m (with_table k d (called (destroy k h) s.node.next_handle s.node) s)
        (made k topic new create s calls d) q (makes_after calls d)
        (made-IsReplaced k topic new create s calls d (rw e (rw (there, drop) refl))
          λ t other. ground (arith, get-put (table k s) topic t new'))

-- The objects of the two kinds of services.
abbrev pub made_ros_service : {P : Platform} → Text → P.Class → ℕ → RosService P
made_ros_service topic c h = record {
  node_name = strip_name topic ++ codes "_RosService";
  srv_class = c;
  client = some h;
}

abbrev pub made_unity_service : {P : Platform} → Text → P.Class → ℕ → UnityService P
made_unity_service topic c h = record {
  node_name = strip_name topic ++ codes "_service";
  topic = topic;
  service_class = c;
  queue_size = 10;
  service = some h;
}

module _ {P : Platform} (s : TcpServer P) (topic : Text) (c : P.Class)
    (valid : P.valid_name topic ≡ true) where
  makes_ros_service :
      (t : TcpServer P)
      → t.node.next_handle ≡ s.node.next_handle
      → ◌>>=◌
          (on_node (new_ros_service topic c))
          (λ r. modify (λ u. record u { ros_services_table = put u.ros_services_table topic r }))
          t
        ≡ (
          ok tt,
          with_table client
              (put t.ros_services_table topic (made_ros_service topic c s.node.next_handle))
              (called (create_client s.node.next_handle c topic) (s.node.next_handle + 1) t.node)
              t,
        )
  unfolding new_ros_service
  makes_ros_service t same = rw (valid, same) refl

  makes_unity_service :
      (t : TcpServer P)
      → t.node.next_handle ≡ s.node.next_handle
      → ◌>>=◌
          (on_node (new_unity_service topic c))
          (λ r.
            modify (λ u. record u { unity_services_table = put u.unity_services_table topic r }))
          t
        ≡ (
          ok tt,
          with_table service
              (put t.unity_services_table topic (made_unity_service topic c s.node.next_handle))
              (called (create_service s.node.next_handle c topic) (s.node.next_handle + 1) t.node)
              t,
        )
  unfolding new_unity_service
  makes_unity_service t same = rw (valid, same) refl

  -- A `ros_service` or `unity_service` command for a valid name that is not empty and a service
  -- class that is found: the name's old client or service, if any, is destroyed, then one is
  -- created with the class; the command's table has the new object for this name and keeps every
  -- other entry, and the other three tables do not change.
  pub services_register :
      (message_name : Text)
      → topic ≢ []
      → resolve_message_name P message_name (codes "srv") ≡ ok (some c)
      → IsReplaced client topic
          (made_ros_service topic c s.node.next_handle)
          (create_client s.node.next_handle c topic)
          s
          (ros_service topic message_name s)
        × IsReplaced service topic
            (made_unity_service topic c s.node.next_handle)
            (create_service s.node.next_handle c topic)
            s
            (unity_service topic message_name s)
  unfolding ros_service unity_service register_ros_service register_unity_service
  services_register message_name ne found =
      let h = s.node.next_handle in
      (
        subst (IsReplaced client topic (made_ros_service topic c h) (create_client h c topic) s)
            (ground arith)
            (replace-IsReplaced client topic (made_ros_service topic c h) (create_client h c topic)
              s _ makes_ros_service (unregister_old_ros_service topic)
              (unregister_ros_service-Unregisters topic s)),
        subst (IsReplaced service topic (made_unity_service topic c h) (create_service h c topic) s)
            (ground arith)
            (replace-IsReplaced service topic (made_unity_service topic c h)
              (create_service h c topic) s _ makes_unity_service
              (unregister_old_unity_service topic) (unregister_unity_service-Unregisters topic s)),
      )
