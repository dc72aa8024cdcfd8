-- ===== src/Server/Owned/Tables.antt =====
-- A change of one table, with the call of rclpy that goes with it, keeps tables and graph together.
use ros_tcp_endpoint.Prelude.{
  ℕ, ◌+◌, ◌≤◌, ◌≡◌, ◌≢◌, [], ◌∷◌, ◌++◌, Text, none, some, arith, subst, sym, ap, refl, ◌∙◌,
}
use ros_tcp_endpoint.Prelude.Dict.{Text_eq, get, put}
use ros_tcp_endpoint.Platform.{Platform}
use ros_tcp_endpoint.Sender.{update}
use ros_tcp_endpoint.Ros.Nodes.{Node, RosCall}
use ros_tcp_endpoint.Ros.Graph.{Kind, Graph, replay-snoc, after_call, no_entities}
use ros_tcp_endpoint.Ros.Graph.Owns.{
  Owns, Owns-drop, Owns-put_dead, Owns-make, Owns-drop_other, Owns-make_other, Owns-touch,
}
use ros_tcp_endpoint.Server.{TcpServer}
use ros_tcp_endpoint.Server.Owned.{
  Object, handle, table, with_table, entities, IsOwnedBy, IsOwned, Kind-discrete,
  table-with_table_self, table-with_table_other, node-with_table,
}

-- The node with one call more.
abbrev pub called : {P : Platform} → RosCall P → ℕ → Node P → Node P
called c next n = record { calls = n.calls ++ c ∷ []; next_handle = next }

module _ {P : Platform} (s : TcpServer P) (own : IsOwned s) (k : Kind) (topic : Text)
    (new : Object P k) where
  -- The state with the new object, on a node whose graph is `g`.
  replaced :
      (n : Node P) (g : Graph)
      → entities n ≡ g
      → ((h : ℕ) → n.next_handle ≤ h → g h ≡ none)
      → Owns k (handle P k) (put (table k s) topic new) g
      → ((j : Kind) → k ≢ j → Owns j (handle P j) (table j s) g)
      → IsOwned (with_table k (put (table k s) topic new) n s)
  replaced n g e fresh mine others =
      let d = put (table k s) topic new in
      let t = with_table k d n s in
      let now : n ≡ t.node = sym (node-with_table n s k d) in
      subst (IsOwnedBy t) (sym e ∙ ap entities now) (record {
        fresh = λ h above. fresh h (subst (λ m. m.next_handle ≤ h) (sym now) above);
        objects = λ j. elim (Kind-discrete k j) [
          | yes same ↦
              subst (λ i. Owns i (handle P i) (table i t) g) same
                (rw (table-with_table_self n s k d) mine)
          | no ne ↦ rw (table-with_table_other n s k j d ne) (others j ne)
        ];
      })

  pub IsOwned-drop :
      (old : Object P k) (h : ℕ) (c : RosCall P)
      → get (table k s) topic ≡ some old
      → handle P k old ≡ some h
      → handle P k new ≡ none
      → ((g : Graph) → after_call c g ≡ update g h none)
      → IsOwned (with_table k (put (table k s) topic new) (called c s.node.next_handle s.node) s)
  IsOwned-drop old h c e live dead drops =
      let there = (own.objects k).alive topic old h e live in
      replaced (called c s.node.next_handle s.node) (update (entities s.node) h none)
        (replay-snoc no_entities s.node.calls c ∙ drops (entities s.node))
        (λ i above. ground (arith, own.fresh i above))
        (Owns-drop k _ _ _ (own.objects k) topic new h old e live dead)
        (λ j ne. Owns-drop_other j _ _ _ (own.objects j) topic k ne h there)

  pub IsOwned-put_dead :
      (old : Object P k)
      → get (table k s) topic ≡ some old
      → handle P k old ≡ none
      → handle P k new ≡ none
      → IsOwned (with_table k (put (table k s) topic new) s.node s)
  IsOwned-put_dead old e dead dead' =
      replaced s.node (entities s.node) refl own.fresh
        (Owns-put_dead k _ _ _ (own.objects k) topic new 0 old e dead dead') (λ j ne. own.objects j)

  pub IsOwned-make :
      (c : RosCall P)
      → ((r : Object P k) → get (table k s) topic ≡ some r → handle P k r ≡ none)
      → handle P k new ≡ some s.node.next_handle
      → ((g : Graph) → after_call c g ≡ update g s.node.next_handle (some (k, topic)))
      → IsOwned
          (with_table k (put (table k s) topic new) (called c (s.node.next_handle + 1) s.node) s)
  IsOwned-make c vacant made makes =
      let h = s.node.next_handle in
      let free = own.fresh h (omega arith) in
      replaced (called c (h + 1) s.node) (update (entities s.node) h (some (k, topic)))
        (replay-snoc no_entities s.node.calls c ∙ makes (entities s.node))
        (λ i above. ground (arith, own.fresh i (omega arith)))
        (Owns-make k _ _ _ (own.objects k) topic new h vacant free made)
        (λ j ne. Owns-make_other j _ _ _ (own.objects j) topic k ne h free)

  pub IsOwned-touch :
      (old : Object P k)
      → get (table k s) topic ≡ some old
      → handle P k new ≡ handle P k old
      → IsOwned (with_table k (put (table k s) topic new) s.node s)
  IsOwned-touch old e same =
      replaced s.node (entities s.node) refl own.fresh
        (Owns-touch k _ _ _ (own.objects k) topic old new e same) (λ j ne. own.objects j)
