-- ===== src/Ros/Graph/Owns.antt =====
-- A table of the server and the entities of one kind in the ROS graph.
use ros_tcp_endpoint.Prelude.{
  ℕ, [], ◌≡◌, ◌≢◌, inl, inr, Bool-cases, dec_eq, Text, text_eq, text_eq_iff, Option, none, some,
  arith,
}
use ros_tcp_endpoint.Prelude.Dict.{Dict, Text_eq, get, put, get-put}
use ros_tcp_endpoint.Sender.{update}
use ros_tcp_endpoint.Ros.Graph.{Kind, Graph, no_entities}

-- The entities of the kind are exactly those of the objects in the table, each for its own topic.
pub record Owns {R : Type 0} (kind : Kind) (handle : R → Option ℕ) (table : Dict Text R) (g : Graph)
    : Type 0 where
  pub alive :
      (t : Text) (r : R) (h : ℕ) → get table t ≡ some r → handle r ≡ some h → g h ≡ some (kind, t)
  pub listed :
      (t : Text) (h : ℕ)
      → g h ≡ some (kind, t)
      → (r : R) × (get table t ≡ some r) × (handle r ≡ some h)

module _ {R : Type 0} (kind : Kind) (handle : R → Option ℕ) (table : Dict Text R) (g : Graph)
    (own : Owns kind handle table g) (t : Text) (r' : R) (h : ℕ) where
  -- The entity of a topic's object is destroyed, and the object forgets it.
  pub Owns-drop :
      (r : R)
      → get table t ≡ some r
      → handle r ≡ some h
      → handle r' ≡ none
      → Owns kind handle (put table t r') (update g h none)
  Owns-drop r e live dead = record {
    alive = λ u q k eq hq.
        ground
          (arith, get-put table t u r', text_eq_iff t u, own.alive t r h e live, own.alive u q k);
    listed = λ u k there.
        let (q, eq, hq) = own.listed u k (ground arith) in
        (q, ground (arith, get-put table t u r', text_eq_iff t u), hq);
  }

  -- An object without an entity is replaced by another.
  pub Owns-put_dead :
      (r : R)
      → get table t ≡ some r
      → handle r ≡ none
      → handle r' ≡ none
      → Owns kind handle (put table t r') g
  Owns-put_dead r e dead dead' = record {
    alive = λ u q k eq hq. ground (arith, get-put table t u r', text_eq_iff t u, own.alive u q k);
    listed = λ u k there.
        let (q, eq, hq) = own.listed u k there in
        (q, ground (arith, get-put table t u r', text_eq_iff t u), hq);
  }

  -- A new entity for a topic that has none.
  pub Owns-make :
      ((r : R) → get table t ≡ some r → handle r ≡ none)
      → g h ≡ none
      → handle r' ≡ some h
      → Owns kind handle (put table t r') (update g h (some (kind, t)))
  Owns-make vacant fresh made = record {
    alive = λ u q k eq hq. ground (arith, get-put table t u r', text_eq_iff t u, own.alive u q k);
    listed = λ u k there. elim (dec_eq h k) [
      | inl e ↦ (r', ground (arith, get-put table t u r', text_eq_iff t u), ground arith)
      | inr ne ↦
          let (q, eq, hq) = own.listed u k (ground arith) in
          (q, ground (arith, get-put table t u r', text_eq_iff t u, vacant q), hq)
    ];
  }

module _ {R : Type 0} (kind : Kind) (handle : R → Option ℕ) (table : Dict Text R) (g : Graph)
    (own : Owns kind handle table g) (t : Text) (other : Kind) (ne : other ≢ kind) (h : ℕ) where
  -- Another kind's entity is destroyed or made.
  pub Owns-drop_other : g h ≡ some (other, t) → Owns kind handle table (update g h none)
  Owns-drop_other e = record {
    alive = λ u q k eq hq. ground (arith, own.alive u q k);
    listed = λ u k there. own.listed u k (ground arith);
  }

  pub Owns-make_other : g h ≡ none → Owns kind handle table (update g h (some (other, t)))
  Owns-make_other e = record {
    alive = λ u q k eq hq. ground (arith, own.alive u q k);
    listed = λ u k there. own.listed u k (ground arith);
  }

-- A change of an object that keeps its entity.
pub Owns-touch :
    {R : Type 0} (kind : Kind) (handle : R → Option ℕ) (table : Dict Text R) (g : Graph)
    → Owns kind handle table g
    → (t : Text) (r r' : R) → get table t ≡ some r
    → handle r' ≡ handle r
    → Owns kind handle (put table t r') g
Owns-touch kind handle table g own t r r' e same = record {
  alive = λ u q k eq hq.
      ground (arith, get-put table t u r', text_eq_iff t u, own.alive u q k, own.alive t r k);
  listed = λ u k there. elim (Bool-cases (text_eq t u)) [
    | inl here ↦
        let (q, eq, hq) = own.listed u k there in
        (r', ground (arith, get-put table t u r', text_eq_iff t u), ground (arith, text_eq_iff t u))
    | inr away ↦
        let (q, eq, hq) = own.listed u k there in
        (q, ground (arith, get-put table t u r', text_eq_iff t u), hq)
  ];
}

-- An empty table, and no entities.
pub Owns-none : {R : Type 0} (kind : Kind) (handle : R → Option ℕ) → Owns kind handle [] no_entities
unfolding get
Owns-none kind handle = record { alive = λ t r h e f. cc; listed = λ t h e. absurd (cc) }
