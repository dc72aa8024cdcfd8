-- ===== src/Sender/Mapping/Ordered.antt =====
-- Items in order, as they are put into the queue and the slots, and as the slots are sent.
use mathlib.Core.Option.{some_inj}
use mathlib.Core.List.{mem-append_right, mem-cons_self}
use ros_tcp_endpoint.Prelude.{
  ℕ, ◌≡◌, refl, sym, subst, ◌∙◌, true, false, List, [], ◌∷◌, ◌++◌, Bytes, Text, text_eq,
  text_eq_iff, codes, none, some, arith, Bool-cases, inl, inr,
}
use ros_tcp_endpoint.Prelude.Dict.{Dict, Text_eq, ℕ_eq, get, put, get-put, get-put_self}
use ros_tcp_endpoint.Prelude.Result.{ok}
use ros_tcp_endpoint.Platform.{Platform}
use ros_tcp_endpoint.Client.Serialize.{topic_map, serialize_command}
use ros_tcp_endpoint.Sender.Loop.{serialize_pending}
use ros_tcp_endpoint.Sender.Mapping.{frame_number, IsMapped, AllTold}
use ros_tcp_endpoint.Sender.Mapping.Told.{
  frame_number-mapping, IsMapped-more, AllTold-keeps, AllTold-append, Numbered, Numbered-keeps,
  Numbered-put, AllTold-pending,
}

-- Every topic's mapping is among the items, every slot is of a topic that has a number, and frames
-- stand behind mappings.
pub record IsOrdered (P : Platform) (d : Dict Text ℕ) (slots : Dict ℕ P.Message)
    (items : List Bytes) : Type 0 where
  pub mapped : (t : Text) (n : ℕ) → get d t ≡ some n → IsMapped P d n items
  pub numbered : Numbered P d slots
  pub told : AllTold P d [] items

module _ (P : Platform) (d : Dict Text ℕ) (slots : Dict ℕ P.Message) (items : List Bytes)
    (h : IsOrdered P d slots items) where
  pub IsOrdered-push :
      (x : Bytes)
      → ((n : ℕ) → frame_number x ≡ some n → IsMapped P d n items)
      → IsOrdered P d slots (items ++ x ∷ [])
  IsOrdered-push x k = record {
    mapped = λ t n e. IsMapped-more P d d n items (x ∷ []) (λ u j g. g) (h.mapped t n e);
    numbered = h.numbered;
    told = AllTold-append P d [] items (x ∷ []) h.told (k, tt);
  }

  pub IsOrdered-store :
      (t : Text) (n : ℕ) (m : P.Message) → get d t ≡ some n → IsOrdered P d (put slots n m) items
  IsOrdered-store t n m e = record {
    mapped = h.mapped;
    numbered = Numbered-put P d slots t n m e h.numbered;
    told = h.told;
  }

  pub IsOrdered-flush : IsOrdered P d [] (items ++ serialize_pending P slots)
  IsOrdered-flush = record {
    mapped = λ t n e.
        IsMapped-more P d d n items (serialize_pending P slots) (λ u j g. g) (h.mapped t n e);
    numbered = tt;
    told =
        AllTold-append P d [] items (serialize_pending P slots) h.told
          (AllTold-pending P d items slots h.mapped h.numbered);
  }

  module _ (t : Text) (n : ℕ) (b : Bytes) (new : get d t ≡ none)
      (good : serialize_command P (codes "__topic_map") (topic_map t n) ≡ ok b) where
    keeps : (u : Text) (k : ℕ) → get d u ≡ some k → get (put d t n) u ≡ some k
    keeps u k e = ground (arith, get-put d t u n, text_eq_iff t u)

    mapped_new : (u : Text) (k : ℕ) → text_eq t u ≡ true → get (put d t n) u ≡ some k → n ≡ k
    mapped_new u k same e = some_inj.0 (sym (rw same refl) ∙ sym (get-put d t u n) ∙ e)

    mapped_old :
        (u : Text) (k : ℕ) → text_eq t u ≡ false → get (put d t n) u ≡ some k → get d u ≡ some k
    mapped_old u k other e = ground (arith, get-put d t u n)

    pub IsOrdered-introduce : IsOrdered P (put d t n) slots (items ++ b ∷ [])
    IsOrdered-introduce = record {
      mapped = λ u k e. elim (Bool-cases (text_eq t u)) [
        | inl same ↦
            subst (λ j. IsMapped P (put d t n) j (items ++ b ∷ [])) (mapped_new u k same e)
              (record {
                topic = t;
                mapping = b;
                numbered = get-put_self d t n;
                serialized = good;
                told = mem-append_right items mem-cons_self;
              })
        | inr other ↦
            IsMapped-more P d (put d t n) k items (b ∷ []) keeps
              (h.mapped u k (mapped_old u k other e))
      ];
      numbered = Numbered-keeps P d (put d t n) slots keeps h.numbered;
      told =
          AllTold-append P (put d t n) [] items (b ∷ [])
            (AllTold-keeps P d (put d t n) [] items keeps h.told)
            (λ k e. absurd (cc (frame_number-mapping P (topic_map t n) b good)), tt);
    }
