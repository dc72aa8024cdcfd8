-- ===== src/Sender/Mapping/Told.antt =====
-- Items are told apart by their heads, and lists of items grow.
use mathlib.Core.List.{mem-append_left}
use mathlib.Core.Option.{some_inj}
use ros_tcp_endpoint.Prelude.{
  ℕ, ◌-◌, ◌<◌, ◌^◌, ◌≡◌, sym, subst, ◌∙◌, List, [], ◌∷◌, ◌++◌, Bytes, Text, codes, Option, none,
  some, arith, append_assoc, append-nil, Bool-cases, ◌==◌, inl, inr, ap,
}
use ros_tcp_endpoint.Prelude.Dict.{Dict, Text_eq, ℕ_eq, get, put}
use ros_tcp_endpoint.Prelude.Result.{Exc, Result, ok, err, Result-cases, >>=-eq-ok}
use ros_tcp_endpoint.Platform.{Platform}
use ros_tcp_endpoint.Struct.{le_bytes, pack_unsigned, pack_i32}
use ros_tcp_endpoint.Struct.Int.{negsuc}
use ros_tcp_endpoint.Utf8.{encode, encode_char}
use ros_tcp_endpoint.Client.Serialize.{
  SysCommand, serialize_command, serialize_params, pack_block, serialize_message_with_topic_id,
}
use ros_tcp_endpoint.Client.RoundTrip.{serialize_with_topic_id-layout}
use ros_tcp_endpoint.Sender.Loop.{serialize_pending}
use ros_tcp_endpoint.Sender.Mapping.{frame_number, IsMapped, AllTold}

head_number :
    (n : ℕ) (rest : Bytes)
    → n < 2 ^ 16
    → frame_number (le_bytes 4 (2 ^ 32 - 1) ++ (le_bytes 2 n ++ rest)) ≡ some n
unfolding le_bytes
head_number n rest fits = ap some (omega arith)

abbrev number_in : Result Bytes → Option ℕ
number_in (ok b) = frame_number b
number_in (err e) = none

module _ (P : Platform) where
  pub frame_number-frame :
      (n : ℕ) (m : P.Message) (frame : Bytes)
      → serialize_message_with_topic_id P n m ≡ ok frame
      → frame_number frame ≡ some n
  unfolding serialize_message_with_topic_id
  frame_number-frame n m frame h =
      let (_, _, h₁) = >>=-eq-ok (pack_i32 (negsuc 0)) _ h in
      let (_, _, h₂) = >>=-eq-ok (pack_unsigned 2 n) _ h₁ in
      let (body, good, _) = >>=-eq-ok (P.serialize m) _ h₂ in
      let (fits, _, layout) = serialize_with_topic_id-layout P n m body frame good h in
      ap frame_number layout ∙ head_number n _ fits

  pub frame_number-mapping :
      (c : SysCommand) (b : Bytes)
      → serialize_command P (codes "__topic_map") c ≡ ok b
      → frame_number b ≡ none
  unfolding serialize_command pack_block encode encode_char pack_unsigned le_bytes
  frame_number-mapping c b h =
      let (params, _, h₁) = >>=-eq-ok (serialize_params P (codes "__topic_map") c) _ h in
      let (info, _, h₂) = >>=-eq-ok (pack_block params) _ h₁ in sym (ap number_in h₂)

  pub frame_number-handshake :
      (c : SysCommand) (b : Bytes)
      → serialize_command P (codes "__handshake") c ≡ ok b
      → frame_number b ≡ none
  unfolding serialize_command pack_block encode encode_char pack_unsigned le_bytes
  frame_number-handshake c b h =
      let (params, _, h₁) = >>=-eq-ok (serialize_params P (codes "__handshake") c) _ h in
      let (info, _, h₂) = >>=-eq-ok (pack_block params) _ h₁ in sym (ap number_in h₂)

  pub IsMapped-more :
      (d e : Dict Text ℕ) (n : ℕ) (items more : List Bytes)
      → ((t : Text) (k : ℕ) → get d t ≡ some k → get e t ≡ some k)
      → IsMapped P d n items
      → IsMapped P e n (items ++ more)
  IsMapped-more d e n items more keeps h = record {
    topic = h.topic;
    mapping = h.mapping;
    numbered = keeps h.topic n h.numbered;
    serialized = h.serialized;
    told = mem-append_left more h.told;
  }

  pub AllTold-keeps :
      (d e : Dict Text ℕ) (seen items : List Bytes)
      → ((t : Text) (k : ℕ) → get d t ≡ some k → get e t ≡ some k)
      → AllTold P d seen items
      → AllTold P e seen items
  AllTold-keeps d e seen [] keeps h = tt
  AllTold-keeps d e seen (x ∷ items) keeps (first, rest) = (
    λ n k. subst (IsMapped P e n) (append-nil seen) (IsMapped-more d e n seen [] keeps (first n k)),
    AllTold-keeps d e (seen ++ x ∷ []) items keeps rest,
  )

  pub AllTold-append :
      (d : Dict Text ℕ) (seen items more : List Bytes)
      → AllTold P d seen items
      → AllTold P d (seen ++ items) more
      → AllTold P d seen (items ++ more)
  AllTold-append d seen [] more h k = subst (λ s. AllTold P d s more) (append-nil seen) k
  AllTold-append d seen (x ∷ items) more (first, rest) k = (
    first,
    AllTold-append d (seen ++ x ∷ []) items more rest
        (subst (λ s. AllTold P d s more) (sym (append_assoc seen (x ∷ []) items)) k),
  )

  -- A frame is told if it stands among items that are.
  pub AllTold-at :
      (d : Dict Text ℕ) (seen before after : List Bytes) (frame : Bytes) (n : ℕ)
      → AllTold P d seen (before ++ frame ∷ after)
      → frame_number frame ≡ some n
      → IsMapped P d n (seen ++ before)
  AllTold-at d seen [] after frame n (first, rest) k =
      subst (IsMapped P d n) (sym (append-nil seen)) (first n k)
  AllTold-at d seen (x ∷ before) after frame n (first, rest) k =
      subst (IsMapped P d n) (append_assoc seen (x ∷ []) before)
        (AllTold-at d (seen ++ x ∷ []) before after frame n rest k)

  -- Every slot's number is one of a topic.
  abbrev pub Numbered : Dict Text ℕ → Dict ℕ P.Message → Type 0
  Numbered d [] = Unit {0}
  Numbered d ((n, m) ∷ slots) = ((t : Text) × (get d t ≡ some n)) × Numbered d slots

  pub Numbered-keeps :
      (d e : Dict Text ℕ) (slots : Dict ℕ P.Message)
      → ((t : Text) (k : ℕ) → get d t ≡ some k → get e t ≡ some k)
      → Numbered d slots
      → Numbered e slots
  Numbered-keeps d e [] keeps h = tt
  Numbered-keeps d e ((n, m) ∷ slots) keeps ((t, k), rest) =
      ((t, keeps t n k), Numbered-keeps d e slots keeps rest)

  pub Numbered-put :
      (d : Dict Text ℕ) (slots : Dict ℕ P.Message) (t : Text) (n : ℕ) (m : P.Message)
      → get d t ≡ some n
      → Numbered d slots
      → Numbered d (put slots n m)
  unfolding put
  Numbered-put d [] t n m e h = ((t, e), tt)
  Numbered-put d ((j, x) ∷ slots) t n m e (first, rest) = elim (Bool-cases (j == n)) [
    | inl same ↦ rw same (first, rest)
    | inr other ↦ rw other (first, Numbered-put d slots t n m e rest)
  ]

  pending_out :
      (n : ℕ) (m : P.Message) (slots : Dict ℕ P.Message) (e : Exc)
      → serialize_message_with_topic_id P n m ≡ err e
      → serialize_pending P slots ≡ serialize_pending P ((n, m) ∷ slots)
  unfolding serialize_pending
  pending_out n m slots e bad = ground arith

  pending_in :
      (n : ℕ) (m : P.Message) (slots : Dict ℕ P.Message) (b : Bytes)
      → serialize_message_with_topic_id P n m ≡ ok b
      → b ∷ serialize_pending P slots ≡ serialize_pending P ((n, m) ∷ slots)
  unfolding serialize_pending
  pending_in n m slots b good = ground arith

  -- The frames of the slots are told once the mappings of all topics are.
  pub AllTold-pending :
      (d : Dict Text ℕ) (seen : List Bytes) (slots : Dict ℕ P.Message)
      → ((t : Text) (n : ℕ) → get d t ≡ some n → IsMapped P d n seen)
      → Numbered d slots
      → AllTold P d seen (serialize_pending P slots)
  unfolding serialize_pending
  AllTold-pending d seen [] all h = tt
  AllTold-pending d seen ((n, m) ∷ slots) all ((t, k), rest) =
      elim (Result-cases (serialize_message_with_topic_id P n m)) [
        | inl (e, bad) ↦
            subst (AllTold P d seen) (pending_out n m slots e bad)
              (AllTold-pending d seen slots all rest)
        | inr (b, good) ↦ subst (AllTold P d seen) (pending_in n m slots b good) (
          λ j q.
              subst (λ i. IsMapped P d i seen)
                (some_inj.0 (sym (frame_number-frame n m b good) ∙ q)) (all t n k),
          AllTold-pending d (seen ++ b ∷ []) slots
              (λ u i e. IsMapped-more d d i seen (b ∷ []) (λ v l g. g) (all u i e)) rest,
        )
      ]
