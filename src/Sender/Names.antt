-- ===== src/Sender/Names.antt =====
-- tcp_sender.py: `parse_message_name`, on the text of a message's class.
use ros_tcp_endpoint.Prelude.{
  ℕ, ◌-◌, ◌≡◌, refl, ap, ◌∙◌, Bool, true, not, ◌&&◌, List, [], ◌∷◌, ◌++◌, Text, codes, arith, ◌==◌,
}
use ros_tcp_endpoint.Prelude.{length, take, drop, length-append, take-append_self}
use ros_tcp_endpoint.Text.{split}

-- The last of some parts, `names[-1]`.
unfoldable pub last_part : Text → List Text → Text
last_part first [] = first
last_part first (next ∷ rest) = last_part next rest

-- t[:-2]
unfoldable pub drop_last_two : Text → Text
drop_last_two t = take (length t - 2) t

-- The argument is `str(type(name))`; no step of this raises.
unfoldable pub parse_message_name : Text → Text
unfolding split last_part drop_last_two
parse_message_name type_text =
    let names = split b'.' type_text in
    let words = split b'_' (last_part names.0 names.1) in
    drop 8 names.0 ++ (codes "/" ++ drop_last_two (last_part words.0 words.1))

-- A character does not occur.
abbrev pub absent : ℕ → Text → Bool
absent d [] = true
absent d (c ∷ s) = not (c == d) && absent d s

split-absent : (d : ℕ) (s : Text) → absent d s ≡ true → split d s ≡ (s, [])
unfolding split
split-absent d [] f = refl
split-absent d (c ∷ s) f = ground (arith, split-absent d s)

split-part :
    (d : ℕ) (s t : Text)
    → absent d s ≡ true
    → split d (s ++ d ∷ t) ≡ (s, (split d t).0 ∷ (split d t).1)
unfolding split
split-part d [] t f = ground arith
split-part d (c ∷ s) t f = ground (arith, split-part d s t)

absent-append :
    (d : ℕ) (s t : Text) → absent d s ≡ true → absent d t ≡ true → absent d (s ++ t) ≡ true
absent-append d [] t f g = g
absent-append d (c ∷ s) t f g = ground (arith, absent-append d s t)

drop_last_two-quote : (s : Text) → drop_last_two (s ++ codes "'>") ≡ s
unfolding drop_last_two
drop_last_two-quote s =
    let size : length (s ++ codes "'>") - 2 ≡ length s =
      omega (arith, length-append s (codes "'>")) in
    ap (λ n. take n (s ++ codes "'>")) size ∙ take-append_self s (codes "'>")

module _ (pkg file name : Text) (one_package : absent b'.' pkg ≡ true)
    (one_file : absent b'.' file ≡ true) (no_dot : absent b'.' name ≡ true)
    (one_word : absent b'_' name ≡ true) where
  abbrev class_part : Text
  class_part = codes "Metaclass_" ++ (name ++ codes "'>")

  split-class : split b'.' class_part ≡ (class_part, [])
  split-class = split-absent b'.' class_part (absent-append b'.' name (codes "'>") no_dot refl)

  split-type :
      split b'.' (codes "<class '" ++ (pkg ++ (codes ".msg._" ++ (file ++ b'.' ∷ class_part))))
      ≡ (codes "<class '" ++ pkg, codes "msg" ∷ (b'_' ∷ file) ∷ class_part ∷ [])
  unfolding split
  split-type =
      let s = codes "<class '" ++ pkg in
      let file_part = split-part b'.' file class_part one_file in
      split-part b'.' s _ one_package
      ∙ ap (λ r. (s, codes "msg" ∷ (b'_' ∷ r.0) ∷ r.1))
          (file_part ∙ ap (λ r. (file, r.0 ∷ r.1)) split-class)

  split-words : split b'_' class_part ≡ (codes "Metaclass", (name ++ codes "'>") ∷ [])
  unfolding split
  split-words =
      ap (λ r. (codes "Metaclass", r.0 ∷ r.1))
        (split-absent b'_' (name ++ codes "'>")
          (absent-append b'_' name (codes "'>") one_word refl))

  -- For the text of a message class, `<class 'P.msg._F.Metaclass_N'>`, in which P, F and N have no
  -- dot and N no underscore, `parse_message_name` gives `P/N`.
  parse_message_name-class :
      parse_message_name
        (codes "<class '" ++ (pkg ++ (codes ".msg._" ++ (file ++ b'.' ∷ class_part))))
      ≡ pkg ++ (codes "/" ++ name)
  unfolding parse_message_name last_part
  parse_message_name-class =
      ap
        (λ r.
          let words = split b'_' (last_part r.0 r.1) in
          drop 8 r.0 ++ (codes "/" ++ drop_last_two (last_part words.0 words.1)))
        split-type
      ∙ ap (λ w. pkg ++ (codes "/" ++ drop_last_two (last_part w.0 w.1))) split-words
      ∙ ap (λ w. pkg ++ (codes "/" ++ w)) (drop_last_two-quote name)
