-- ===== src/Bcode/RoundTrip/Loops.antt =====
-- The steps of the loops in src/b_parse.c, against the print of their items.
use bt_server.Common.{
  ℕ, suc, ◌+◌, ◌*◌, ◌^◌, ◌≤◌, ◌<◌, ◌≡◌, refl, ◌∙◌, ap, none, some, [], ◌∷◌, ◌++◌, append_assoc,
  arith, length, length-append,
}
use bt_server.Libc.{Bytes}
use bt_server.Bcode.{
  BString, Value, BList, BDict, Process, next, null, nil, cons, end, entry, returned,
}
use bt_server.Bcode.Objects.{alloc, malloc, b_string_free}
use bt_server.Bcode.Entries.{b_list_alloc, b_dict_alloc, list_add_tail, dict_add_tail, entry_key}
use bt_server.Bcode.Free.{b_list_free, b_dict_free}
use bt_server.Bcode.Scalars.{int_item, string_data}
use bt_server.Bcode.Parse.{list_loop, item, dict_loop, dict_round}
use bt_server.Bcode.Blocks.{value_blocks}
use bt_server.Bcode.Encode.{
  decimal, encode_text, of_bytes, Term, Terms, Pairs, text, number, sequence, mapping, no_terms,
  term, no_pairs, pair, encode, encode_terms, encode_pairs, object,
}
use bt_server.Bcode.Total.Endings.{Plenty}
use bt_server.Bcode.RoundTrip.Scalars.{grown, encode-number_append, b_string_parse-text}
use bt_server.Bcode.RoundTrip.Rounds.{
  mallocs, list_append, dict_append, grown-grown, list_loop_round, length-encode_text,
  encode_text-NotEnd, encode-NotEnd, Ready, added_lem, known_type-object, added_key_lem,
  dict_loop_round, dict_round-item, string_data-of_bytes, key_free, ReadsItem,
}

pub list_loop_end :
    (f : ℕ) (rest : Bytes) (ret : BList) (s : Process)
    → list_loop (suc f) (b'e' ∷ rest) ret s ≡ next ret rest s
unfolding list_loop
list_loop_end f rest ret s = refl

pub dict_loop_end :
    (f : ℕ) (rest : Bytes) (ret : BDict) (s : Process)
    → dict_loop (suc f) (b'e' ∷ rest) ret s ≡ next ret rest s
unfolding dict_loop
dict_loop_end f rest ret s = refl

pub list_append-nil : (xs : BList) → list_append xs nil ≡ xs
list_append-nil nil = refl
list_append-nil (cons v xs) = ap (λ ys. cons v ys) (list_append-nil xs)

pub dict_append-end : (d : BDict) → dict_append d end ≡ d
dict_append-end end = refl
dict_append-end (entry k v d) = ap (λ e. entry k v e) (dict_append-end d)

module _ (t : Term) (read : ReadsItem t) where
  -- One round of the list's loop over a printed term.
  pub list_loop_term :
      (f : ℕ) (p : Bytes) (ret : BList) (s : Process)
      → 3 * length (encode t) + 1 < f
      → Ready s
      → list_loop (suc f) (encode t ++ p) ret s
        ≡ list_loop f p
            (list_add_tail (object t) ret)
            (grown s (mallocs t + 1) (value_blocks (object t) + 1))
  list_loop_term f p ret s h ready =
      rw (list_loop_round f (encode t ++ p) ret s (encode-NotEnd t p), read f p s h ready)
        (rw
          (added_lem (object t) ret (grown s (mallocs t) (value_blocks (object t))) ready.0
            (known_type-object t))
          (ap (list_loop f p (list_add_tail (object t) ret)) (grown-grown s _ 1 _ 1)))

  -- One round of the dictionary's loop over a printed key and term.
  dict_round_term :
      (f : ℕ) (key : BString) (p : Bytes) (ret : BDict) (s : Process)
      → 3 * length (encode t) + 1 < f
      → Ready s
      → dict_round (suc f) key (encode t ++ p) ret s
        ≡ dict_loop f p
            (dict_add_tail (entry_key (string_data key)) (object t) ret)
            (b_string_free (some key) (grown s (mallocs t + 1) (value_blocks (object t) + 1)))
  dict_round_term f key p ret s h ready =
      let after = grown s (mallocs t) (value_blocks (object t)) in
      rw (dict_round-item f key (encode t ++ p) ret s, read f p s h ready)
        (rw (added_key_lem (object t) (string_data key) ret after ready.0 (known_type-object t)) (
          ap
            (λ s₁.
              dict_loop f p (dict_add_tail (entry_key (string_data key)) (object t) ret)
                (b_string_free (some key) s₁))
            (grown-grown s _ 1 _ 1)))

  pub dict_loop_pair :
      (f : ℕ) (k p : Bytes) (ret : BDict) (s : Process)
      → length k < 2 ^ 32
      → 3 * length (encode t) + 1 < f
      → Ready s
      → dict_loop (suc (suc f)) (encode_text k ++ (encode t ++ p)) ret s
        ≡ dict_loop f p
            (dict_add_tail (entry_key (k ++ 0 ∷ [])) (object t) ret)
            (grown s (2 + (mallocs t + 1)) (value_blocks (object t) + 1))
  dict_loop_pair f k p ret s small h ready =
      rw
        (
          dict_loop_round (suc f) _ ret s (encode_text-NotEnd k (encode t ++ p)) ready.0,
          b_string_parse-text k (encode t ++ p) (grown s 1 1) small ready.0 ready.1,
          dict_round_term f (of_bytes k) p ret (grown (grown s 1 1) 1 1) h ready,
        )
        (rw (string_data-of_bytes k, key_free k s (mallocs t + 1) (value_blocks (object t) + 1)))

pub item_int : (f : ℕ) (p : Bytes) (s : Process) → item (suc f) (b'i' ∷ p) s ≡ int_item (b'i' ∷ p) s
unfolding item
item_int f p s = refl

-- How the print of a term lies in the buffer.
pub encode-sequence_append :
    (xs : Terms) (rest : Bytes)
    → encode (sequence xs) ++ rest ≡ b'l' ∷ (encode_terms xs ++ b'e' ∷ rest)
unfolding encode
encode-sequence_append xs rest = append_assoc (b'l' ∷ encode_terms xs) _ rest

pub encode-mapping_append :
    (ps : Pairs) (rest : Bytes)
    → encode (mapping ps) ++ rest ≡ b'd' ∷ (encode_pairs ps ++ b'e' ∷ rest)
unfolding encode
encode-mapping_append ps rest = append_assoc (b'd' ∷ encode_pairs ps) _ rest

pub encode-term_append :
    (t : Term) (xs : Terms) (rest : Bytes)
    → encode_terms (term t xs) ++ rest ≡ encode t ++ (encode_terms xs ++ rest)
unfolding encode
encode-term_append t xs rest = append_assoc (encode t) (encode_terms xs) rest

pub encode-pair_append :
    (k : Bytes) (t : Term) (ps : Pairs) (rest : Bytes)
    → encode_pairs (pair k t ps) ++ rest ≡ encode_text k ++ (encode t ++ (encode_pairs ps ++ rest))
unfolding encode
encode-pair_append k t ps rest =
    append_assoc (encode_text k) _ rest
    ∙ ap (λ p. encode_text k ++ p) (append_assoc (encode t) (encode_pairs ps) rest)

pub length-encode_sequence :
    (xs : Terms) → length (encode (sequence xs)) ≡ length (encode_terms xs) + 2
unfolding encode
length-encode_sequence xs = omega (arith, length-append (encode_terms xs) (b'e' ∷ []))

pub length-encode_mapping :
    (ps : Pairs) → length (encode (mapping ps)) ≡ length (encode_pairs ps) + 2
unfolding encode
length-encode_mapping ps = omega (arith, length-append (encode_pairs ps) (b'e' ∷ []))

-- A term takes at least one byte, and a key at least two.
pub length-encode_pos : (t : Term) → 0 < length (encode t)
unfolding encode
length-encode_pos (text bs) = omega (arith, length-encode_text bs)
length-encode_pos (number n) = omega arith
length-encode_pos (sequence xs) = omega arith
length-encode_pos (mapping ps) = omega arith

pub length-encode_term :
    (t : Term) (xs : Terms)
    → (length (encode_terms (term t xs)) ≡ length (encode t) + length (encode_terms xs))
      × (0 < length (encode t))
unfolding encode
length-encode_term t xs = (length-append (encode t) (encode_terms xs), length-encode_pos t)

pub length-encode_pair :
    (k : Bytes) (t : Term) (ps : Pairs)
    → length (encode t) + length (encode_pairs ps) + 1 ≤ length (encode_pairs (pair k t ps))
unfolding encode
length-encode_pair k t ps = omega (
  arith,
  length-append (encode_text k) (encode t ++ encode_pairs ps),
  length-append (encode t) (encode_pairs ps),
  length-encode_text k,
)

pub item_list :
    (f : ℕ) (p : Bytes) (s : Process)
    → Plenty s
    → item (suc (suc f)) (b'l' ∷ p) s
      ≡ returned
          (list_loop f p nil (grown s 1 1))
          (λ xs q s₂. next (some (Value.list xs)) q s₂)
          (λ xs s₂. null none (b_list_free (some xs) s₂))
unfolding item b_list_alloc alloc malloc
item_list f p s h = rw (h s.calls 24)

pub item_dict :
    (f : ℕ) (p : Bytes) (s : Process)
    → Plenty s
    → item (suc (suc f)) (b'd' ∷ p) s
      ≡ returned
          (dict_loop f p end (grown s 1 1))
          (λ d q s₂. next (some (Value.dict d)) q s₂)
          (λ d s₂. null none (b_dict_free (some d) s₂))
unfolding item b_dict_alloc alloc malloc
item_dict f p s h = rw (h s.calls 24)

pub item_number :
    (f n : ℕ) (rest : Bytes) (s : Process)
    → item (suc f) (encode (number n) ++ rest) s ≡ int_item (encode (number n) ++ rest) s
item_number f n rest s = rw encode-number_append (item_int f (decimal n ++ b'e' ∷ rest) s)

pub grown-zero : (s : Process) → grown s 0 0 ≡ s
grown-zero s = ground arith

pub list_loop_none :
    (f : ℕ) (rest : Bytes) (ret : BList) (s : Process)
    → list_loop (suc f) (encode_terms no_terms ++ b'e' ∷ rest) ret s
      ≡ next (list_append ret nil) rest (grown s 0 0)
unfolding encode
list_loop_none f rest ret s = rw (list_append-nil ret, grown-zero s) (list_loop_end f rest ret s)

pub dict_loop_none :
    (f : ℕ) (rest : Bytes) (ret : BDict) (s : Process)
    → dict_loop (suc f) (encode_pairs no_pairs ++ b'e' ∷ rest) ret s
      ≡ next (dict_append ret end) rest (grown s 0 0)
unfolding encode
dict_loop_none f rest ret s = rw (dict_append-end ret, grown-zero s) (dict_loop_end f rest ret s)

pub encode-text_eq : (bs : Bytes) → encode (text bs) ≡ encode_text bs
unfolding encode
encode-text_eq bs = refl
