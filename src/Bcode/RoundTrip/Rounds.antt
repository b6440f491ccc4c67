-- ===== src/Bcode/RoundTrip/Rounds.antt =====
-- One round of the loops of b_list_parse and b_dict_parse in src/b_parse.c over printed terms.
use bt_server.Common.{
  ℕ, suc, ◌+◌, ◌*◌, ◌<◌, ◌≡◌, refl, ap, true, false, some, [], ◌∷◌, ◌++◌, arith, ne→==, ◌==◌,
  length, length-append,
}
use bt_server.Libc.{Bytes}
use bt_server.Bcode.{
  BString, Value, BList, BDict, Process, next, null, nil, cons, end, entry, returned,
}
use bt_server.Bcode.Objects.{alloc, malloc, empty_string, b_string_alloc, b_string_free}
use bt_server.Bcode.Entries.{
  b_list_add, b_dict_add, list_add_tail, dict_add_tail, entry_key, type_of, known_type,
}
use bt_server.Bcode.Scalars.{string_item, b_string_parse, string_data}
use bt_server.Bcode.Parse.{list_loop, item, dict_loop, dict_round, added, added_key}
use bt_server.Bcode.Blocks.{value_blocks, list_blocks, dict_blocks}
use bt_server.Bcode.Encode.{
  decimal, encode_text, of_bytes, Term, Terms, Pairs, text, number, sequence, mapping, no_terms,
  term, no_pairs, pair, encode, encode_terms, encode_pairs, object, objects, fields,
}
use bt_server.Bcode.Decimal.{decimal-head, IsDigit}
use bt_server.Bcode.Total.Endings.{Plenty}
use bt_server.Bcode.RoundTrip.Scalars.{grown}

-- The calls of malloc that the parsers make for a term.
unfoldable mutual
  pub mallocs : Term → ℕ
  mallocs (text bs) = 2
  mallocs (number n) = 1
  mallocs (sequence xs) = 1 + mallocs_terms xs
  mallocs (mapping ps) = 1 + mallocs_pairs ps

  pub mallocs_terms : Terms → ℕ
  mallocs_terms no_terms = 0
  mallocs_terms (term t xs) = mallocs t + 1 + mallocs_terms xs

  pub mallocs_pairs : Pairs → ℕ
  mallocs_pairs no_pairs = 0
  mallocs_pairs (pair k t ps) = 2 + mallocs t + 1 + mallocs_pairs ps

-- Entries behind those that are there.
abbrev pub list_append : BList → BList → BList
list_append nil ys = ys
list_append (cons v xs) ys = cons v (list_append xs ys)

abbrev pub dict_append : BDict → BDict → BDict
dict_append end d = d
dict_append (entry k v c) d = entry k v (dict_append c d)

pub list_append-add_tail :
    (v : Value) (xs ys : BList) → list_append (list_add_tail v xs) ys ≡ list_append xs (cons v ys)
unfolding list_add_tail
list_append-add_tail v nil ys = refl
list_append-add_tail v (cons w xs) ys = ap (λ zs. cons w zs) (list_append-add_tail v xs ys)

pub dict_append-add_tail :
    (k : Bytes) (v : Value) (c d : BDict)
    → dict_append (dict_add_tail k v c) d ≡ dict_append c (entry k v d)
unfolding dict_add_tail
dict_append-add_tail k v end d = refl
dict_append-add_tail k v (entry j w c) d = ap (λ e. entry j w e) (dict_append-add_tail k v c d)

pub grown-grown : (s : Process) (a b l m : ℕ) → grown (grown s a l) b m ≡ grown s (a + b) (l + m)
grown-grown s a b l m = ground arith

-- The cursor is on a byte that does not end the loop.
abbrev pub NotEnd : Bytes → Type 0
NotEnd [] = ⊥
NotEnd (c ∷ p) = (c == b'e') ≡ false

pub list_loop_round :
    (f : ℕ) (p : Bytes) (ret : BList) (s : Process)
    → NotEnd p
    → list_loop (suc f) p ret s
      ≡ returned
          (item f p s)
          (λ v q s₁. list_loop f q (added ret v s₁).0 (added ret v s₁).1)
          (λ _ s₁. null ret s₁)
unfolding list_loop
list_loop_round f [] ret s h = absurd h
list_loop_round f (c ∷ p) ret s h = rw h

pub encode_text-head :
    (bs rest : Bytes) → (c : ℕ) × (p : Bytes) × (encode_text bs ++ rest ≡ c ∷ p) × IsDigit c
unfolding encode_text
encode_text-head bs rest =
    let (c, cs, eq, digit) = decimal-head (length bs) in
    (c, (cs ++ b':' ∷ bs) ++ rest, rw eq, digit)

pub length-encode_text : (bs : Bytes) → 0 < length (encode_text bs)
unfolding encode_text
length-encode_text bs = omega (arith, length-append (decimal (length bs)) (b':' ∷ bs))

pub encode_text-NotEnd : (bs rest : Bytes) → NotEnd (encode_text bs ++ rest)
encode_text-NotEnd bs rest =
    let (c, p, eq, digit) = encode_text-head bs rest in
    rw eq (ne→== c b'e' (λ e. absurd (omega arith)))

pub encode-NotEnd : (t : Term) (rest : Bytes) → NotEnd (encode t ++ rest)
unfolding encode
encode-NotEnd (text bs) rest = encode_text-NotEnd bs rest
encode-NotEnd (number n) rest = refl
encode-NotEnd (sequence xs) rest = refl
encode-NotEnd (mapping ps) rest = refl

-- Anything that begins with a digit is taken for a string.
pub item_digit :
    (f c : ℕ) (p : Bytes) (s : Process) → IsDigit c → item (suc f) (c ∷ p) s ≡ string_item (c ∷ p) s
unfolding item
item_digit f c p s h =
    let other = λ (d : ℕ) (big : b'9' < d). ne→== c d (λ e. absurd (omega arith)) in
    rw (other b'l' (omega arith), other b'i' (omega arith), other b'd' (omega arith))

pub item_text :
    (f : ℕ) (bs rest : Bytes) (s : Process)
    → item (suc f) (encode_text bs ++ rest) s ≡ string_item (encode_text bs ++ rest) s
item_text f bs rest s =
    let (c, p, eq, digit) = encode_text-head bs rest in rw eq (item_digit f c p s digit)

abbrev pub Ready : Process → Type 0
Ready s = Plenty s × (s.errno ≡ 0)

pub added_lem :
    (v : Value) (ret : BList) (s : Process)
    → Plenty s
    → known_type (type_of v) ≡ true
    → b_list_add v ret s ≡ (list_add_tail v ret, grown s 1 1)
unfolding b_list_add alloc malloc
added_lem v ret s p k = rw (p s.calls 32, k, b_list_add)

pub known_type-object : (t : Term) → known_type (type_of (object t)) ≡ true
unfolding known_type type_of object
known_type-object (text bs) = refl
known_type-object _ = refl

pub added_key_lem :
    (v : Value) (key : Bytes) (ret : BDict) (s : Process)
    → Plenty s
    → known_type (type_of v) ≡ true
    → b_dict_add v key ret s ≡ (dict_add_tail (entry_key key) v ret, grown s 1 1)
unfolding b_dict_add alloc malloc
added_key_lem v key ret s p k = rw (p s.calls 160, k, b_dict_add)

pub dict_loop_round :
    (f : ℕ) (p : Bytes) (ret : BDict) (s : Process)
    → NotEnd p
    → Plenty s
    → dict_loop (suc f) p ret s
      ≡ returned
          (b_string_parse p empty_string (grown s 1 1))
          (λ key q s₂. dict_round f key q ret s₂)
          (λ key s₂. null ret (b_string_free (some key) s₂))
unfolding dict_loop b_string_alloc alloc malloc
dict_loop_round f [] ret s h p = absurd h
dict_loop_round f (c ∷ cs) ret s h p = rw (h, p s.calls 32)

pub dict_round-item :
    (f : ℕ) (key : BString) (q : Bytes) (ret : BDict) (s : Process)
    → dict_round (suc f) key q ret s
      ≡ returned
          (item f q s)
          (λ v r s₁.
            dict_loop f r
              (added_key ret (string_data key) v s₁).0
              (b_string_free (some key) (added_key ret (string_data key) v s₁).1))
          (λ _ s₁. null ret (b_string_free (some key) s₁))
unfolding dict_round
dict_round-item f key q ret s = refl

pub string_data-of_bytes : (k : Bytes) → string_data (of_bytes k) ≡ k ++ 0 ∷ []
unfolding string_data of_bytes
string_data-of_bytes k = refl

-- The key's two blocks are given back once the entry is there.
pub key_free :
    (k : Bytes) (s : Process) (a l : ℕ)
    → b_string_free (some (of_bytes k)) (grown (grown (grown s 1 1) 1 1) a l) ≡ grown s (2 + a) l
unfolding b_string_free of_bytes
key_free k s a l = ground arith

-- With enough fuel, a term is read off the front of any input, and its blocks are allocated.
abbrev pub ReadsItem : Term → Type 0
ReadsItem t =
    (f : ℕ) (rest : Bytes) (s : Process)
    → 3 * length (encode t) + 1 < f
    → Ready s
    → item f (encode t ++ rest) s
      ≡ next (some (object t)) rest (grown s (mallocs t) (value_blocks (object t)))

abbrev pub ReadsTerms : Terms → Type 0
ReadsTerms xs =
    (f : ℕ) (rest : Bytes) (ret : BList) (s : Process)
    → 3 * length (encode_terms xs) + 2 < f
    → Ready s
    → list_loop f (encode_terms xs ++ b'e' ∷ rest) ret s
      ≡ next (list_append ret (objects xs)) rest
          (grown s (mallocs_terms xs) (list_blocks (objects xs)))

abbrev pub ReadsPairs : Pairs → Type 0
ReadsPairs ps =
    (f : ℕ) (rest : Bytes) (ret : BDict) (s : Process)
    → 3 * length (encode_pairs ps) + 2 < f
    → Ready s
    → dict_loop f (encode_pairs ps ++ b'e' ∷ rest) ret s
      ≡ next (dict_append ret (fields ps)) rest
          (grown s (mallocs_pairs ps) (dict_blocks (fields ps)))
