-- ===== src/Bcode/RoundTrip.antt =====
-- The parsers of src/b_parse.c read back what B-coding prints.
pub mod Scalars
pub mod Rounds
pub mod Loops
use bt_server.Common.{
  ℕ, zero, suc, ◌+◌, ◌*◌, ◌^◌, ◌≤◌, ◌<◌, ◌≡◌, refl, ◌∙◌, ap, Bool, true, false, none, some, [], ◌∷◌,
  ◌++◌, append_assoc, arith, ne→==, ◌==◌, length, length-append,
}
use bt_server.Libc.{Bytes}
use bt_server.Bcode.{
  BString, Value, BList, BDict, Process, Outcome, next, null, nil, cons, end, entry, returned,
}
use bt_server.Bcode.Objects.{alloc, malloc, empty_string, b_string_alloc, b_string_free}
use bt_server.Bcode.Entries.{
  b_list_alloc, b_dict_alloc, b_list_add, b_dict_add, list_add_tail, dict_add_tail, entry_key,
  type_of, known_type,
}
use bt_server.Bcode.Free.{b_list_free, b_dict_free}
use bt_server.Bcode.Scalars.{int_item, string_item, b_string_parse, string_data}
use bt_server.Bcode.Parse.{
  b_list_parse, list_loop, item, b_dict_parse, dict_loop, dict_round, added, added_key, keyed,
}
use bt_server.Bcode.Blocks.{value_blocks, list_blocks, dict_blocks}
use bt_server.Bcode.Encode.{
  decimal, encode_text, of_bytes, Term, Terms, Pairs, text, number, sequence, mapping, no_terms,
  term, no_pairs, pair, encode, encode_terms, encode_pairs, object, objects, fields, Fits,
  FitsTerms, FitsPairs,
}
use bt_server.Bcode.Decimal.{decimal-head, IsDigit}
use bt_server.Bcode.Total.Endings.{Plenty}
use Scalars.{grown, encode-number_append, int_item-number, string_item-text, b_string_parse-text}
use Rounds.{
  mallocs, mallocs_terms, mallocs_pairs, list_append, dict_append, list_append-add_tail,
  dict_append-add_tail, grown-grown, NotEnd, list_loop_round, encode_text-head, length-encode_text,
  encode_text-NotEnd, encode-NotEnd, item_digit, item_text, Ready, added_lem, known_type-object,
  added_key_lem, dict_loop_round, dict_round-item, string_data-of_bytes, key_free, ReadsItem,
  ReadsTerms, ReadsPairs,
}
use Loops.{
  list_loop_term, dict_loop_pair, list_loop_end, dict_loop_end, list_append-nil, dict_append-end,
  item_int, encode-sequence_append, encode-mapping_append, encode-term_append, encode-pair_append,
  length-encode_sequence, length-encode_mapping, length-encode_pos, length-encode_term,
  length-encode_pair, item_list, item_dict, item_number, grown-zero, list_loop_none, dict_loop_none,
  encode-text_eq,
}

mutual
  unfolding value_blocks object mallocs

  reads_item : (t : Term) → Fits t → ReadsItem t
  reads_item t fits zero rest s h ready = absurd (omega arith)
  reads_item (text bs) fits (suc f) rest s h ready =
      rw encode-text_eq (item_text f bs rest s ∙ string_item-text bs rest s fits ready.0 ready.1)
  reads_item (number n) fits (suc f) rest s h ready =
      item_number f n rest s ∙ int_item-number n rest s fits ready.0 ready.1
  reads_item (sequence xs) fits (suc zero) rest s h ready = absurd (omega arith)
  reads_item (sequence xs) fits (suc (suc f)) rest s h ready =
      rw
        (
          encode-sequence_append xs rest,
          item_list f (encode_terms xs ++ b'e' ∷ rest) s ready.0,
          reads_terms xs fits f rest nil (grown s 1 1) (omega (arith, length-encode_sequence xs))
              ready,
        )
        (ground arith)
  reads_item (mapping ps) fits (suc zero) rest s h ready = absurd (omega arith)
  reads_item (mapping ps) fits (suc (suc f)) rest s h ready =
      rw
        (
          encode-mapping_append ps rest,
          item_dict f (encode_pairs ps ++ b'e' ∷ rest) s ready.0,
          reads_pairs ps fits f rest end (grown s 1 1) (omega (arith, length-encode_mapping ps))
              ready,
        )
        (ground arith)

  reads_terms : (xs : Terms) → FitsTerms xs → ReadsTerms xs
  reads_terms xs fits zero rest ret s h ready = absurd (omega arith)
  reads_terms no_terms fits (suc f) rest ret s h ready = list_loop_none f rest ret s
  reads_terms (term t xs) fits (suc f) rest ret s h ready =
      rw
        (
          encode-term_append t xs (b'e' ∷ rest),
          list_loop_term t (reads_item t fits.0) f _ ret s (omega (arith, length-encode_term t xs))
              ready,
          reads_terms xs fits.1 f rest _ (grown s _ _) (omega (arith, length-encode_term t xs))
              ready,
        )
        (rw (list_append-add_tail (object t) ret (objects xs)) (ground arith))

  reads_pairs : (ps : Pairs) → FitsPairs ps → ReadsPairs ps
  reads_pairs ps fits zero rest ret s h ready = absurd (omega arith)
  reads_pairs no_pairs fits (suc f) rest ret s h ready = dict_loop_none f rest ret s
  reads_pairs (pair k t ps) fits (suc zero) rest ret s h ready = absurd (omega arith)
  reads_pairs (pair k t ps) fits (suc (suc f)) rest ret s h ready =
      rw
        (
          encode-pair_append k t ps (b'e' ∷ rest),
          dict_loop_pair t (reads_item t fits.1) f k _ ret s fits.0
              (omega (arith, length-encode_pair k t ps)) ready,
          reads_pairs ps fits.2 f rest _ (grown s _ _) (omega (arith, length-encode_pair k t ps))
              ready,
        )
        (rw (dict_append-add_tail (entry_key (k ++ 0 ∷ [])) (object t) ret (fields ps))
          (ground arith))

-- From an allocator that never refuses and a zero errno, b_list_parse reads a printed list off the
-- front of any input: it returns the position behind the list, the fresh list holds the objects of
-- the printed terms in order, errno stays 0, and exactly the blocks of those objects are allocated.
-- Fuel above three times the length of the print is enough.
pub b_list_parse-encode :
    (xs : Terms) (f : ℕ) (rest : Bytes) (s : Process)
    → FitsTerms xs
    → 3 * length (encode (sequence xs)) < f
    → Plenty s
    → s.errno ≡ 0
    → b_list_parse f (encode (sequence xs) ++ rest) nil s
      ≡ next (objects xs) rest (grown s (mallocs_terms xs) (list_blocks (objects xs)))
unfolding b_list_parse
b_list_parse-encode xs zero rest s fits h p e = absurd (omega arith)
b_list_parse-encode xs (suc f) rest s fits h p e =
    rw encode-sequence_append
      (reads_terms xs fits f rest nil s (omega (arith, length-encode_sequence xs)) (p, e))

-- From an allocator that never refuses and a zero errno, b_dict_parse reads a printed dictionary
-- off the front of any input: the fresh dictionary holds, in order, the objects of the printed
-- terms under the first 128 bytes of their keys, up to a NUL; the keys' own strings have been
-- released, and errno stays 0. Fuel above three times the length of the print is enough.
pub b_dict_parse-encode :
    (ps : Pairs) (f : ℕ) (rest : Bytes) (s : Process)
    → FitsPairs ps
    → 3 * length (encode (mapping ps)) < f
    → Plenty s
    → s.errno ≡ 0
    → b_dict_parse f (encode (mapping ps) ++ rest) end s
      ≡ next (fields ps) rest (grown s (mallocs_pairs ps) (dict_blocks (fields ps)))
unfolding b_dict_parse
b_dict_parse-encode ps zero rest s fits h p e = absurd (omega arith)
b_dict_parse-encode ps (suc f) rest s fits h p e =
    rw encode-mapping_append
      (reads_pairs ps fits f rest end s (omega (arith, length-encode_mapping ps)) (p, e))
