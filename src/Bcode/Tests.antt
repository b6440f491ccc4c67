-- ===== src/Bcode/Tests.antt =====
-- Runs of the parsers on the inputs of the unit tests in src/b_parse.c, and the theorems on them
-- at work.
use bt_server.Common.{
  zero, suc, ℕ, All, replicate, none, true, [], ◌∷◌, ◌≡◌, refl, some, ◌++◌, arith,
}
use bt_server.Bcode.{Process, next, nil, end, null, fault}
use bt_server.Bcode.Objects.{empty_string}
use bt_server.Bcode.Scalars.{b_string_parse, b_int_parse}
use bt_server.Bcode.Parse.{b_list_parse, b_dict_parse}
use bt_server.Bcode.Blocks.{list_blocks, dict_blocks}
use bt_server.Bcode.Encode.{
  decimal, Terms, Pairs, text, number, sequence, mapping, no_terms, term, no_pairs, pair, encode,
  objects, fields, FitsPairs,
}
use bt_server.Bcode.Overflow.{b_string_parse-format_error}
use bt_server.Bcode.Decimal.{Passes}
use bt_server.Bcode.Entries.{entry_key}
use bt_server.Libc.{c_str}
use bt_server.Bcode.Print.{
  within, b_list_print, b_dict_print, list_begin, list_end, dict_begin, dict_end,
}
use bt_server.Bcode.Print.Report.{
  short_terms, short_pairs, report_terms, report_pairs, b_list_print-objects,
}
use bt_server.Bcode.Wide.{b_int_parse_wide}
use bt_server.Bcode.Malformed.{b_string_parse-overread, zero-stale_errno}
use bt_server.Bcode.RoundTrip.{b_list_parse-encode, b_dict_parse-encode}
use bt_server.Bcode.RoundTrip.Rounds.{mallocs_terms, mallocs_pairs}
use bt_server.Bcode.RoundTrip.Scalars.{grown}
use bt_server.Bcode.Start.{codes, start, start-Plenty}

-- {id: 12121212, name: tristan}
abbrev people : Pairs
people = pair (codes "id") (number 12121212) (pair (codes "name") (text (codes "tristan")) no_pairs)

abbrev mixed : Terms
mixed = term (mapping people) (term (number 123123) (term (text (codes "ab")) no_terms))

people-Fits : FitsPairs people
people-Fits = (omega arith, omega arith, (omega arith, omega arith, tt))

encode-people : encode (mapping people) ≡ codes "d2:idi12121212e4:name7:tristane"
unfolding encode
encode-people = refl

b_list_parse-encode_example :
    b_list_parse 500 (encode (sequence mixed) ++ codes "e") nil (start 0)
    ≡ next
        (objects mixed)
        (codes "e")
        (grown (start 0) (mallocs_terms mixed) (list_blocks (objects mixed)))
unfolding encode
b_list_parse-encode_example =
    b_list_parse-encode mixed 500 (codes "e") (start 0)
      (people-Fits, (omega arith, (omega arith, tt))) (omega arith) (start-Plenty 0) refl

b_dict_parse-encode_example :
    b_dict_parse 500 (encode (mapping people) ++ codes "e") end (start 0)
    ≡ next
        (fields people)
        (codes "e")
        (grown (start 0) (mallocs_pairs people) (dict_blocks (fields people)))
unfolding encode
b_dict_parse-encode_example =
    b_dict_parse-encode people 500 (codes "e") (start 0) people-Fits (omega arith) (start-Plenty 0)
      refl

b_string_parse-overread_example :
    (b_string_parse (decimal 9 ++ b':' ∷ codes "spam") empty_string (start 0) ≡ fault)
    × (b_string_parse (b'-' ∷ decimal 1 ++ b':' ∷ codes "spam") empty_string (start 0) ≡ fault)
b_string_parse-overread_example =
    b_string_parse-overread 9 1 (codes "spam") (start 0) (omega arith) (omega arith) (omega arith)
      (omega arith) refl

-- ERANGE is left behind.
abbrev stale : Process
stale = record (start 0) { errno = 34 }

zero-stale_errno_example :
    (b_string_parse (b'0' ∷ b':' ∷ codes "4:spam") empty_string stale ≡ null empty_string stale)
    × (b_int_parse (b'i' ∷ b'0' ∷ b'e' ∷ codes "4:spam") (record { val = 7 }) stale
        ≡ null (record { val = 0 }) stale)
zero-stale_errno_example =
    zero-stale_errno (codes "4:spam") empty_string (record { val = 7 }) stale
      (λ q. absurd (omega arith))

b_list_print-objects_example :
    (b_list_print (objects mixed)
      ≡ within (short_terms mixed) (some (list_begin ∷ report_terms mixed ++ list_end ∷ [])))
    × (b_dict_print (fields people)
        ≡ within (short_pairs people) (some (dict_begin ∷ report_pairs 0 people ++ dict_end ∷ [])))
b_list_print-objects_example = b_list_print-objects mixed people

-- A key of 128 bytes has no NUL in its array; one of 127 bytes has.
key_unended : b_dict_print (fields (pair (replicate 128 97) (number 1) no_pairs)) ≡ none
unfolding b_dict_print fields
key_unended = refl

key_ended : short_pairs (pair (replicate 127 97) (number 1) no_pairs) ≡ true
unfolding entry_key c_str
key_ended = refl

All-replicate : (c x n : ℕ) → Passes c x → All (Passes c) (replicate n x)
All-replicate c x zero h = tt
All-replicate c x (suc n) h = (h, All-replicate c x n h)

-- 2000 bytes without a colon, and a number that does not end.
b_string_parse-format_error_example :
    (b_string_parse (replicate 2000 97 ++ 0 ∷ []) empty_string (start 0) ≡ fault)
    × (b_int_parse (codes "i12" ++ 0 ∷ []) (record { val = 0 }) (start 0)
        ≡ null (record { val = 0 }) (start 0))
b_string_parse-format_error_example =
    b_string_parse-format_error (replicate 2000 97) (codes "i12") [] empty_string
      (record { val = 0 }) (start 0)
      (All-replicate b':' 97 2000 (λ e. absurd (omega arith), λ e. absurd (omega arith)))
      (ground arith)

-- 2^32 + 7 is read as 7, and 20 digits fill the array.
b_int_parse_wide_example :
    (b_int_parse (b'i' ∷ decimal 4294967303 ++ b'e' ∷ codes "e") (record { val = 0 }) (start 0)
      ≡ next (record { val = 7 }) (codes "e") (start 0))
    × (b_int_parse
          (b'i' ∷ codes "00000000000000000001" ++ b'e' ∷ codes "e")
          (record { val = 0 })
          (start 0)
        ≡ fault)
b_int_parse_wide_example =
    b_int_parse_wide 4294967303 (codes "00000000000000000001") (codes "e") (record { val = 0 })
      (start 0) (omega arith) refl (ground arith) (omega arith) (omega arith)
