-- ===== src/Bcode/Print/Report.antt =====
-- What the print functions of src/b_parse.c show of parsed terms.
use bt_server.Common.{
  ℕ, ◌+◌, ◌≡◌, refl, sym, ◌∙◌, ap, Bool, true, false, ◌&&◌, ltb, length, Option, some, List, [],
  ◌∷◌, ◌++◌,
}
use bt_server.Libc.{Bytes, c_str}
use bt_server.Bcode.{Value, BDict, entry}
use bt_server.Bcode.Entries.{entry_key, type_of}
use bt_server.Bcode.Encode.{
  Term, Terms, Pairs, text, number, sequence, mapping, no_terms, term, no_pairs, pair, of_bytes,
  object, objects, fields,
}
use bt_server.Bcode.Print.{
  within, before, list_lines, dict_lines, string_fits, Line, list_begin, list_end, dict_begin,
  dict_end, key_line, string_line, int_line, signed, b_string_print, b_int_print, b_list_print,
  b_dict_print, l_entry_print, d_entry_print, entries_print, d_entries_print,
}

-- The letter of a term's kind.
abbrev pub kind : Term → ℕ
kind (text bs) = b's'
kind (number n) = b'i'
kind (sequence xs) = b'l'
kind (mapping ps) = b'd'

-- A term line by line: strings up to a NUL, numbers as signed ones, keys counted from `i`.
abbrev mutual
  pub report : Term → List Line
  report (text bs) = string_line (c_str (bs ++ 0 ∷ [])) ∷ []
  report (number n) = int_line (signed n) ∷ []
  report (sequence xs) = list_begin ∷ report_terms xs ++ list_end ∷ []
  report (mapping ps) = dict_begin ∷ report_pairs 0 ps ++ dict_end ∷ []

  pub report_terms : Terms → List Line
  report_terms no_terms = []
  report_terms (term t xs) = report t ++ report_terms xs

  pub report_pairs : ℕ → Pairs → List Line
  report_pairs i no_pairs = []
  report_pairs i (pair k t ps) =
      (key_line i (kind t) (entry_key (k ++ 0 ∷ [])) ∷ report t) ++ report_pairs (i + 1) ps

-- What print_msg has room for: strings with their line, and keys with a NUL in their 128 bytes.
abbrev mutual
  pub short : Term → Bool
  short (text bs) = string_fits (c_str (bs ++ 0 ∷ []))
  short (number n) = true
  short (sequence xs) = short_terms xs
  short (mapping ps) = short_pairs ps

  pub short_terms : Terms → Bool
  short_terms no_terms = true
  short_terms (term t xs) = short t && short_terms xs

  pub short_pairs : Pairs → Bool
  short_pairs no_pairs = true
  short_pairs (pair k t ps) =
      (ltb (length (entry_key (k ++ 0 ∷ []))) 128 && short t) && short_pairs ps

type_of-object : (t : Term) → type_of (object t) ≡ kind t
unfolding type_of object
type_of-object (text bs) = refl
type_of-object (number n) = refl
type_of-object (sequence xs) = refl
type_of-object (mapping ps) = refl

together :
    {A : Type 0} (a b : Bool) (xs ys : List A)
    → before (within a (some xs)) (within b (some ys)) ≡ within (a && b) (some (xs ++ ys))
together true true xs ys = refl
together true false xs ys = refl
together false b xs ys = refl

list_shown :
    (a : Bool) (ls : List Line)
    → list_lines (within a (some ls)) ≡ within a (some (list_begin ∷ ls ++ list_end ∷ []))
list_shown true ls = refl
list_shown false ls = refl

dict_shown :
    (a : Bool) (ls : List Line)
    → dict_lines (within a (some ls)) ≡ within a (some (dict_begin ∷ ls ++ dict_end ∷ []))
dict_shown true ls = refl
dict_shown false ls = refl

pair_together :
    {A : Type 0} (x y : Option (List A)) (a b : Bool) (xs ys : List A)
    → x ≡ within a (some xs)
    → y ≡ within b (some ys)
    → before x y ≡ within (a && b) (some (xs ++ ys))
pair_together x y a b xs ys h g =
    ap (λ z. before z y) h ∙ ap (before (within a (some xs))) g ∙ together a b xs ys

entry_shown :
    (i : ℕ) (k : Bytes) (v : Value) (d : BDict) (a b : Bool) (ls ms : List Line)
    → d_entry_print v ≡ within a (some ls)
    → d_entries_print (i + 1) d ≡ within b (some ms)
    → d_entries_print i (entry k v d)
      ≡ within ((ltb (length k) 128 && a) && b) (some ((key_line i (type_of v) k ∷ ls) ++ ms))
unfolding d_entries_print
entry_shown i k v d a b ls ms h g =
    pair_together _ _ (ltb (length k) 128 && a) b (key_line i (type_of v) k ∷ ls) ms
      (pair_together _ _ (ltb (length k) 128) a (key_line i (type_of v) k ∷ []) ls refl h) g

mutual
  unfolding entries_print object b_string_print b_int_print of_bytes

  l_shown : (t : Term) → l_entry_print (object t) ≡ within (short t) (some (report t))
  l_shown (text bs) = refl
  l_shown (number n) = refl
  l_shown (sequence xs) =
      ap list_lines (terms_shown xs) ∙ list_shown (short_terms xs) (report_terms xs)
  l_shown (mapping ps) =
      ap dict_lines (pairs_shown 0 ps) ∙ dict_shown (short_pairs ps) (report_pairs 0 ps)

  d_shown : (t : Term) → d_entry_print (object t) ≡ within (short t) (some (report t))
  d_shown (text bs) = refl
  d_shown (number n) = refl
  d_shown (sequence xs) =
      ap list_lines (terms_shown xs) ∙ list_shown (short_terms xs) (report_terms xs)
  d_shown (mapping ps) =
      ap dict_lines (pairs_shown 0 ps) ∙ dict_shown (short_pairs ps) (report_pairs 0 ps)

  terms_shown :
      (xs : Terms) → entries_print (objects xs) ≡ within (short_terms xs) (some (report_terms xs))
  terms_shown no_terms = refl
  terms_shown (term t xs) =
      pair_together _ _ (short t) (short_terms xs) (report t) (report_terms xs) (l_shown t)
        (terms_shown xs)

  pairs_shown :
      (i : ℕ) (ps : Pairs)
      → d_entries_print i (fields ps) ≡ within (short_pairs ps) (some (report_pairs i ps))
  pairs_shown i no_pairs = refl
  pairs_shown i (pair k t ps) = rw (sym (type_of-object t)) (
      entry_shown i (entry_key (k ++ 0 ∷ [])) (object t) (fields ps) (short t) (short_pairs ps)
        (report t) (report_pairs (i + 1) ps) (d_shown t) (pairs_shown (i + 1) ps))

-- b_list_print and b_dict_print show the objects of any terms line by line as the terms are, in order,
-- with each key's index and the kind of its value; strings end at a NUL, and numbers from 2^31 on show
-- as negative ones. It is undefined just where a string does not fit the buffer of print_msg with the
-- rest of its message, or a key leaves no room for a NUL in its 128 bytes.
pub b_list_print-objects :
    (xs : Terms) (ps : Pairs)
    → (b_list_print (objects xs)
        ≡ within (short_terms xs) (some (list_begin ∷ report_terms xs ++ list_end ∷ [])))
      × (b_dict_print (fields ps)
          ≡ within (short_pairs ps) (some (dict_begin ∷ report_pairs 0 ps ++ dict_end ∷ [])))
unfolding b_list_print b_dict_print
b_list_print-objects xs ps = (
  ap list_lines (terms_shown xs) ∙ list_shown (short_terms xs) (report_terms xs),
  ap dict_lines (pairs_shown 0 ps) ∙ dict_shown (short_pairs ps) (report_pairs 0 ps),
)
