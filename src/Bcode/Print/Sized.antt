-- ===== src/Bcode/Print/Sized.antt =====
-- When the print functions of src/b_parse.c are defined on objects within bounds.
use bt_server.Common.{
  ℕ, ◌+◌, ◌≡◌, ◌↔◌, refl, Bool, true, false, ltb, Option, none, some, List, [], ◌∷◌, IsSome,
  is_some, drop, length,
}
use bt_server.Libc.{Bytes, c_str}
use bt_server.Bcode.{BString, Value, BList, BDict, nil, cons, end, entry}
use bt_server.Bcode.Entries.{type_of, key_len}
use bt_server.Bcode.Scalars.{string_data}
use bt_server.Bcode.Bounds.Scalars.{BlockHolds}
use bt_server.Bcode.Bounds.Objects.{Sized, ListSized, DictSized}
use bt_server.Bcode.Print.{
  list_begin, list_end, dict_begin, dict_end, before, within, string_line, string_fits,
  b_string_print, b_int_print, l_entry_print, d_entry_print, entries_print, d_entries_print,
  b_list_print,
}

no_lines : {A : Type 0} → IsSome {A = A} none → ⊥
no_lines h = elim h [ ]

pub single-IsSome : {A : Type 0} (l : A) → IsSome (some (l ∷ []))
single-IsSome l = is_some

pub before-IsSome :
    {A : Type 0} {P Q : Type 0} (x y : Option (List A))
    → IsSome x ↔ P
    → IsSome y ↔ Q
    → IsSome (before x y) ↔ P × Q
before-IsSome (some xs) (some ys) (a, b) (c, d) = ((λ h. (a is_some, c is_some)), (λ h. is_some))
before-IsSome (some xs) none (a, b) (c, d) =
    ((λ h. absurd (no_lines h)), (λ h. absurd (no_lines (d h.1))))
before-IsSome none y (a, b) (c, d) = ((λ h. absurd (no_lines h)), (λ h. absurd (no_lines (b h.0))))

-- Behind lines that are always shown
pub behind-IsSome :
    {A : Type 0} {Q : Type 0} (x y : Option (List A))
    → IsSome x
    → IsSome y ↔ Q
    → IsSome (before x y) ↔ Q
behind-IsSome (some xs) (some ys) h (c, d) = ((λ i. c is_some), (λ q. is_some))
behind-IsSome (some xs) none h (c, d) = (c, d)
behind-IsSome none y h e = absurd (no_lines h)

-- In front of lines that are always shown
pub ahead-IsSome :
    {A : Type 0} {Q : Type 0} (x y : Option (List A))
    → IsSome y
    → IsSome x ↔ Q
    → IsSome (before x y) ↔ Q
ahead-IsSome (some xs) (some ys) h (c, d) = ((λ i. c is_some), (λ q. is_some))
ahead-IsSome none (some ys) h (c, d) = (c, d)
ahead-IsSome x none h e = absurd (no_lines h)

pub within-IsSome : {A : Type 0} (t : Bool) (a : A) → IsSome (within t (some a)) ↔ (t ≡ true)
within-IsSome true a = ((λ h. refl), (λ h. is_some))
within-IsSome false a = ((λ h. absurd (no_lines h)), (λ h. absurd (cc h)))

-- The string with its line fits the buffer of print_msg.
abbrev pub StringShort : BString → Type 0
StringShort t = string_fits (c_str (string_data t)) ≡ true

-- All strings fit, and all keys have a NUL in their 128 bytes.
abbrev mutual
  pub Short : Value → Type 0
  Short (Value.list xs) = ListShort xs
  Short (Value.int n) = Unit
  Short (Value.string t) = StringShort t
  Short (Value.dict d) = DictShort d
  Short (Value.taken t) = Unit

  pub ListShort : BList → Type 0
  ListShort nil = Unit
  ListShort (cons v xs) = Short v × ListShort xs

  pub DictShort : BDict → Type 0
  DictShort end = Unit
  DictShort (entry k v d) = ((ltb (length k) key_len ≡ true) × Short v) × DictShort d

string_print-IsSome :
    (head : Option Bytes) (off len : ℕ)
    → BlockHolds head (record { head = head; off = off; len = len })
    → IsSome (b_string_print (record { head = head; off = off; len = len }))
      ↔ StringShort (record { head = head; off = off; len = len })
unfolding b_string_print string_data
string_print-IsSome none off len h = absurd h
string_print-IsSome (some block) off len h =
    within-IsSome (string_fits (c_str (drop off block))) (string_line (c_str (drop off block)) ∷ [])

mutual
  unfolding b_int_print type_of l_entry_print

  l_entry-IsSome : (v : Value) → Sized v → IsSome (l_entry_print v) ↔ Short v
  l_entry-IsSome (Value.list xs) h =
      behind-IsSome _ _ (single-IsSome list_begin)
        (ahead-IsSome _ _ (single-IsSome list_end) (entries-IsSome xs h))
  l_entry-IsSome (Value.int n) h = ((λ _. tt), (λ _. is_some))
  l_entry-IsSome (Value.string t) h = string_print-IsSome t.head t.off t.len h.1
  l_entry-IsSome (Value.dict d) h =
      behind-IsSome _ _ (single-IsSome dict_begin)
        (ahead-IsSome _ _ (single-IsSome dict_end) (d_entries-IsSome 0 d h))
  l_entry-IsSome (Value.taken t) h = absurd h

  d_entry-IsSome : (v : Value) → Sized v → IsSome (d_entry_print v) ↔ Short v
  d_entry-IsSome (Value.list xs) h =
      behind-IsSome _ _ (single-IsSome list_begin)
        (ahead-IsSome _ _ (single-IsSome list_end) (entries-IsSome xs h))
  d_entry-IsSome (Value.int n) h = ((λ _. tt), (λ _. is_some))
  d_entry-IsSome (Value.string t) h = string_print-IsSome t.head t.off t.len h.1
  d_entry-IsSome (Value.dict d) h =
      behind-IsSome _ _ (single-IsSome dict_begin)
        (ahead-IsSome _ _ (single-IsSome dict_end) (d_entries-IsSome 0 d h))
  d_entry-IsSome (Value.taken t) h = absurd h

  entries-IsSome : (xs : BList) → ListSized xs → IsSome (entries_print xs) ↔ ListShort xs
  entries-IsSome nil h = ((λ _. tt), (λ _. is_some))
  entries-IsSome (cons v xs) (a, b) = before-IsSome _ _ (l_entry-IsSome v a) (entries-IsSome xs b)

  d_entries-IsSome : (i : ℕ) (d : BDict) → DictSized d → IsSome (d_entries_print i d) ↔ DictShort d
  d_entries-IsSome i end h = ((λ _. tt), (λ _. is_some))
  d_entries-IsSome i (entry k v d) (a, b, c) =
      before-IsSome _ _
        (before-IsSome _ _ (within-IsSome (ltb (length k) key_len) _) (d_entry-IsSome v b))
        (d_entries-IsSome (i + 1) d c)

pub b_list_print-IsSome : (xs : BList) → ListSized xs → IsSome (b_list_print xs) ↔ ListShort xs
unfolding b_list_print
b_list_print-IsSome xs h =
    behind-IsSome _ _ (single-IsSome list_begin)
      (ahead-IsSome _ _ (single-IsSome list_end) (entries-IsSome xs h))
