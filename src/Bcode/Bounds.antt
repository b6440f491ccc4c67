-- ===== src/Bcode/Bounds.antt =====
-- What holds of every object that the parsers of src/b_parse.c build, whatever the buffer and the
-- allocator.
pub mod Scalars
pub mod Objects
use bt_server.Common.{
  ℕ, zero, suc, ◌≤◌, ◌≡◌, refl, inl, inr, Bool, true, false, Option, none, some, [], ◌∷◌, ◌==◌,
  if◌then◌else◌, Bool-cases,
}
use bt_server.Libc.{Bytes}
use bt_server.Bcode.{
  BString, Value, BList, BDict, nil, cons, end, entry, Process, Outcome, next, null, fault, spin,
  returned,
}
use bt_server.Bcode.Objects.{
  sizeof_b_int, sizeof_b_string, empty_string, alloc, malloc, b_string_alloc, b_int_alloc,
  b_string_free, b_int_free,
}
use bt_server.Bcode.Entries.{
  sizeof_b_list, sizeof_b_dict, b_list_alloc, b_dict_alloc, b_list_add, b_dict_add, list_add_tail,
  dict_add_tail, entry_key, known_type, type_of, l_entry_alloc, d_entry_alloc,
}
use bt_server.Bcode.Free.{b_list_free, b_dict_free}
use bt_server.Bcode.Scalars.{
  b_int_parse, allocated, int_item, string_item, b_string_parse, string_data,
}
use bt_server.Bcode.Parse.{
  b_list_parse, list_loop, item, b_dict_parse, dict_loop, dict_round, added, added_key, keyed,
}
use Objects.{ListSized, DictSized, ItemSized, added-Sized, added_key-Sized}
use Scalars.{
  Yields, got, missed, over, spun, Yields-returned, Yields-if, StringSized, IntSized, KeySized,
  Anything, b_string_parse-Yields, b_int_parse-Yields, entry_key-KeySized,
}

abbrev Made : {A : Type 0} → (A → Type 0) → Option A → Type 0
Made P none = Unit
Made P (some a) = P a

alloc-Made :
    {A : Type 0} (P : A → Type 0) (size : ℕ) (a : A) (s : Process) → P a → Made P (alloc size a s).0
unfolding alloc malloc
alloc-Made P size a s p = elim (Bool-cases (s.grant s.calls size)) [
  | inl e ↦ rw (e, alloc) p
  | inr e ↦ rw (e, alloc) tt
]

allocated-Yields :
    {A : Type 0} (P : A → Type 0) (r : Option A × Process) (p : Bytes)
    (k : A → Process → Outcome (Option Value))
    → Made P r.0
    → ((a : A) (s : Process) → P a → Yields ItemSized Anything (k a s))
    → Yields ItemSized Anything (allocated r p k)
allocated-Yields P (none, s) p k m h = got tt
allocated-Yields P (some a, s) p k m h = h a s m

keyed-Yields :
    (r : Option BString × Process) (ret : BDict) (k : BString → Process → Outcome BDict)
    → DictSized ret
    → ((new : BString) (s : Process) → Yields DictSized DictSized (k new s))
    → Yields DictSized DictSized (keyed r ret k)
keyed-Yields (none, s) ret k d h = missed d
keyed-Yields (some new, s) ret k d h = h new s

int_item-Yields : (p : Bytes) (s : Process) → Yields ItemSized Anything (int_item p s)
unfolding int_item b_int_alloc
int_item-Yields p s =
    allocated-Yields Anything (b_int_alloc s) p
      (λ new s₁.
        returned (b_int_parse p new s₁) (λ n q s₂. next (some (Value.int n)) q s₂)
          (λ n s₂. null none (b_int_free (some n) s₂)))
      (alloc-Made Anything sizeof_b_int (record { val = 0 }) s tt)
      (λ new s₁ _.
        Yields-returned (b_int_parse-Yields p new s₁) (λ n q s₂ h. got h) (λ n s₂ h. missed tt))

string_item-Yields : (p : Bytes) (s : Process) → Yields ItemSized Anything (string_item p s)
unfolding string_item b_string_alloc
string_item-Yields p s =
    allocated-Yields Anything (b_string_alloc s) p
      (λ new s₁.
        returned (b_string_parse p new s₁) (λ t q s₂. next (some (Value.string t)) q s₂)
          (λ t s₂. null none (b_string_free (some t) s₂)))
      (alloc-Made Anything sizeof_b_string empty_string s tt)
      (λ new s₁ _.
        Yields-returned (b_string_parse-Yields p new s₁) (λ t q s₂ h. got h) (λ t s₂ h. missed tt))

mutual
  unfolding b_list_parse b_list_alloc b_dict_alloc

  list_parse-Yields :
      (f : ℕ) (buf : Bytes) (ret : BList) (s : Process)
      → ListSized ret
      → Yields ListSized ListSized (b_list_parse f buf ret s)
  list_parse-Yields zero buf ret s h = spun
  list_parse-Yields (suc f) [] ret s h = over
  list_parse-Yields (suc f) (c ∷ p) ret s h =
      Yields-if (c == b'l') (list_loop-Yields f p ret s h) (missed h)

  list_loop-Yields :
      (f : ℕ) (buf : Bytes) (ret : BList) (s : Process)
      → ListSized ret
      → Yields ListSized ListSized (list_loop f buf ret s)
  list_loop-Yields zero p ret s h = spun
  list_loop-Yields (suc f) [] ret s h = over
  list_loop-Yields (suc f) (c ∷ p) ret s h = Yields-if (c == b'e') (got h) (
      Yields-returned (item-Yields f (c ∷ p) s)
        (λ v q s₁ k. list_loop-Yields f q _ _ (added-Sized v ret s₁ k h)) (λ v s₁ k. missed h))

  item-Yields : (f : ℕ) (buf : Bytes) (s : Process) → Yields ItemSized Anything (item f buf s)
  item-Yields zero p s = spun
  item-Yields (suc f) [] s = over
  item-Yields (suc f) (c ∷ cs) s =
      Yields-if (c == b'l')
        (allocated-Yields ListSized (b_list_alloc s) (c ∷ cs)
          (λ new s₁.
            returned (b_list_parse f (c ∷ cs) new s₁) (λ xs q s₂. next (some (Value.list xs)) q s₂)
              (λ xs s₂. null none (b_list_free (some xs) s₂)))
          (alloc-Made ListSized sizeof_b_list nil s tt)
          (λ new s₁ h.
            Yields-returned (list_parse-Yields f (c ∷ cs) new s₁ h) (λ xs q s₂ k. got k)
              (λ xs s₂ k. missed tt)))
        (Yields-if (c == b'i') (int_item-Yields (c ∷ cs) s) (
          Yields-if (c == b'd')
            (allocated-Yields DictSized (b_dict_alloc s) (c ∷ cs)
              (λ new s₁.
                returned (b_dict_parse f (c ∷ cs) new s₁)
                  (λ d q s₂. next (some (Value.dict d)) q s₂)
                  (λ d s₂. null none (b_dict_free (some d) s₂)))
              (alloc-Made DictSized sizeof_b_dict end s tt)
              (λ new s₁ h.
                Yields-returned (dict_parse-Yields f (c ∷ cs) new s₁ h) (λ d q s₂ k. got k)
                  (λ d s₂ k. missed tt)))
            (string_item-Yields (c ∷ cs) s)))

  dict_parse-Yields :
      (f : ℕ) (buf : Bytes) (ret : BDict) (s : Process)
      → DictSized ret
      → Yields DictSized DictSized (b_dict_parse f buf ret s)
  dict_parse-Yields zero buf ret s h = spun
  dict_parse-Yields (suc f) [] ret s h = over
  dict_parse-Yields (suc f) (c ∷ p) ret s h =
      Yields-if (c == b'd') (dict_loop-Yields f p ret s h) (missed h)

  dict_loop-Yields :
      (f : ℕ) (buf : Bytes) (ret : BDict) (s : Process)
      → DictSized ret
      → Yields DictSized DictSized (dict_loop f buf ret s)
  dict_loop-Yields zero p ret s h = spun
  dict_loop-Yields (suc f) [] ret s h = over
  dict_loop-Yields (suc f) (c ∷ p) ret s h = Yields-if (c == b'e') (got h) (
      keyed-Yields (b_string_alloc s) ret
        (λ new s₁.
          returned (b_string_parse (c ∷ p) new s₁) (λ key q s₂. dict_round f key q ret s₂)
            (λ key s₂. null ret (b_string_free (some key) s₂)))
        h
        (λ new s₁.
          Yields-returned (b_string_parse-Yields (c ∷ p) new s₁)
            (λ key q s₂ _. dict_round-Yields f key q ret s₂ h) (λ key s₂ _. missed h)))

  dict_round-Yields :
      (f : ℕ) (key : BString) (buf : Bytes) (ret : BDict) (s : Process)
      → DictSized ret
      → Yields DictSized DictSized (dict_round f key buf ret s)
  dict_round-Yields zero key q ret s h = spun
  dict_round-Yields (suc f) key q ret s h =
      Yields-returned (item-Yields f q s)
        (λ v r s₁ k. dict_loop-Yields f r _ _ (added_key-Sized v (string_data key) ret s₁ k h))
        (λ v s₁ k. missed h)

-- Whatever the buffers, the fuel and the allocator, where b_list_parse returns a position or NULL the
-- list it was given holds only objects within bounds, if it did so before, and the same goes for
-- b_dict_parse and its dictionary: integers and the lengths of strings are below 2^32, every string
-- lies in its block with a byte behind it, keys have at most 128 bytes and no NUL among them, and no
-- pointer is NULL.
pub b_list_parse_bounds :
    (f : ℕ) (list_buf dict_buf : Bytes) (xs : BList) (d : BDict) (s : Process)
    → ListSized xs
    → DictSized d
    → Yields ListSized ListSized (b_list_parse f list_buf xs s)
      × Yields DictSized DictSized (b_dict_parse f dict_buf d s)
b_list_parse_bounds f list_buf dict_buf xs d s h k =
    (list_parse-Yields f list_buf xs s h, dict_parse-Yields f dict_buf d s k)
