-- ===== src/Bcode/Bounds/Objects.antt =====
-- Bounds of the objects in lists and dictionaries, and the adds of src/b_parse.c.
use bt_server.Common.{inl, inr, Bool, true, false, Option, none, some, if◌then◌else◌, Bool-cases}
use bt_server.Libc.{Bytes}
use bt_server.Bcode.{Value, BList, BDict, nil, cons, end, entry, Process}
use bt_server.Bcode.Objects.{alloc, malloc}
use bt_server.Bcode.Entries.{
  b_list_add, b_dict_add, list_add_tail, dict_add_tail, entry_key, known_type, type_of,
  l_entry_alloc, d_entry_alloc,
}
use bt_server.Bcode.Parse.{added, added_key}
use bt_server.Bcode.Bounds.Scalars.{StringSized, IntSized, KeySized, entry_key-KeySized}

-- Numbers and lengths are those of an `unsigned int`, strings lie in their blocks with a byte behind
-- them, keys have at most 128 bytes and no NUL, and no object is missing.
abbrev mutual
  pub Sized : Value → Type 0
  Sized (Value.list xs) = ListSized xs
  Sized (Value.int n) = IntSized n
  Sized (Value.string t) = StringSized t
  Sized (Value.dict d) = DictSized d
  Sized (Value.taken t) = ⊥

  pub ListSized : BList → Type 0
  ListSized nil = Unit
  ListSized (cons v xs) = Sized v × ListSized xs

  pub DictSized : BDict → Type 0
  DictSized end = Unit
  DictSized (entry k v d) = KeySized k × Sized v × DictSized d

-- The object at the cursor, if there was memory for it.
abbrev pub ItemSized : Option Value → Type 0
ItemSized none = Unit
ItemSized (some v) = Sized v

list_add_tail-Sized :
    (v : Value) (xs : BList) → Sized v → ListSized xs → ListSized (list_add_tail v xs)
unfolding list_add_tail
list_add_tail-Sized v nil p h = (p, tt)
list_add_tail-Sized v (cons w xs) p (q, h) = (q, list_add_tail-Sized v xs p h)

dict_add_tail-Sized :
    (k : Bytes) (v : Value) (d : BDict)
    → KeySized k
    → Sized v
    → DictSized d
    → DictSized (dict_add_tail k v d)
unfolding dict_add_tail
dict_add_tail-Sized k v end k' p h = (k', p, tt)
dict_add_tail-Sized k v (entry j w d) k' p (j', q, h) = (j', q, dict_add_tail-Sized k v d k' p h)

chosen_list :
    (t : Bool) (xs ys : BList) → ListSized xs → ListSized ys → ListSized (if t then xs else ys)
chosen_list true xs ys p q = p
chosen_list false xs ys p q = q

chosen_dict : (t : Bool) (c d : BDict) → DictSized c → DictSized d → DictSized (if t then c else d)
chosen_dict true c d p q = p
chosen_dict false c d p q = q

pub added-Sized :
    (v : Option Value) (xs : BList) (s : Process)
    → ItemSized v
    → ListSized xs
    → ListSized (added xs v s).0
unfolding b_list_add l_entry_alloc alloc malloc
added-Sized none xs s p h = h
added-Sized (some v) xs s p h = elim (Bool-cases (s.grant s.calls 32)) [
  | inl e ↦
      rw (e, b_list_add) (chosen_list (known_type (type_of v)) _ _ (list_add_tail-Sized v xs p h) h)
  | inr e ↦ rw (e, b_list_add) h
]

pub added_key-Sized :
    (v : Option Value) (key : Bytes) (d : BDict) (s : Process)
    → ItemSized v
    → DictSized d
    → DictSized (added_key d key v s).0
unfolding b_dict_add d_entry_alloc alloc malloc
added_key-Sized none key d s p h = h
added_key-Sized (some v) key d s p h = elim (Bool-cases (s.grant s.calls 160)) [
  | inl e ↦
      rw (e, b_dict_add)
        (chosen_dict (known_type (type_of v)) _ _
          (dict_add_tail-Sized (entry_key key) v d (entry_key-KeySized key) p h) h)
  | inr e ↦ rw (e, b_dict_add) h
]
