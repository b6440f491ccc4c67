-- ===== src/Bcode/Blocks.antt =====
-- How many heap blocks an object of src/b_parse.c owns, and what its release gives back.
use bt_server.Common.{ℕ, ◌+◌, ◌-◌, ◌≡◌, none, some, arith}
use bt_server.Bcode.{BString, Value, BList, BDict, Process, nil, cons, end, entry}
use bt_server.Bcode.Objects.{b_string_free}
use bt_server.Bcode.Free.{
  l_entry_free, d_entry_free, entries_free, d_entries_free, b_list_free, b_dict_free,
}

-- The struct, and its buffer unless that is NULL.
unfoldable pub string_blocks : BString → ℕ
string_blocks t = elim t.head [ none ↦ 1 | some _ ↦ 2 ]

-- The object behind an entry's pointer, and the entries of a list or a dictionary, each with
-- the struct l_entry or d_entry itself.
unfoldable mutual
  unfolding string_blocks

  pub value_blocks : Value → ℕ
  value_blocks (Value.list xs) = 1 + list_blocks xs
  value_blocks (Value.int n) = 1
  value_blocks (Value.string t) = string_blocks t
  value_blocks (Value.dict d) = 1 + dict_blocks d
  value_blocks (Value.taken t) = 0

  pub list_blocks : BList → ℕ
  list_blocks nil = 0
  list_blocks (cons v xs) = 1 + value_blocks v + list_blocks xs

  pub dict_blocks : BDict → ℕ
  dict_blocks end = 0
  dict_blocks (entry k v d) = 1 + value_blocks v + dict_blocks d

abbrev pub with_live : ℕ → Process → Process
with_live n s = record s { live = n }

pub b_string_free_lem :
    (t : BString) (s : Process) → b_string_free (some t) s ≡ with_live (s.live - string_blocks t) s
unfolding b_string_free string_blocks
b_string_free_lem t s = ground arith

mutual
  unfolding l_entry_free value_blocks

  l_entry_frees :
      (v : Value) (s : Process) → l_entry_free v s ≡ with_live (s.live - (1 + value_blocks v)) s
  l_entry_frees (Value.list xs) s = rw (entries_frees xs s) (ground arith)
  l_entry_frees (Value.int n) s = ground arith
  l_entry_frees (Value.string t) s = ground arith
  l_entry_frees (Value.dict d) s = rw (d_entries_frees d s) (ground arith)
  l_entry_frees (Value.taken t) s = ground arith

  d_entry_frees :
      (v : Value) (s : Process) → d_entry_free v s ≡ with_live (s.live - (1 + value_blocks v)) s
  d_entry_frees (Value.list xs) s = rw (entries_frees xs s) (ground arith)
  d_entry_frees (Value.int n) s = ground arith
  d_entry_frees (Value.string t) s = ground arith
  d_entry_frees (Value.dict d) s = rw (d_entries_frees d s) (ground arith)
  d_entry_frees (Value.taken t) s = ground arith

  entries_frees :
      (xs : BList) (s : Process) → entries_free xs s ≡ with_live (s.live - list_blocks xs) s
  entries_frees nil s = ground arith
  entries_frees (cons v xs) s = rw (l_entry_frees v s, entries_frees xs _) (ground arith)

  d_entries_frees :
      (d : BDict) (s : Process) → d_entries_free d s ≡ with_live (s.live - dict_blocks d) s
  d_entries_frees end s = ground arith
  d_entries_frees (entry k v d) s = rw (d_entry_frees v s, d_entries_frees d _) (ground arith)

-- The release of a list gives back its struct and all that its entries own, and changes nothing
-- else.
pub b_list_free_lem :
    (xs : BList) (s : Process)
    → b_list_free (some xs) s ≡ with_live (s.live - (1 + list_blocks xs)) s
unfolding b_list_free
b_list_free_lem xs s = rw (entries_frees xs s) (ground arith)

-- The release of a dictionary gives back its struct and all that its entries own, and changes nothing
-- else.
pub b_dict_free_lem :
    (d : BDict) (s : Process) → b_dict_free (some d) s ≡ with_live (s.live - (1 + dict_blocks d)) s
unfolding b_dict_free
b_dict_free_lem d s = rw (d_entries_frees d s) (ground arith)
