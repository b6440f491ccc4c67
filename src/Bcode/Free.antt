-- ===== src/Bcode/Free.antt =====
-- src/b_parse.c: release of lists and dictionaries, entry by entry.
use bt_server.Common.{Option, none, some}
use bt_server.Bcode.{Value, BList, BDict, Process, nil, cons, end, entry}
use bt_server.Bcode.Objects.{free, b_string_free, b_int_free}

-- The object is released by its tag and then the entry; a pointer that was taken is NULL, which every
-- release function accepts.
unfoldable mutual
  unfolding free b_string_free b_int_free

  pub l_entry_free : Value → Process → Process
  l_entry_free (Value.list xs) s = free (free (entries_free xs s))
  l_entry_free (Value.int n) s = free (b_int_free (some n) s)
  l_entry_free (Value.string t) s = free (b_string_free (some t) s)
  l_entry_free (Value.dict d) s = free (free (d_entries_free d s))
  l_entry_free (Value.taken t) s = free s

  pub d_entry_free : Value → Process → Process
  d_entry_free (Value.list xs) s = free (free (entries_free xs s))
  d_entry_free (Value.int n) s = free (b_int_free (some n) s)
  d_entry_free (Value.string t) s = free (b_string_free (some t) s)
  d_entry_free (Value.dict d) s = free (free (d_entries_free d s))
  d_entry_free (Value.taken t) s = free s

  -- The loops of b_list_free and b_dict_free.
  pub entries_free : BList → Process → Process
  entries_free nil s = s
  entries_free (cons v xs) s = entries_free xs (l_entry_free v s)

  pub d_entries_free : BDict → Process → Process
  d_entries_free end s = s
  d_entries_free (entry k v d) s = d_entries_free d (d_entry_free v s)

unfoldable pub b_list_free : Option BList → Process → Process
unfolding free entries_free
b_list_free none s = s
b_list_free (some xs) s = free (entries_free xs s)

unfoldable pub b_dict_free : Option BDict → Process → Process
unfolding free d_entries_free
b_dict_free none s = s
b_dict_free (some d) s = free (d_entries_free d s)

unfoldable pub b_list_del : Value → Process → Process
unfolding l_entry_free
b_list_del v s = l_entry_free v s

unfoldable pub b_dict_del : Value → Process → Process
unfolding d_entry_free
b_dict_del v s = d_entry_free v s
