-- ===== src/Bcode/Entries.antt =====
-- src/b_parse.c: the entries of lists and dictionaries, and how they are added.
use bt_server.Common.{ℕ, Bool, ◌||◌, Option, none, some, ◌==◌, if◌then◌else◌, take}
use bt_server.Libc.{Bytes, c_str}
use bt_server.Bcode.{Value, BList, BDict, Process, nil, cons, end, entry}
use bt_server.Bcode.Objects.{alloc}

abbrev pub key_len : ℕ
key_len = 128

abbrev pub sizeof_l_entry : ℕ
sizeof_l_entry = 32

abbrev pub sizeof_d_entry : ℕ
sizeof_d_entry = 160

abbrev pub sizeof_b_list : ℕ
sizeof_b_list = 24

abbrev pub sizeof_b_dict : ℕ
sizeof_b_dict = 24

-- The tag that a list or dictionary entry stores beside its pointer.
unfoldable pub type_of : Value → ℕ
type_of (Value.list _) = b'l'
type_of (Value.int _) = b'i'
type_of (Value.string _) = b's'
type_of (Value.dict _) = b'd'
type_of (Value.taken t) = t

unfoldable pub b_list_alloc : Process → Option BList × Process
unfolding alloc
b_list_alloc = alloc sizeof_b_list nil

unfoldable pub b_dict_alloc : Process → Option BDict × Process
unfolding alloc
b_dict_alloc = alloc sizeof_b_dict end

-- list_add_tail on the ring of a list's or a dictionary's entries
unfoldable pub list_add_tail : Value → BList → BList
list_add_tail v nil = cons v nil
list_add_tail v (cons w xs) = cons w (list_add_tail v xs)

unfoldable pub dict_add_tail : Bytes → Value → BDict → BDict
dict_add_tail k v end = entry k v end
dict_add_tail k v (entry j w d) = entry j w (dict_add_tail k v d)

-- The entry of a fresh `struct l_entry`: its pointer is NULL and it has the tag.
unfoldable pub l_entry_alloc : ℕ → Process → Option Value × Process
unfolding alloc
l_entry_alloc type = alloc sizeof_l_entry (Value.taken type)

-- `memset(key, 0, KEY_LEN); strncpy(key, k, KEY_LEN)`: the text that the field then holds
unfoldable pub entry_key : Bytes → Bytes
entry_key k = take key_len (c_str k)

-- The key and the tag of a fresh `struct d_entry`; its pointer is not set yet.
unfoldable pub d_entry_alloc : Bytes → ℕ → Process → Option (Bytes × ℕ) × Process
unfolding alloc entry_key
d_entry_alloc key type = alloc sizeof_d_entry (entry_key key, type)

-- The cases of the switch on the tag; any other tag is reported and the entry is not linked in.
unfoldable pub known_type : ℕ → Bool
known_type t = t == b'l' || t == b'i' || t == b's' || t == b'd'

-- Without memory for the entry the value is dropped, and still allocated.
unfoldable pub b_list_add : Value → BList → Process → BList × Process
unfolding l_entry_alloc list_add_tail type_of known_type
b_list_add v xs s =
    let (e, s') = l_entry_alloc (type_of v) s in
    (elim e [ none ↦ xs | some _ ↦ if known_type (type_of v) then list_add_tail v xs else xs ], s')

unfoldable pub b_dict_add : Value → Bytes → BDict → Process → BDict × Process
unfolding d_entry_alloc dict_add_tail type_of known_type
b_dict_add v key d s =
    let (e, s') = d_entry_alloc key (type_of v) s in
    (elim e [ none ↦ d | some (k, t) ↦ if known_type t then dict_add_tail k v d else d ], s')
