-- ===== src/Torrent/Files.antt =====
-- src/torrent_parse.c: the files of a torrent with several files.
use bt_server.Common.{
  ℕ, true, false, ◌&&◌, Option, none, some, [], ◌∷◌, ◌++◌, ◌==◌, if◌then◌else◌, ◌>>=◌, mapped,
}
use bt_server.Libc.{Bytes, codes}
use bt_server.Bcode.{Value, BDict, Process, end, entry}
use bt_server.Bcode.Objects.{malloc, b_int_get}
use bt_server.Bcode.Entries.{type_of}
use bt_server.Torrent.{MultiFiles, InfoMultiFile, is_key, list_of, int_of, moved}

abbrev pub sizeof_multi_files : ℕ
sizeof_multi_files = 48

abbrev pub zero_files : MultiFiles
zero_files = record { length = 0; path = none; path_utf8 = none; md5sum = none }

-- A round of the loop of multi_files_alloc, with what it leaves in the entry's pointer; `none` is
-- undefined behaviour, the number read through NULL.
unfoldable pub multi_files_entry : Bytes → Value → MultiFiles → Option (Value × MultiFiles)
unfolding is_key type_of list_of int_of moved b_int_get
multi_files_entry key val ptr =
    if is_key key (codes "path") && type_of val == b'l'
    then some (moved val, record ptr { path = list_of val })
    else if is_key key (codes "path.utf-8") && type_of val == b'l'
    then some (moved val, record ptr { path_utf8 = list_of val })
    else if is_key key (codes "length") && type_of val == b'i'
    then mapped (λ n. (val, record ptr { length = b_int_get n })) (int_of val)
    else some (val, ptr)

unfoldable pub multi_files_loop : BDict → MultiFiles → Option (BDict × MultiFiles)
unfolding multi_files_entry
multi_files_loop end ptr = some (end, ptr)
multi_files_loop (entry key val d) ptr = do
  round ← multi_files_entry key val ptr
  rest ← multi_files_loop d round.1
  some (entry key round.0 rest.0, rest.1)

-- The new struct, or NULL, and what is left of the dictionary. Without a dictionary the struct that
-- was allocated is lost.
unfoldable pub multi_files_alloc :
    Option BDict → Process → Option (Option MultiFiles × Option BDict × Process)
unfolding malloc multi_files_loop
multi_files_alloc none s = some (none, none, (malloc sizeof_multi_files s).1)
multi_files_alloc (some dict) s = elim (malloc sizeof_multi_files s).0 [
  | true ↦
      mapped (λ r. (some r.1, some r.0, (malloc sizeof_multi_files s).1))
        (multi_files_loop dict zero_files)
  | false ↦ some (none, some dict, (malloc sizeof_multi_files s).1)
]

-- list_add_tail on the ring of files
unfoldable pub multi_files_add : MultiFiles → InfoMultiFile → InfoMultiFile
multi_files_add ptr head = record head { files_list = head.files_list ++ (ptr ∷ []) }
