-- ===== src/Torrent/Info.antt =====
-- src/torrent_parse.c: torrent_info_parse.
use bt_server.Common.{true, false, ◌&&◌, Option, none, some, ◌==◌, if◌then◌else◌, ◌>>=◌, mapped}
use bt_server.Libc.{Bytes, codes}
use bt_server.Bcode.{BList, Value, BDict, Process, nil, cons, end, entry}
use bt_server.Bcode.Objects.{b_int_get}
use bt_server.Bcode.Entries.{type_of}
use bt_server.Torrent.{
  InfoMultiFile, TorrentInfo, Round, continued, is_key, list_of, int_of, string_of, dict_of, moved,
}
use bt_server.Torrent.Files.{multi_files_alloc, multi_files_add}

-- What the entry points to afterwards.
abbrev pub left_value : Option BDict → Value → Value
left_value none val = val
left_value (some d) val = Value.dict d

-- The body of the loop over "files" for an entry that is a dictionary.
unfoldable pub files_round : Value → InfoMultiFile → Process → Option (Round Value InfoMultiFile)
unfolding multi_files_alloc multi_files_add dict_of
files_round val multi s = do
  r ← multi_files_alloc (dict_of val) s
  let left = left_value r.1 val
  some (elim r.0 [
    | none ↦ record { entries = left; target = multi; process = r.2; ok = false }
    | some files ↦ record {
      entries = left;
      target = multi_files_add files multi;
      process = r.2;
      ok = true;
    }
  ])

-- The loop over "files"
unfoldable pub files_loop : BList → InfoMultiFile → Process → Option (Round BList InfoMultiFile)
unfolding files_round type_of
files_loop nil multi s = some (record { entries = nil; target = multi; process = s; ok = true })
files_loop (cons val xs) multi s =
    let round =
      if type_of val == b'd'
      then files_round val multi s
      else some (record { entries = val; target = multi; process = s; ok = true }) in
    continued round cons xs (λ multi' s'. files_loop xs multi' s')

abbrev going_on : Value → TorrentInfo → Process → Option (Round Value TorrentInfo)
going_on val info s = some (record { entries = val; target = info; process = s; ok = true })

abbrev pub with_files : TorrentInfo → Round BList InfoMultiFile → Round Value TorrentInfo
with_files info r = record {
  entries = Value.list r.entries;
  target = record info { multi = r.target };
  process = r.process;
  ok = r.ok;
}

-- A round of the loop of torrent_info_parse; `none` is undefined behaviour, a pointer read that is
-- NULL.
unfoldable pub torrent_info_entry :
    Bytes → Value → TorrentInfo → Process → Option (Round Value TorrentInfo)
unfolding is_key type_of list_of int_of string_of moved b_int_get files_loop
torrent_info_entry key val info s =
    if is_key key (codes "piece length") && type_of val == b'i'
    then int_of val >>= (λ n. going_on val (record info { piece_len = b_int_get n }) s)
    else if is_key key (codes "pieces") && type_of val == b's'
    then going_on (moved val) (record info { piece_hash = string_of val }) s
    else if is_key key (codes "name") && type_of val == b's'
    then going_on (moved val) (record info { name = string_of val }) s
    else if is_key key (codes "name.utf-8") && type_of val == b's'
    then going_on (moved val) (record info { name_utf8 = string_of val }) s
    else if is_key key (codes "length") && type_of val == b'i'
    then int_of val >>= (λ n. going_on val (record info { length = b_int_get n }) s)
    else if is_key key (codes "publisher") && type_of val == b's'
    then going_on (moved val) (record info { publisher = string_of val }) s
    else if is_key key (codes "private") && type_of val == b's'
    then going_on (moved val) (record info { private = string_of val }) s
    else if is_key key (codes "md5sum") && type_of val == b's'
    then going_on (moved val) (record info { md5sum = string_of val }) s
    else if is_key key (codes "publisher utf-8") && type_of val == b's'
    then going_on (moved val) (record info { publisher_utf8 = string_of val }) s
    else if is_key key (codes "publisher url") && type_of val == b's'
    then going_on (moved val) (record info { publisher_url = string_of val }) s
    else if is_key key (codes "publisher url utf-8") && type_of val == b's'
    then going_on (moved val) (record info { publisher_url_utf8 = string_of val }) s
    else if is_key key (codes "files") && type_of val == b'l'
    then list_of val >>= (λ xs. mapped (with_files info) (files_loop xs info.multi s))
    else going_on val info s

unfoldable pub torrent_info_loop : BDict → TorrentInfo → Process → Option (Round BDict TorrentInfo)
unfolding torrent_info_entry
torrent_info_loop end info s =
    some (record { entries = end; target = info; process = s; ok = true })
torrent_info_loop (entry key val d) info s =
    continued (torrent_info_entry key val info s) (λ v rest. entry key v rest) d
      (λ info' s'. torrent_info_loop d info' s')

unfoldable pub torrent_info_parse :
    Option BDict → TorrentInfo → Process → Option (Round BDict TorrentInfo)
unfolding torrent_info_loop
torrent_info_parse none info s = none
torrent_info_parse (some dict) info s = torrent_info_loop dict info s
