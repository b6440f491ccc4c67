-- ===== src/Torrent/Lookup.antt =====
-- What src/torrent_parse.c reads out of a dictionary, field by field: for each field the last entry
-- with its name and a value of its kind. The dictionaries are those that b_dict_parse builds.
pub mod Files
pub mod InfoEntries
pub mod Info
pub mod Entries
pub mod Whole
use bt_server.Common.{ℕ, ◌+◌, Bool, Option, none, some, List, [], ◌∷◌, ◌++◌, if◌then◌else◌}
use bt_server.Libc.{Bytes, codes}
use bt_server.Bcode.{BString, BList}
use bt_server.Bcode.Blocks.{string_blocks, list_blocks}
use bt_server.Bcode.Entries.{entry_key}
use bt_server.Bcode.Encode.{
  Terms, Pairs, text, number, sequence, mapping, no_terms, term, no_pairs, pair, of_bytes, objects,
}
use bt_server.Torrent.{MultiFiles, InfoMultiFile, TorrentInfo, Torrent, is_key}
use bt_server.Torrent.Files.{zero_files}

-- The key of an entry whose printed key is `k`.
abbrev pub key_of : Bytes → Bytes
key_of k = entry_key (k ++ 0 ∷ [])

-- Does it read as `name`?
abbrev pub named : Bytes → Bytes → Bool
named name k = is_key (key_of k) name

-- The last string under a name, or else `old`.
abbrev last_text : Bytes → Pairs → Option BString → Option BString
last_text name no_pairs old = old
last_text name (pair k (text bs) ps) old =
    last_text name ps (if named name k then some (of_bytes bs) else old)
last_text name (pair k (number n) ps) old = last_text name ps old
last_text name (pair k (sequence xs) ps) old = last_text name ps old
last_text name (pair k (mapping qs) ps) old = last_text name ps old

abbrev last_number : Bytes → Pairs → ℕ → ℕ
last_number name no_pairs old = old
last_number name (pair k (text bs) ps) old = last_number name ps old
last_number name (pair k (number n) ps) old = last_number name ps (if named name k then n else old)
last_number name (pair k (sequence xs) ps) old = last_number name ps old
last_number name (pair k (mapping qs) ps) old = last_number name ps old

abbrev last_list : Bytes → Pairs → Option BList → Option BList
last_list name no_pairs old = old
last_list name (pair k (text bs) ps) old = last_list name ps old
last_list name (pair k (number n) ps) old = last_list name ps old
last_list name (pair k (sequence xs) ps) old =
    last_list name ps (if named name k then some (objects xs) else old)
last_list name (pair k (mapping qs) ps) old = last_list name ps old

-- A file of a torrent with several files.
abbrev pub file_of : Pairs → MultiFiles → MultiFiles
file_of ps old = record old {
  length = last_number (codes "length") ps old.length;
  path = last_list (codes "path") ps old.path;
  path_utf8 = last_list (codes "path.utf-8") ps old.path_utf8;
}

-- The dictionaries of a list, each as a file; its other terms are passed by.
abbrev pub files_in : Terms → List MultiFiles
files_in no_terms = []
files_in (term (text bs) xs) = files_in xs
files_in (term (number n) xs) = files_in xs
files_in (term (sequence ys) xs) = files_in xs
files_in (term (mapping ps) xs) = file_of ps zero_files ∷ files_in xs

-- The files of all lists under "files", in order.
abbrev pub all_files : Pairs → List MultiFiles
all_files no_pairs = []
all_files (pair k (text bs) ps) = all_files ps
all_files (pair k (number n) ps) = all_files ps
all_files (pair k (sequence xs) ps) =
    if named (codes "files") k then files_in xs ++ all_files ps else all_files ps
all_files (pair k (mapping qs) ps) = all_files ps

abbrev pub info_of : Pairs → TorrentInfo → TorrentInfo
info_of ps old = record {
  piece_len = last_number (codes "piece length") ps old.piece_len;
  piece_hash = last_text (codes "pieces") ps old.piece_hash;
  private = last_text (codes "private") ps old.private;
  multi = record old.multi { files_list = old.multi.files_list ++ all_files ps };
  name = last_text (codes "name") ps old.name;
  name_utf8 = last_text (codes "name.utf-8") ps old.name_utf8;
  length = last_number (codes "length") ps old.length;
  md5sum = last_text (codes "md5sum") ps old.md5sum;
  publisher = last_text (codes "publisher") ps old.publisher;
  publisher_utf8 = last_text (codes "publisher utf-8") ps old.publisher_utf8;
  publisher_url = last_text (codes "publisher url") ps old.publisher_url;
  publisher_url_utf8 = last_text (codes "publisher url utf-8") ps old.publisher_url_utf8;
}

-- Each dictionary under "info" in turn.
abbrev infos_of : Pairs → TorrentInfo → TorrentInfo
infos_of no_pairs old = old
infos_of (pair k (text bs) ps) old = infos_of ps old
infos_of (pair k (number n) ps) old = infos_of ps old
infos_of (pair k (sequence xs) ps) old = infos_of ps old
infos_of (pair k (mapping qs) ps) old =
    infos_of ps (if named (codes "info") k then info_of qs old else old)

abbrev pub torrent_of : Pairs → Torrent → Torrent
torrent_of ps old = record {
  announce = last_text (codes "announce") ps old.announce;
  announce_list = last_list (codes "announce-list") ps old.announce_list;
  comment = last_text (codes "comment") ps old.comment;
  comment_utf8 = last_text (codes "comment-utf8") ps old.comment_utf8;
  create_by = last_text (codes "create by") ps old.create_by;
  create_date = last_number (codes "creation date") ps old.create_date;
  encoding = old.encoding;
  info = infos_of ps old.info;
}

-- The blocks that a pointer of a torrent owns.
abbrev pub text_blocks : Option BString → ℕ
text_blocks none = 0
text_blocks (some t) = string_blocks t

abbrev pub path_blocks : Option BList → ℕ
path_blocks none = 0
path_blocks (some xs) = 1 + list_blocks xs

-- The blocks that are lost where a field is set again: the pointer it held is overwritten.
abbrev pub lost_text : Bytes → Pairs → Option BString → ℕ
lost_text name no_pairs old = 0
lost_text name (pair k (text bs) ps) old =
    (if named name k then text_blocks old else 0)
    + lost_text name ps (if named name k then some (of_bytes bs) else old)
lost_text name (pair k (number n) ps) old = lost_text name ps old
lost_text name (pair k (sequence xs) ps) old = lost_text name ps old
lost_text name (pair k (mapping qs) ps) old = lost_text name ps old

abbrev pub lost_list : Bytes → Pairs → Option BList → ℕ
lost_list name no_pairs old = 0
lost_list name (pair k (text bs) ps) old = lost_list name ps old
lost_list name (pair k (number n) ps) old = lost_list name ps old
lost_list name (pair k (sequence xs) ps) old =
    (if named name k then path_blocks old else 0)
    + lost_list name ps (if named name k then some (objects xs) else old)
lost_list name (pair k (mapping qs) ps) old = lost_list name ps old
