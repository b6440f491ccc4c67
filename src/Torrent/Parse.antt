-- ===== src/Torrent/Parse.antt =====
-- src/torrent_parse.c: torrent_parse.
use bt_server.Common.{
  ℕ, Bool, true, false, ◌&&◌, Option, none, some, ◌==◌, if◌then◌else◌, ◌>>=◌, mapped,
}
use bt_server.Libc.{Bytes, codes}
use bt_server.Bcode.{Value, BDict, Process, Outcome, next, null, end, entry}
use bt_server.Bcode
use bt_server.Bcode.Objects.{b_int_get}
use bt_server.Bcode.Entries.{type_of, b_dict_alloc}
use bt_server.Bcode.Free.{b_dict_free}
use bt_server.Bcode.Parse.{b_dict_parse}
use bt_server.Torrent.{
  Torrent, TorrentInfo, Round, continued, is_key, list_of, int_of, string_of, dict_of, moved,
}
use bt_server.Torrent.Info.{torrent_info_parse}

-- `returns ok ptr s`: 0 was returned, or -1, with the struct and the process as they are then.
pub data Parsed : Type 0 where
  returns : Bool → Torrent → Process → Parsed
  undefined : Parsed
  endless : Parsed

abbrev going_on : Value → Torrent → Process → Option (Round Value Torrent)
going_on val ptr s = some (record { entries = val; target = ptr; process = s; ok = true })

abbrev pub with_info : Torrent → Round BDict TorrentInfo → Round Value Torrent
with_info ptr r = record {
  entries = Value.dict r.entries;
  target = record ptr { info = r.target };
  process = r.process;
  ok = r.ok;
}

-- A round of the loop of torrent_parse; `none` is undefined behaviour.
unfoldable pub torrent_entry : Bytes → Value → Torrent → Process → Option (Round Value Torrent)
unfolding is_key type_of list_of int_of string_of dict_of moved b_int_get torrent_info_parse
torrent_entry key val ptr s =
    if is_key key (codes "announce") && type_of val == b's'
    then going_on (moved val) (record ptr { announce = string_of val }) s
    else if is_key key (codes "announce-list") && type_of val == b'l'
    then going_on (moved val) (record ptr { announce_list = list_of val }) s
    else if is_key key (codes "comment") && type_of val == b's'
    then going_on (moved val) (record ptr { comment = string_of val }) s
    else if is_key key (codes "comment-utf8") && type_of val == b's'
    then going_on (moved val) (record ptr { comment_utf8 = string_of val }) s
    else if is_key key (codes "comment") && type_of val == b's'
    then going_on (moved val) (record ptr { comment = string_of val }) s
    else if is_key key (codes "create by") && type_of val == b's'
    then going_on (moved val) (record ptr { create_by = string_of val }) s
    else if is_key key (codes "creation date") && type_of val == b'i'
    then int_of val >>= (λ n. going_on val (record ptr { create_date = b_int_get n }) s)
    else if is_key key (codes "comment") && type_of val == b's'
    then going_on (moved val) (record ptr { comment = string_of val }) s
    else if is_key key (codes "comment-utf8") && type_of val == b's'
    then going_on (moved val) (record ptr { comment_utf8 = string_of val }) s
    else if is_key key (codes "info") && type_of val == b'd'
    then mapped (with_info ptr) (torrent_info_parse (dict_of val) ptr.info s)
    else going_on val ptr s

unfoldable pub torrent_loop : BDict → Torrent → Process → Option (Round BDict Torrent)
unfolding torrent_entry
torrent_loop end ptr s = some (record { entries = end; target = ptr; process = s; ok = true })
torrent_loop (entry key val d) ptr s =
    continued (torrent_entry key val ptr s) (λ v rest. entry key v rest) d
      (λ ptr' s'. torrent_loop d ptr' s')

-- Both ends of the loop release what is left of the dictionary.
abbrev pub finished : Option (Round BDict Torrent) → Parsed
finished none = undefined
finished (some r) = returns r.ok r.target (b_dict_free (some r.entries) r.process)

abbrev pub dispatched : Torrent → Outcome BDict → Parsed
dispatched ptr (next d t s) = finished (torrent_loop d ptr s)
dispatched ptr (null d s) = returns false ptr (b_dict_free (some d) s)
dispatched ptr Bcode.fault = undefined
dispatched ptr Bcode.spin = endless

unfoldable pub torrent_parse : ℕ → Bytes → Torrent → Process → Parsed
torrent_parse f buf ptr s = elim (b_dict_alloc s).0 [
  | none ↦ returns false ptr (b_dict_alloc s).1
  | some dict_ptr ↦ dispatched ptr (b_dict_parse f buf dict_ptr (b_dict_alloc s).1)
]
