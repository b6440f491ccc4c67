-- ===== src/Torrent/Print.antt =====
-- src/torrent_parse.c: the print functions, as the lines that they give to TRACE and printf. `none`
-- is undefined behaviour, such as a NULL argument.
use bt_server.Common.{
  ℕ, ◌+◌, ◌%◌, ◌^◌, Option, none, some, List, [], ◌∷◌, ◌==◌, not, ◌&&◌, if◌then◌else◌, drop, mapped,
  ℤ, Bool, ◌++◌,
}
use mathlib.Core.List.{map}
use bt_server.Trace.{fits}
use bt_server.Libc.{Bytes, c_str, codes}
use bt_server.Libc.Memory.{read}
use bt_server.Bcode.{BString, BList}
use bt_server.Bcode.Print.{Line, Hex, shown, newline, before, within, signed, b_list_print}
use bt_server.Torrent.{MultiFiles, InfoMultiFile, TorrentInfo, Torrent}

-- `text_line label text` is "[ label ]:" with the text below, and so are the other lines with a
-- label; `date_line` has what ctime makes of the seconds.
pub data TorrentLine : Type 0 where
  torrent_begin : TorrentLine
  torrent_end : TorrentLine
  label_line : Bytes → TorrentLine
  text_line : Bytes → Bytes → TorrentLine
  number_line : Bytes → ℤ → TorrentLine
  date_line : ℕ → TorrentLine
  hash_line : ℤ → List Hex → TorrentLine
  list_line : Line → TorrentLine

abbrev pub Lines : Type 0
Lines = Option (List TorrentLine)

abbrev pub just : TorrentLine → Lines
just l = some (l ∷ [])

-- The function and the line of a TRACE
pub record Place : Type 0 where
  pub func : Bytes
  pub line : ℕ

-- The message "[ label ]:\n%s\n" fits the buffer of print_msg.
abbrev pub text_fits : Place → Bytes → Bytes → Bool
text_fits at label text =
    fits at.func at.line (codes "[ " ++ label ++ codes " ]:" ++ 10 ∷ text ++ 10 ∷ [])

-- `if (p) TRACE(INFO, "[ label ]:\n%s\n", b_string_get(p))`
unfoldable pub text_print : Place → Bytes → Option BString → Lines
unfolding c_str fits
text_print at label none = some []
text_print at label (some p) = elim p.head [
  | none ↦ none
  | some block ↦
      let text = c_str (drop p.off block) in
      within (text_fits at label text) (just (text_line label text))
]

-- The same with `%d`, which does not take a pointer: undefined.
unfoldable pub address_print : Option BString → Lines
address_print none = some []
address_print (some p) = none

-- `%d` of an unsigned int
abbrev pub low : ℕ → ℤ
low n = signed (n % 2 ^ 32)

-- `if (n) TRACE(INFO, "[ label ]:\n%d\n", n)` for an unsigned int
unfoldable pub number_print : Bytes → ℕ → Lines
unfolding signed
number_print label n = if n == 0 then some [] else just (number_line label (low n))

-- The same for an unsigned long long, which `%d` does not take: undefined.
unfoldable pub wide_print : ℕ → Lines
wide_print n = if n == 0 then some [] else none

unfoldable pub list_print : BList → Lines
unfolding b_list_print
list_print xs = mapped (map list_line) (b_list_print xs)

-- The loop that shows the hashes, twenty bytes to a line.
unfoldable pub hash_loop : ℕ → Bytes → List Hex
hash_loop i [] = newline ∷ []
hash_loop i (b ∷ bs) =
    let rest = hash_loop (i + 1) bs in
    if not (i == 0) && i % 20 == 0 then newline ∷ shown b ∷ rest else shown b ∷ rest

abbrev pub hashes : ℕ → Option Bytes → Lines
hashes len none = none
hashes len (some bs) = just (hash_line (low len) (hash_loop 0 bs))

unfoldable pub piece_hash_print : Option BString → Lines
piece_hash_print none = some []
piece_hash_print (some p) = elim p.head [
  | none ↦ if p.len == 0 then hashes 0 (some []) else none
  | some block ↦ hashes p.len (read p.len (drop p.off block))
]

-- A round of multi_files_print: below the second label stands the first list once more, and last comes
-- `%d` with an unsigned long long.
unfoldable pub file_print : MultiFiles → Lines
unfolding list_print
file_print vec =
    let again : Lines = elim vec.path [ none ↦ none | some xs ↦ list_print xs ] in
    before
      (before
        (elim vec.path [
          | none ↦ some []
          | some xs ↦ before (just (label_line (codes "path"))) (list_print xs)
        ])
        (elim vec.path_utf8 [
          | none ↦ some []
          | some _ ↦ before (just (label_line (codes "path(utf-8)"))) again
        ]))
      none

unfoldable pub files_print : List MultiFiles → Lines
unfolding file_print
files_print [] = some []
files_print (vec ∷ rest) = before (file_print vec) (files_print rest)

unfoldable pub multi_files_print : InfoMultiFile → Lines
unfolding files_print
multi_files_print ptr = files_print ptr.files_list

abbrev pub info_at : ℕ → Place
info_at line = record { func = codes "torrent_info_print"; line = line }

abbrev pub torrent_at : ℕ → Place
torrent_at line = record { func = codes "torrent_print"; line = line }

unfoldable pub torrent_info_print : TorrentInfo → Lines
unfolding text_print number_print wide_print address_print piece_hash_print multi_files_print
torrent_info_print ptr = before (text_print (info_at 310) (codes "publisher") ptr.publisher) (
    before (text_print (info_at 312) (codes "publisher(utf-8)") ptr.publisher_utf8) (
      before (text_print (info_at 314) (codes "publisher_url") ptr.publisher_url) (
        before (text_print (info_at 316) (codes "publisher_url(utf-8)") ptr.publisher_url_utf8) (
          before (text_print (info_at 318) (codes "name") ptr.name) (
            before (text_print (info_at 320) (codes "name(utf-8)") ptr.name_utf8) (
              before (wide_print ptr.length) (
                before (address_print ptr.md5sum) (
                  before (address_print ptr.private) (
                    before (number_print (codes "piece_len") ptr.piece_len) (
                      before (piece_hash_print ptr.piece_hash) (
                        before (text_print (info_at 341) (codes "dir_name") ptr.multi.dir_name)
                          (multi_files_print ptr.multi))))))))))))

unfoldable pub torrent_print : Torrent → Lines
unfolding text_print number_print list_print torrent_info_print
torrent_print ptr =
    let announce_list : Lines = elim ptr.announce_list [
      | none ↦ some []
      | some xs ↦ list_print xs
    ] in
    let date : Lines = if ptr.create_date == 0 then some [] else just (date_line ptr.create_date) in
    before (just torrent_begin) (
      before (text_print (torrent_at 351) (codes "announce") ptr.announce) (
        before announce_list (
          before (text_print (torrent_at 356) (codes "comment") ptr.comment) (
            before (text_print (torrent_at 358) (codes "comment(utf8)") ptr.comment_utf8) (
              before (text_print (torrent_at 360) (codes "create by") ptr.create_by) (
                before date (
                  before (number_print (codes "encoding") ptr.encoding)
                    (before (torrent_info_print ptr.info) (just torrent_end)))))))))
