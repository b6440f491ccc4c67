-- ===== src/Torrent/Free.antt =====
-- src/torrent_parse.c: the releases. A second release of an object reads freed memory, which is
-- undefined behaviour, `none`.
use bt_server.Common.{Option, none, some, List, [], ◌∷◌, mapped}
use bt_server.Bcode.{BString, Process}
use bt_server.Bcode.Objects.{free, b_string_free}
use bt_server.Bcode.Free.{b_list_free}
use bt_server.Torrent.{MultiFiles, InfoMultiFile, TorrentInfo, Torrent}

unfoldable pub multi_files_free : Option MultiFiles → Process → Process
multi_files_free none s = s
multi_files_free (some ptr) s = free (b_list_free ptr.path_utf8 (b_list_free ptr.path s))

-- The loop of info_multi_files_free
unfoldable pub files_free : List MultiFiles → Process → Process
files_free [] s = s
files_free (vec ∷ rest) s = files_free rest (multi_files_free (some vec) s)

-- The struct is a part of struct torrent_info, so its address is not NULL.
unfoldable pub info_multi_files_free : InfoMultiFile → Process → Process
info_multi_files_free ptr s = b_string_free ptr.dir_name (files_free ptr.files_list s)

-- `b_string_free(p)` for a pointer that was released just before
unfoldable pub free_again : Option BString → Process → Option Process
free_again none s = some s
free_again (some p) s = none

unfoldable pub torrent_info_free : TorrentInfo → Process → Option Process
torrent_info_free ptr s =
    let s₁ = b_string_free ptr.piece_hash s in
    let s₂ = b_string_free ptr.private s₁ in
    let s₃ = b_string_free ptr.name s₂ in
    let s₄ = b_string_free ptr.name_utf8 s₃ in
    let s₅ = b_string_free ptr.md5sum s₄ in
    let s₆ = b_string_free ptr.publisher s₅ in
    let s₇ = b_string_free ptr.publisher_utf8 s₆ in
    let s₈ = b_string_free ptr.publisher_url s₇ in
    mapped (info_multi_files_free ptr.multi) (free_again ptr.publisher_url s₈)

-- A NULL pointer is reported; 0 is returned either way.
unfoldable pub torrent_free : Option Torrent → Process → Option Process
torrent_free none s = some s
torrent_free (some ptr) s =
    let s₁ = b_string_free ptr.announce s in
    let s₂ = b_string_free ptr.comment s₁ in
    let s₃ = b_string_free ptr.comment_utf8 s₂ in
    let s₄ = b_list_free ptr.announce_list s₃ in mapped free (torrent_info_free ptr.info s₄)
