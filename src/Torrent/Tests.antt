-- ===== src/Torrent/Tests.antt =====
-- A torrent of several files and a torrent of one, read, shown and released by the functions of
-- src/torrent_parse.c.
use bt_server.Common.{◌↔◌, IsSome, ℕ, ◌+◌, ◌≡◌, refl, true, none, some, [], ◌++◌, arith}
use bt_server.Bcode.{BDict, Process, end}
use bt_server.Bcode.Blocks.{string_blocks, with_live}
use bt_server.Bcode.Encode.{
  Pairs, text, number, sequence, mapping, no_terms, term, no_pairs, pair, encode, fields, of_bytes,
  FitsPairs,
}
use bt_server.Bcode.RoundTrip.Rounds.{mallocs_pairs}
use bt_server.Bcode.RoundTrip.Scalars.{grown}
use bt_server.Bcode.Start.{codes, start, start-Plenty}
use bt_server.Libc.{c_str}
use bt_server.Bcode.Entries.{entry_key}
use bt_server.Torrent.{is_key, zero_info, Torrent, zero_torrent, torrent_alloc}
use bt_server.Torrent.Parse.{returns, torrent_parse}
use bt_server.Torrent.Free.{torrent_free}
use bt_server.Torrent.Print.{torrent_print}
use bt_server.Torrent.Lookup.{info_of, torrent_of, text_blocks}
use bt_server.Torrent.Info.{torrent_info_parse}
use bt_server.Torrent.Lookup.Info.{all_count, torrent_info_parse-fields}
use bt_server.Torrent.Lookup.Entries.{torrent_blocks}
use bt_server.Torrent.Lookup.Whole.{infos_count, torrent_lost, torrent_parse-encode}
use bt_server.Bcode.Parse.{b_dict_parse}
use bt_server.Torrent.Safety.{Reads, torrent_parse_total}
use bt_server.Torrent.Release.{torrent_free_lem, torrent_free-parse}
use bt_server.Torrent.Shown.{TorrentShown}
use bt_server.Torrent.Shown.Parsed.{torrent_print-parse}

-- {length: 5, path: [a]}
abbrev small_file : Pairs
small_file =
    pair (codes "length") (number 5)
      (pair (codes "path") (sequence (term (text (codes "a")) no_terms)) no_pairs)

abbrev small_info : Pairs
small_info = pair (codes "files") (sequence (term (mapping small_file) no_terms)) (
    pair (codes "name") (text (codes "dir")) (
      pair (codes "piece length") (number 16) (pair (codes "pieces") (text (codes "hh")) no_pairs)))

-- Two comments, of which the first is lost, and an author, which is never released.
abbrev small : Pairs
small = pair (codes "announce") (text (codes "url")) (
    pair (codes "comment") (text (codes "x")) (
      pair (codes "comment") (text (codes "y")) (
        pair (codes "create by") (text (codes "me"))
          (pair (codes "info") (mapping small_info) no_pairs))))

small-Fits : FitsPairs small
small-Fits = ground arith

torrent_parse-encode_example :
    (n : ℕ) × (torrent_parse 1000 (encode (mapping small) ++ codes "!") zero_torrent (start 0)
      ≡ returns true (torrent_of small zero_torrent) (record (start 0) {
        calls = 0 + (1 + mallocs_pairs small + infos_count small);
        live = n;
      }))
    × (n + 0 ≡ 0 + torrent_blocks (torrent_of small zero_torrent) + torrent_lost small zero_torrent)
unfolding encode
torrent_parse-encode_example =
    torrent_parse-encode small 1000 (codes "!") zero_torrent (start 0) small-Fits (omega arith)
      (start-Plenty 0) refl (omega arith)

-- One file is allocated, and the first comment is lost.
small-lost : infos_count small + torrent_lost small zero_torrent ≡ 3
unfolding entry_key c_str is_key string_blocks of_bytes
small-lost = refl

torrent_parse_total_example :
    Reads 0 zero_torrent
      (b_dict_parse 100 (codes "d4:infod5:filesld4:pathleeeee") end (grown (start 0) 1 1))
      (torrent_parse 100 (codes "d4:infod5:filesld4:pathleeeee") zero_torrent (start 0))
torrent_parse_total_example =
    torrent_parse_total 100 (codes "d4:infod5:filesld4:pathleeeee") zero_torrent (start 0) 0
      (omega arith) (start-Plenty 0) refl

torrent_free-parse_example :
    let p = torrent_of small zero_torrent in
    (t : Process) × (torrent_alloc (start 0) ≡ (some zero_torrent, grown (start 0) 1 1))
    × (torrent_parse 1000 (encode (mapping small) ++ []) zero_torrent (grown (start 0) 1 1)
        ≡ returns true p t)
    × (torrent_free (some p) t ≡ elim p.info.publisher_url [
      | none ↦ some (
          with_live
            (0
              + text_blocks p.create_by
              + text_blocks p.info.publisher_url_utf8
              + torrent_lost small zero_torrent)
            t)
      | some _ ↦ none
    ])
unfolding encode
torrent_free-parse_example =
    torrent_free-parse small 1000 [] (start 0) small-Fits (omega arith) (start-Plenty 0) refl

-- The author stays allocated.
abbrev signed_torrent : Torrent
signed_torrent = record zero_torrent { create_by = some (of_bytes (codes "me")) }

abbrev busy : Process
busy = record (start 0) { live = 5 }

freed_torrent : torrent_free (some signed_torrent) busy ≡ some (with_live 4 busy)
unfolding string_blocks of_bytes
freed_torrent = torrent_free_lem signed_torrent busy

torrent_info_parse-fields_example :
    (d : BDict) × (torrent_info_parse (some (fields small_info)) zero_info (start 0)
      ≡ some (record {
        entries = d;
        target = info_of small_info zero_info;
        process = grown (start 0) (all_count small_info) (all_count small_info);
        ok = true;
      }))
torrent_info_parse-fields_example =
    torrent_info_parse-fields small_info zero_info (start 0) (start-Plenty 0)

-- The parsed torrent has a file, with a length that is shown as an int.
torrent_print-parse_example :
    IsSome (torrent_print (torrent_of small zero_torrent))
    ↔ TorrentShown (torrent_of small zero_torrent)
unfolding encode
torrent_print-parse_example =
    torrent_print-parse 1000 (encode (mapping small) ++ codes "!") (start 0) _ (omega arith)
      (start-Plenty 0) torrent_parse-encode_example.1
