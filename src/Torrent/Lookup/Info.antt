-- ===== src/Torrent/Lookup/Info.antt =====
-- torrent_info_parse of src/torrent_parse.c finds the fields of a torrent.
use bt_server.Common.{
  ℕ, ◌+◌, ◌≡◌, refl, ◌∙◌, inl, inr, true, Bool-cases, some, ◌++◌, arith, append_assoc, append-nil,
  if◌then◌else◌,
}
use bt_server.Libc.{Bytes, codes}
use bt_server.Bcode.{Value, BDict, Process, end, entry}
use bt_server.Bcode.Blocks.{value_blocks, dict_blocks}
use bt_server.Bcode.Encode.{
  Terms, Pairs, text, number, sequence, mapping, no_pairs, pair, of_bytes, object, objects, fields,
}
use bt_server.Bcode.Total.Endings.{Plenty}
use bt_server.Bcode.RoundTrip.Scalars.{grown}
use bt_server.Torrent.{TorrentInfo, Round}
use bt_server.Torrent.Info.{torrent_info_parse, torrent_info_entry, torrent_info_loop}
use bt_server.Torrent.Lookup.{all_files, key_of, named, info_of, files_in, lost_text}
use bt_server.Torrent.Lookup.Files.{files_count, files_lost, files_blocks-append, files_read}
use bt_server.Torrent.Lookup.InfoEntries.{
  info_blocks, with_text, info_text, with_number, info_number, info_dict, info_list_other,
  info_list_files,
}

-- The dictionaries of all lists under "files", and what is lost in them.
abbrev pub all_count : Pairs → ℕ
all_count no_pairs = 0
all_count (pair k (text bs) ps) = all_count ps
all_count (pair k (number n) ps) = all_count ps
all_count (pair k (sequence xs) ps) =
    if named (codes "files") k then files_count xs + all_count ps else all_count ps
all_count (pair k (mapping qs) ps) = all_count ps

abbrev all_lost : Pairs → ℕ
all_lost no_pairs = 0
all_lost (pair k (text bs) ps) = all_lost ps
all_lost (pair k (number n) ps) = all_lost ps
all_lost (pair k (sequence xs) ps) =
    if named (codes "files") k then files_lost xs + all_lost ps else all_lost ps
all_lost (pair k (mapping qs) ps) = all_lost ps

abbrev pub info_lost : Pairs → TorrentInfo → ℕ
info_lost ps p =
    lost_text (codes "pieces") ps p.piece_hash
    + lost_text (codes "name") ps p.name
    + lost_text (codes "name.utf-8") ps p.name_utf8
    + lost_text (codes "publisher") ps p.publisher
    + lost_text (codes "private") ps p.private
    + lost_text (codes "md5sum") ps p.md5sum
    + lost_text (codes "publisher utf-8") ps p.publisher_utf8
    + lost_text (codes "publisher url") ps p.publisher_url
    + lost_text (codes "publisher url utf-8") ps p.publisher_url_utf8
    + all_lost ps

abbrev with_files : Terms → TorrentInfo → TorrentInfo
with_files xs p = record p {
  multi = record p.multi { files_list = p.multi.files_list ++ files_in xs };
}

info_behind :
    (k : Bytes) (v : Value) (d : BDict) (p : TorrentInfo) (s : Process) {v' : Value}
    {p' : TorrentInfo} {s' : Process} {r : Round BDict TorrentInfo}
    → torrent_info_entry k v p s
      ≡ some (record { entries = v'; target = p'; process = s'; ok = true })
    → torrent_info_loop d p' s' ≡ some r
    → torrent_info_loop (entry k v d) p s ≡ some (record r { entries = entry k v' r.entries })
unfolding torrent_info_loop
info_behind k v d p s h g = rw (h, g) refl

abbrev InfoRead : Pairs → TorrentInfo → Process → Type 0
InfoRead ps p s =
    (d : BDict) × (torrent_info_loop (fields ps) p s
      ≡ some (record {
        entries = d;
        target = info_of ps p;
        process = grown s (all_count ps) (all_count ps);
        ok = true;
      }))
    × (dict_blocks d + info_blocks (info_of ps p) + info_lost ps p
        ≡ info_blocks p + dict_blocks (fields ps) + all_count ps)

pub info_read : (ps : Pairs) (p : TorrentInfo) (s : Process) → Plenty s → InfoRead ps p s
unfolding torrent_info_loop fields object dict_blocks value_blocks
info_read no_pairs p s h = (end, rw append-nil (ground arith), rw append-nil (omega arith))
info_read (pair k (text bs) ps) p s h =
    let (v, round, n) = info_text (key_of k) (of_bytes bs) p s in
    let (d, eq, m) = info_read ps (with_text (key_of k) (of_bytes bs) p) s h in
    (entry (key_of k) v d, rw (round, eq) refl, omega arith)
info_read (pair k (number n) ps) p s h =
    let (d, eq, m) = info_read ps (with_number (key_of k) n p) s h in
    (entry (key_of k) (object (number n)) d, rw (info_number, eq) refl, omega arith)
info_read (pair k (mapping qs) ps) p s h =
    let (d, eq, m) = info_read ps p s h in
    (entry (key_of k) (object (mapping qs)) d, rw (info_dict, eq) refl, omega arith)
info_read (pair k (sequence xs) ps) p s h = elim (Bool-cases (named (codes "files") k)) [
  | inl e ↦
      let (ys, eq₁, n) = files_read xs p.multi s h in
      let c = files_count xs in
      let (d, eq, m) = info_read ps (with_files xs p) (grown s c c) h in
      (
        entry (key_of k) (Value.list ys) d,
        info_behind (key_of k) (object (sequence xs)) (fields ps) p s
              (info_list_files (key_of k) (objects xs) p s e eq₁) eq
            ∙ rw (append_assoc p.multi.files_list (files_in xs) (all_files ps), e) (ground arith),
        rw e (
            omega (
              arith,
              files_blocks-append p.multi.files_list (files_in xs),
              files_blocks-append p.multi.files_list (files_in xs ++ all_files ps),
              files_blocks-append (files_in xs) (all_files ps),
              files_blocks-append (p.multi.files_list ++ files_in xs) (all_files ps),
            )),
      )
  | inr e ↦
      let (d, eq, m) = info_read ps p s h in
      (
        entry (key_of k) (object (sequence xs)) d,
        info_behind (key_of k) (object (sequence xs)) (fields ps) p s
              (info_list_other (key_of k) (objects xs) p s e) eq
            ∙ rw e refl,
        rw e (omega arith),
      )
]

-- With an allocator that never refuses, torrent_info_parse of a parsed dictionary finds what a search
-- for each field by itself finds: the last value of its kind under its name, or what the struct held
-- before, and the files of all lists under "files" behind those that were there. It returns 0.
pub torrent_info_parse-fields :
    (ps : Pairs) (p : TorrentInfo) (s : Process)
    → Plenty s
    → (d : BDict) × (torrent_info_parse (some (fields ps)) p s
        ≡ some (record {
          entries = d;
          target = info_of ps p;
          process = grown s (all_count ps) (all_count ps);
          ok = true;
        }))
unfolding torrent_info_parse
torrent_info_parse-fields ps p s h = let (d, eq, m) = info_read ps p s h in (d, eq)
