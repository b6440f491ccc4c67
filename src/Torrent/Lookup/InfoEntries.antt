-- ===== src/Torrent/Lookup/InfoEntries.antt =====
-- A round of torrent_info_parse of src/torrent_parse.c, by the kind of the value.
use mathlib.Core.Bool.{and-false}
use bt_server.Common.{
  ℕ, ◌+◌, ◌≡◌, refl, inl, inr, true, false, Bool-cases, some, arith, if◌then◌else◌,
}
use bt_server.Libc.{Bytes, codes}
use bt_server.Bcode.{BString, BInt, BList, Value, BDict, Process}
use bt_server.Bcode.Blocks.{string_blocks, value_blocks}
use bt_server.Torrent.{InfoMultiFile, TorrentInfo, Round, is_key, is_key→eq}
use bt_server.Torrent.Info.{torrent_info_entry, files_loop}
use bt_server.Torrent.Lookup.{text_blocks}
use bt_server.Torrent.Lookup.Files.{files_blocks}

-- The blocks that the pointers of the struct own.
abbrev pub info_blocks : TorrentInfo → ℕ
info_blocks p =
    text_blocks p.piece_hash
    + text_blocks p.name
    + text_blocks p.name_utf8
    + text_blocks p.publisher
    + text_blocks p.private
    + text_blocks p.md5sum
    + text_blocks p.publisher_utf8
    + text_blocks p.publisher_url
    + text_blocks p.publisher_url_utf8
    + text_blocks p.multi.dir_name
    + files_blocks p.multi.files_list

-- What a string under the key `k` does to the struct.
abbrev pub with_text : Bytes → BString → TorrentInfo → TorrentInfo
with_text k t p = record p {
  piece_hash = if is_key k (codes "pieces") then some t else p.piece_hash;
  name = if is_key k (codes "name") then some t else p.name;
  name_utf8 = if is_key k (codes "name.utf-8") then some t else p.name_utf8;
  publisher = if is_key k (codes "publisher") then some t else p.publisher;
  private = if is_key k (codes "private") then some t else p.private;
  md5sum = if is_key k (codes "md5sum") then some t else p.md5sum;
  publisher_utf8 = if is_key k (codes "publisher utf-8") then some t else p.publisher_utf8;
  publisher_url = if is_key k (codes "publisher url") then some t else p.publisher_url;
  publisher_url_utf8 =
      if is_key k (codes "publisher url utf-8") then some t else p.publisher_url_utf8;
}

abbrev text_lost : Bytes → TorrentInfo → ℕ
text_lost k p =
    (if is_key k (codes "pieces") then text_blocks p.piece_hash else 0)
    + (if is_key k (codes "name") then text_blocks p.name else 0)
    + (if is_key k (codes "name.utf-8") then text_blocks p.name_utf8 else 0)
    + (if is_key k (codes "publisher") then text_blocks p.publisher else 0)
    + (if is_key k (codes "private") then text_blocks p.private else 0)
    + (if is_key k (codes "md5sum") then text_blocks p.md5sum else 0)
    + (if is_key k (codes "publisher utf-8") then text_blocks p.publisher_utf8 else 0)
    + (if is_key k (codes "publisher url") then text_blocks p.publisher_url else 0)
    + (if is_key k (codes "publisher url utf-8") then text_blocks p.publisher_url_utf8 else 0)

pub info_text :
    (k : Bytes) (t : BString) (p : TorrentInfo) (s : Process)
    → (v : Value) × (torrent_info_entry k (Value.string t) p s
        ≡ some (record { entries = v; target = with_text k t p; process = s; ok = true }))
      × (value_blocks v + info_blocks (with_text k t p) + text_lost k p
          ≡ info_blocks p + string_blocks t)
unfolding torrent_info_entry value_blocks
info_text k t p s = elim (Bool-cases (is_key k (codes "pieces"))) [
  | inl e ↦ rw (is_key→eq k _ e) (Value.taken b's', refl, omega arith)
  | inr e0 ↦ elim (Bool-cases (is_key k (codes "name"))) [
    | inl e ↦ rw (is_key→eq k _ e) (Value.taken b's', refl, omega arith)
    | inr e1 ↦ elim (Bool-cases (is_key k (codes "name.utf-8"))) [
      | inl e ↦ rw (is_key→eq k _ e) (Value.taken b's', refl, omega arith)
      | inr e2 ↦ elim (Bool-cases (is_key k (codes "publisher"))) [
        | inl e ↦ rw (is_key→eq k _ e) (Value.taken b's', refl, omega arith)
        | inr e3 ↦ elim (Bool-cases (is_key k (codes "private"))) [
          | inl e ↦ rw (is_key→eq k _ e) (Value.taken b's', refl, omega arith)
          | inr e4 ↦ elim (Bool-cases (is_key k (codes "md5sum"))) [
            | inl e ↦ rw (is_key→eq k _ e) (Value.taken b's', refl, omega arith)
            | inr e5 ↦ elim (Bool-cases (is_key k (codes "publisher utf-8"))) [
              | inl e ↦ rw (is_key→eq k _ e) (Value.taken b's', refl, omega arith)
              | inr e6 ↦ elim (Bool-cases (is_key k (codes "publisher url"))) [
                | inl e ↦ rw (is_key→eq k _ e) (Value.taken b's', refl, omega arith)
                | inr e7 ↦ elim (Bool-cases (is_key k (codes "publisher url utf-8"))) [
                  | inl e ↦ rw (is_key→eq k _ e) (Value.taken b's', refl, omega arith)
                  | inr e8 ↦
                      rw (e0, e1, e2, e3, e4, e5, e6, e7, e8)
                        (Value.string t, simp (and-false), omega arith)
                ]
              ]
            ]
          ]
        ]
      ]
    ]
  ]
]

abbrev pub with_number : Bytes → ℕ → TorrentInfo → TorrentInfo
with_number k n p = record p {
  piece_len = if is_key k (codes "piece length") then n else p.piece_len;
  length = if is_key k (codes "length") then n else p.length;
}

pub info_number :
    (k : Bytes) (n : BInt) (p : TorrentInfo) (s : Process)
    → torrent_info_entry k (Value.int n) p s
      ≡ some
          (record { entries = Value.int n; target = with_number k n.val p; process = s; ok = true })
unfolding torrent_info_entry
info_number k n p s = elim (Bool-cases (is_key k (codes "piece length"))) [
  | inl e ↦ rw (is_key→eq k _ e) refl
  | inr e ↦ elim (Bool-cases (is_key k (codes "length"))) [
    | inl e' ↦ rw (is_key→eq k _ e') refl
    | inr e' ↦ rw (e, e') (simp (and-false))
  ]
]

pub info_dict :
    (k : Bytes) (d : BDict) (p : TorrentInfo) (s : Process)
    → torrent_info_entry k (Value.dict d) p s
      ≡ some (record { entries = Value.dict d; target = p; process = s; ok = true })
unfolding torrent_info_entry
info_dict k d p s = simp (and-false)

pub info_list_other :
    (k : Bytes) (xs : BList) (p : TorrentInfo) (s : Process)
    → is_key k (codes "files") ≡ false
    → torrent_info_entry k (Value.list xs) p s
      ≡ some (record { entries = Value.list xs; target = p; process = s; ok = true })
unfolding torrent_info_entry
info_list_other k xs p s h = rw h (simp (and-false))

pub info_list_files :
    (k : Bytes) (xs : BList) (p : TorrentInfo) (s : Process) {r : Round BList InfoMultiFile}
    → is_key k (codes "files") ≡ true
    → files_loop xs p.multi s ≡ some r
    → torrent_info_entry k (Value.list xs) p s
      ≡ some (record {
        entries = Value.list r.entries;
        target = record p { multi = r.target };
        process = r.process;
        ok = r.ok;
      })
unfolding torrent_info_entry
info_list_files k xs p s h e = rw (is_key→eq k _ h, e) refl
