-- ===== src/Torrent/Lookup/Entries.antt =====
-- A round of torrent_parse of src/torrent_parse.c, by the kind of the value.
use mathlib.Core.Bool.{and-false}
use bt_server.Common.{
  ℕ, ◌+◌, ◌≡◌, refl, inl, inr, true, false, Bool-cases, some, arith, if◌then◌else◌,
}
use bt_server.Libc.{Bytes, codes}
use bt_server.Bcode.{BString, BInt, BList, Value, BDict, Process, entry}
use bt_server.Bcode.Blocks.{string_blocks, value_blocks, list_blocks}
use bt_server.Torrent.{Torrent, TorrentInfo, Round, is_key, is_key→eq, dict_of}
use bt_server.Torrent.Info.{torrent_info_loop, torrent_info_parse}
use bt_server.Torrent.Parse.{torrent_entry, torrent_loop}
use bt_server.Torrent.Lookup.{text_blocks, path_blocks}
use bt_server.Torrent.Lookup.InfoEntries.{info_blocks}

-- The blocks that the pointers of the struct own, without the struct itself.
abbrev pub torrent_blocks : Torrent → ℕ
torrent_blocks p =
    text_blocks p.announce
    + text_blocks p.comment
    + text_blocks p.comment_utf8
    + text_blocks p.create_by
    + path_blocks p.announce_list
    + info_blocks p.info

abbrev pub with_text : Bytes → BString → Torrent → Torrent
with_text k t p = record p {
  announce = if is_key k (codes "announce") then some t else p.announce;
  comment = if is_key k (codes "comment") then some t else p.comment;
  comment_utf8 = if is_key k (codes "comment-utf8") then some t else p.comment_utf8;
  create_by = if is_key k (codes "create by") then some t else p.create_by;
}

abbrev text_lost : Bytes → Torrent → ℕ
text_lost k p =
    (if is_key k (codes "announce") then text_blocks p.announce else 0)
    + (if is_key k (codes "comment") then text_blocks p.comment else 0)
    + (if is_key k (codes "comment-utf8") then text_blocks p.comment_utf8 else 0)
    + (if is_key k (codes "create by") then text_blocks p.create_by else 0)

pub entry_text :
    (k : Bytes) (t : BString) (p : Torrent) (s : Process)
    → (v : Value) × (torrent_entry k (Value.string t) p s
        ≡ some (record { entries = v; target = with_text k t p; process = s; ok = true }))
      × (value_blocks v + torrent_blocks (with_text k t p) + text_lost k p
          ≡ torrent_blocks p + string_blocks t)
unfolding torrent_entry value_blocks
entry_text k t p s = elim (Bool-cases (is_key k (codes "announce"))) [
  | inl e ↦ rw (is_key→eq k _ e) (Value.taken b's', refl, omega arith)
  | inr e0 ↦ elim (Bool-cases (is_key k (codes "comment"))) [
    | inl e ↦ rw (is_key→eq k _ e) (Value.taken b's', refl, omega arith)
    | inr e1 ↦ elim (Bool-cases (is_key k (codes "comment-utf8"))) [
      | inl e ↦ rw (is_key→eq k _ e) (Value.taken b's', refl, omega arith)
      | inr e2 ↦ elim (Bool-cases (is_key k (codes "create by"))) [
        | inl e ↦ rw (is_key→eq k _ e) (Value.taken b's', refl, omega arith)
        | inr e3 ↦ rw (e0, e1, e2, e3) (Value.string t, simp (and-false), omega arith)
      ]
    ]
  ]
]

abbrev pub with_list : Bytes → BList → Torrent → Torrent
with_list k xs p = record p {
  announce_list = if is_key k (codes "announce-list") then some xs else p.announce_list;
}

pub entry_list :
    (k : Bytes) (xs : BList) (p : Torrent) (s : Process)
    → (v : Value) × (torrent_entry k (Value.list xs) p s
        ≡ some (record { entries = v; target = with_list k xs p; process = s; ok = true }))
      × (value_blocks v
            + torrent_blocks (with_list k xs p)
            + (if is_key k (codes "announce-list") then path_blocks p.announce_list else 0)
          ≡ torrent_blocks p + (1 + list_blocks xs))
unfolding torrent_entry value_blocks
entry_list k xs p s = elim (Bool-cases (is_key k (codes "announce-list"))) [
  | inl e ↦ rw (is_key→eq k _ e) (Value.taken b'l', refl, omega arith)
  | inr e ↦ rw e (Value.list xs, simp (and-false), omega arith)
]

abbrev pub with_number : Bytes → ℕ → Torrent → Torrent
with_number k n p = record p {
  create_date = if is_key k (codes "creation date") then n else p.create_date;
}

pub entry_number :
    (k : Bytes) (n : BInt) (p : Torrent) (s : Process)
    → torrent_entry k (Value.int n) p s
      ≡ some
          (record { entries = Value.int n; target = with_number k n.val p; process = s; ok = true })
unfolding torrent_entry
entry_number k n p s = elim (Bool-cases (is_key k (codes "creation date"))) [
  | inl e ↦ rw (is_key→eq k _ e) refl
  | inr e ↦ rw e (simp (and-false))
]

pub entry_other :
    (k : Bytes) (d : BDict) (p : Torrent) (s : Process)
    → is_key k (codes "info") ≡ false
    → torrent_entry k (Value.dict d) p s
      ≡ some (record { entries = Value.dict d; target = p; process = s; ok = true })
unfolding torrent_entry
entry_other k d p s h = rw h (simp (and-false))

pub entry_info :
    (k : Bytes) (d : BDict) (p : Torrent) (s : Process) {r : Round BDict TorrentInfo}
    → is_key k (codes "info") ≡ true
    → torrent_info_loop d p.info s ≡ some r
    → torrent_entry k (Value.dict d) p s
      ≡ some (record {
        entries = Value.dict r.entries;
        target = record p { info = r.target };
        process = r.process;
        ok = r.ok;
      })
unfolding torrent_entry torrent_info_parse dict_of
entry_info k d p s h e = rw (is_key→eq k _ h, e) refl

pub behind :
    (k : Bytes) (v : Value) (d : BDict) (p : Torrent) (s : Process) {v' : Value} {p' : Torrent}
    {s' : Process} {r : Round BDict Torrent}
    → torrent_entry k v p s ≡ some (record { entries = v'; target = p'; process = s'; ok = true })
    → torrent_loop d p' s' ≡ some r
    → torrent_loop (entry k v d) p s ≡ some (record r { entries = entry k v' r.entries })
unfolding torrent_loop
behind k v d p s h g = rw (h, g) refl
