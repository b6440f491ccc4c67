-- ===== src/Torrent/Lookup/Whole.antt =====
-- torrent_parse of src/torrent_parse.c finds the fields of a torrent in its file.
use bt_server.Common.{
  ℕ, ◌+◌, ◌*◌, ◌-◌, ◌≤◌, ◌<◌, ◌≡◌, refl, ◌∙◌, inl, inr, true, Bool-cases, some, ◌++◌, arith,
  if◌then◌else◌, length,
}
use bt_server.Libc.{Bytes, codes}
use bt_server.Bcode.{Value, BDict, Process, end, entry}
use bt_server.Bcode.Objects.{malloc, alloc}
use bt_server.Bcode.Entries.{b_dict_alloc}
use bt_server.Bcode.Blocks.{value_blocks, dict_blocks, b_dict_free_lem}
use bt_server.Bcode.Encode.{
  Pairs, text, number, sequence, mapping, no_pairs, pair, of_bytes, object, objects, fields, encode,
  FitsPairs,
}
use bt_server.Bcode.Total.Endings.{Plenty}
use bt_server.Bcode.RoundTrip.{b_dict_parse-encode}
use bt_server.Bcode.RoundTrip.Rounds.{mallocs_pairs}
use bt_server.Bcode.RoundTrip.Scalars.{grown}
use bt_server.Torrent.{Torrent, TorrentInfo}
use bt_server.Torrent.Parse.{returns, torrent_loop, torrent_parse}
use bt_server.Torrent.Lookup.{key_of, named, info_of, torrent_of, lost_text, lost_list}
use bt_server.Torrent.Lookup.Info.{all_count, info_lost, info_read}
use bt_server.Torrent.Lookup.Entries.{
  torrent_blocks, with_text, entry_text, with_list, entry_list, with_number, entry_number,
  entry_other, entry_info, behind,
}

-- The files under all "info", and the blocks that are lost there.
abbrev pub infos_count : Pairs → ℕ
infos_count no_pairs = 0
infos_count (pair k (text bs) ps) = infos_count ps
infos_count (pair k (number n) ps) = infos_count ps
infos_count (pair k (sequence xs) ps) = infos_count ps
infos_count (pair k (mapping qs) ps) =
    if named (codes "info") k then all_count qs + infos_count ps else infos_count ps

abbrev infos_lost : Pairs → TorrentInfo → ℕ
infos_lost no_pairs p = 0
infos_lost (pair k (text bs) ps) p = infos_lost ps p
infos_lost (pair k (number n) ps) p = infos_lost ps p
infos_lost (pair k (sequence xs) ps) p = infos_lost ps p
infos_lost (pair k (mapping qs) ps) p =
    (if named (codes "info") k then info_lost qs p else 0)
    + infos_lost ps (if named (codes "info") k then info_of qs p else p)

abbrev pub torrent_lost : Pairs → Torrent → ℕ
torrent_lost ps p =
    lost_text (codes "announce") ps p.announce
    + lost_text (codes "comment") ps p.comment
    + lost_text (codes "comment-utf8") ps p.comment_utf8
    + lost_text (codes "create by") ps p.create_by
    + lost_list (codes "announce-list") ps p.announce_list
    + infos_lost ps p.info

abbrev TorrentRead : Pairs → Torrent → Process → Type 0
TorrentRead ps p s =
    (d : BDict) × (torrent_loop (fields ps) p s
      ≡ some (record {
        entries = d;
        target = torrent_of ps p;
        process = grown s (infos_count ps) (infos_count ps);
        ok = true;
      }))
    × (dict_blocks d + torrent_blocks (torrent_of ps p) + torrent_lost ps p
        ≡ torrent_blocks p + dict_blocks (fields ps) + infos_count ps)

torrent_read : (ps : Pairs) (p : Torrent) (s : Process) → Plenty s → TorrentRead ps p s
unfolding torrent_loop fields object dict_blocks value_blocks
torrent_read no_pairs p s h = (end, ground arith, omega arith)
torrent_read (pair k (text bs) ps) p s h =
    let (v, round, n) = entry_text (key_of k) (of_bytes bs) p s in
    let (d, eq, m) = torrent_read ps (with_text (key_of k) (of_bytes bs) p) s h in
    (entry (key_of k) v d, rw (round, eq) refl, omega arith)
torrent_read (pair k (number n) ps) p s h =
    let (d, eq, m) = torrent_read ps (with_number (key_of k) n p) s h in
    (entry (key_of k) (object (number n)) d, rw (entry_number, eq) refl, omega arith)
torrent_read (pair k (sequence xs) ps) p s h =
    let (v, round, n) = entry_list (key_of k) (objects xs) p s in
    let (d, eq, m) = torrent_read ps (with_list (key_of k) (objects xs) p) s h in
    (entry (key_of k) v d, rw (round, eq) refl, omega arith)
torrent_read (pair k (mapping qs) ps) p s h = elim (Bool-cases (named (codes "info") k)) [
  | inl e ↦
      let (c, eq₁, n) = info_read qs p.info s h in
      let (d, eq, m) =
        torrent_read ps (record p { info = info_of qs p.info })
          (grown s (all_count qs) (all_count qs)) h in
      (
        entry (key_of k) (Value.dict c) d,
        behind (key_of k) (object (mapping qs)) (fields ps) p s
              (entry_info (key_of k) (fields qs) p s e eq₁) eq
            ∙ rw e (ground arith),
        simp (e) (omega arith),
      )
  | inr e ↦
      let (d, eq, m) = torrent_read ps p s h in
      (
        entry (key_of k) (object (mapping qs)) d,
        behind (key_of k) (object (mapping qs)) (fields ps) p s
              (entry_other (key_of k) (fields qs) p s e) eq
            ∙ rw e refl,
        simp (e) (omega arith),
      )
]

pub b_dict_alloc_granted : (s : Process) → Plenty s → b_dict_alloc s ≡ (some end, grown s 1 1)
unfolding b_dict_alloc alloc malloc
b_dict_alloc_granted s h = rw (h s.calls 24) refl

-- From an allocator that never refuses and a zero errno, torrent_parse of a printed dictionary
-- returns 0, whatever follows the print, and each field of the struct is the last value of its kind
-- under its name, or else what it was before; the files are those of the lists under "files",
-- behind those that were there. The blocks that are live are those that were, less the ones that the
-- struct owned, with those that it owns now and those lost to a field that was set again: the rest
-- of the dictionary is released. The struct's own blocks are live before. Fuel above three times the length of the print is enough.
pub torrent_parse-encode :
    (ps : Pairs) (f : ℕ) (rest : Bytes) (ptr : Torrent) (s : Process)
    → FitsPairs ps
    → 3 * length (encode (mapping ps)) < f
    → Plenty s
    → s.errno ≡ 0
    → torrent_blocks ptr ≤ s.live
    → (n : ℕ) × (torrent_parse f (encode (mapping ps) ++ rest) ptr s
        ≡ returns true
            (torrent_of ps ptr)
            (record s { calls = s.calls + (1 + mallocs_pairs ps + infos_count ps); live = n }))
      × (n + torrent_blocks ptr ≡ s.live + torrent_blocks (torrent_of ps ptr) + torrent_lost ps ptr)
unfolding torrent_parse
torrent_parse-encode ps f rest ptr s fits h p z b =
    let s₁ = grown s 1 1 in
    let s₂ = grown s₁ (mallocs_pairs ps) (dict_blocks (fields ps)) in
    let (d, eq, m) = torrent_read ps ptr s₂ p in
    let s₃ = grown s₂ (infos_count ps) (infos_count ps) in
    (
      s₃.live - (1 + dict_blocks d),
      rw
          (
            b_dict_alloc_granted s p,
            torrent_parse,
            b_dict_alloc_granted s p,
            b_dict_parse-encode ps f rest s₁ fits h p z,
            eq,
            b_dict_free_lem d s₃,
          )
          (ground arith),
      omega arith,
    )
