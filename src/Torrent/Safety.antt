-- ===== src/Torrent/Safety.antt =====
-- torrent_parse of src/torrent_parse.c on any buffer: what the struct owns afterwards is allocated.
pub mod Rounds
pub mod Fields
pub mod Complete
pub mod Files
pub mod Info
use bt_server.Common.{
  ℕ, ◌+◌, ◌*◌, ◌<◌, length, ◌≤◌, ◌≡◌, refl, inl, inr, Bool-cases, Bool, ◌&&◌, ◌==◌, true, false,
  Option, none, some, List, [], ◌∷◌, ◌++◌, arith, ◌>>=◌, mapped, if◌then◌else◌,
}
use bt_server.Libc.{Bytes, codes}
use bt_server.Bcode
use bt_server.Bcode.{Value, BList, BDict, Process, Outcome, next, null, nil, cons, end, entry}
use bt_server.Bcode.Parse.{b_dict_parse}
use bt_server.Bcode.Total.{b_dict_parse_total}
use bt_server.Bcode.Total.Endings.{Plenty, Ends, Owned, parsed, refused, Ends-ne-spin}
use bt_server.Bcode.RoundTrip.Scalars.{grown}
use bt_server.Bcode.Entries.{type_of}
use bt_server.Bcode.Objects.{malloc}
use bt_server.Bcode.Blocks.{string_blocks, value_blocks, list_blocks, dict_blocks, b_dict_free_lem}
use bt_server.Torrent.{
  MultiFiles, InfoMultiFile, TorrentInfo, Torrent, Round, continued, is_key, list_of, string_of,
  int_of, dict_of, moved,
}
use bt_server.Torrent.Files.{
  multi_files_entry, multi_files_loop, multi_files_alloc, multi_files_add, zero_files,
  sizeof_multi_files,
}
use bt_server.Torrent.Info.{
  left_value, with_files, files_round, files_loop, torrent_info_entry, torrent_info_loop,
  torrent_info_parse,
}
use bt_server.Torrent.Parse.{
  Parsed, returns, undefined, endless, with_info, torrent_entry, torrent_loop, finished, dispatched,
  torrent_parse,
}
use bt_server.Torrent.Lookup.Entries.{torrent_blocks}
use bt_server.Torrent.Lookup.Whole.{b_dict_alloc_granted}
use bt_server.Torrent.Lookup.{text_blocks, path_blocks}
use bt_server.Torrent.Lookup.Files.{file_blocks, files_blocks, files_blocks-append}
use bt_server.Torrent.Lookup.InfoEntries.{info_blocks}
use bt_server.Bcode.Bounds.Scalars.{Anything, Yields, got}
use bt_server.Bcode.Bounds.Objects.{DictSized}
use bt_server.Bcode.Bounds.{b_list_parse_bounds}
use Fields.{TorrentOf, TorrentOf-all}
use Complete.{torrent_loop-Ready}
use Rounds.{
  Ready, ready, Fine, Fine-if, Fine-bind, Fine-mapped, anything, Keeps, Keeps-continued, faulted,
  fine,
}
use Files.{
  string_of-blocks, list_of-blocks, is_entry, multi_files_entry-Fine, multi_files_loop-Fine,
  malloc-live, made_blocks, LeftFits, alloc-Fine,
}
use Info.{
  multi_blocks, made_Fine, no_dict, files_round-Fine, files_loop-Fine, files_field,
  torrent_info_entry-Fine, torrent_info_loop-Fine,
}

info_field :
    (v : Value) (p : Torrent) (s : Process)
    → Fine
        (Keeps value_blocks torrent_blocks (value_blocks v + torrent_blocks p) s.live)
        (mapped (with_info p) (torrent_info_parse (dict_of v) p.info s))
unfolding dict_of value_blocks torrent_info_parse
info_field (Value.list xs) p s = faulted
info_field (Value.int n) p s = faulted
info_field (Value.string t) p s = faulted
info_field (Value.taken t) p s = faulted
info_field (Value.dict d) p s =
    Fine-mapped _ (torrent_info_loop-Fine d p.info s) (λ r h. omega arith)

torrent_entry-Fine :
    (k : Bytes) (v : Value) (p : Torrent) (s : Process)
    → Fine
        (Keeps value_blocks torrent_blocks (value_blocks v + torrent_blocks p) s.live)
        (torrent_entry k v p s)
unfolding torrent_entry value_blocks moved
torrent_entry-Fine k v p s =
    Fine-if (is_entry k v (codes "announce") b's') (fine (omega (arith, string_of-blocks v))) (
      Fine-if (is_entry k v (codes "announce-list") b'l') (fine (omega (arith, list_of-blocks v))) (
        Fine-if (is_entry k v (codes "comment") b's') (fine (omega (arith, string_of-blocks v))) (
          Fine-if (is_entry k v (codes "comment-utf8") b's')
            (fine (omega (arith, string_of-blocks v)))
            (Fine-if (is_entry k v (codes "comment") b's')
              (fine (omega (arith, string_of-blocks v)))
              (Fine-if (is_entry k v (codes "create by") b's')
                (fine (omega (arith, string_of-blocks v)))
                (Fine-if (is_entry k v (codes "creation date") b'i')
                  (Fine-bind (anything (int_of v)) (λ n _. fine (omega arith)))
                  (Fine-if (is_entry k v (codes "comment") b's')
                    (fine (omega (arith, string_of-blocks v)))
                    (Fine-if (is_entry k v (codes "comment-utf8") b's')
                      (fine (omega (arith, string_of-blocks v)))
                      (Fine-if (is_entry k v (codes "info") b'd') (info_field v p s)
                        (fine (omega arith)))))))))))

torrent_loop-Fine :
    (d : BDict) (p : Torrent) (s : Process)
    → Fine
        (Keeps dict_blocks torrent_blocks (dict_blocks d + torrent_blocks p) s.live)
        (torrent_loop d p s)
unfolding torrent_loop dict_blocks
torrent_loop-Fine end p s = fine (omega arith)
torrent_loop-Fine (entry k v d) p s =
    Keeps-continued value_blocks dict_blocks torrent_blocks (value_blocks v + torrent_blocks p)
      s.live (1 + value_blocks v + dict_blocks d + torrent_blocks p) (λ w rest. entry k w rest)
      (torrent_entry k v p s) d (λ p' s'. torrent_loop d p' s') (omega arith) (λ w c. refl)
      (torrent_entry-Fine k v p s) (λ p' s'. torrent_loop-Fine d p' s')

-- How torrent_parse comes back, by what b_dict_parse came back with. The struct owns live blocks
-- only, beside `b` others.
pub data Reads (b : ℕ) (before : Torrent) : Outcome BDict → Parsed → Type 0 where
  read :
      {d : BDict} {q : Bytes} {s t : Process} {p : Torrent}
      → b + torrent_blocks p ≤ t.live
      → Reads b before (next d q s) (returns true p t)
  rejected :
      {d : BDict} {s t : Process}
      → t.live ≡ b + torrent_blocks before
      → Reads b before (null d s) (returns false before t)
  overread : Reads b before Bcode.fault undefined

finished-Reads :
    (b : ℕ) (before : Torrent) (d c : BDict) (p : Torrent) (q : Bytes) (s t : Process)
    (r : Option (Round BDict Torrent))
    → b + 1 + dict_blocks d + torrent_blocks p ≤ s.live
    → Fine (Keeps dict_blocks torrent_blocks (dict_blocks d + torrent_blocks p) s.live) r
    → Ready (TorrentOf Anything Anything) r
    → Reads b before (next c q t) (finished r)
finished-Reads b before d c p q s t none l h c' = elim c' [ ]
finished-Reads b before d c p q s t (some r) l (fine h) (ready _ _) =
    read (rw (b_dict_free_lem r.entries r.process) (omega arith))

dispatched-Reads :
    (b c n : ℕ) (ptr : Torrent) (r : Outcome BDict)
    → c ≡ b + 1 + torrent_blocks ptr
    → Ends n (Owned dict_blocks c) (Owned dict_blocks c) r
    → Yields DictSized DictSized r
    → Reads b ptr r (dispatched ptr r)
dispatched-Reads b c n ptr (next d q s) e (parsed t p l) (got sized) =
    finished-Reads b ptr d d ptr q s s (torrent_loop d ptr s) (omega arith)
      (torrent_loop-Fine d ptr s)
      (torrent_loop-Ready Anything Anything (λ t h. tt) (λ xs h. tt) d ptr s sized p
        (TorrentOf-all Anything Anything ptr (λ t. tt) (λ xs. tt)))
dispatched-Reads b c n ptr (null d s) e (refused p l) y =
    rejected (rw (b_dict_free_lem d s) (omega arith))
dispatched-Reads b c n ptr Bcode.fault e h y = overread
dispatched-Reads b c n ptr Bcode.spin e h y = absurd (Ends-ne-spin h refl)

-- With an allocator that never refuses, torrent_parse comes back on every buffer: fuel above three
-- times its length is enough. It returns 0 just where b_dict_parse reads the buffer, and then the
-- objects that the struct points to are live blocks, beside the `b` others that were live before; it
-- returns -1 just where b_dict_parse refuses the buffer, with the struct as it was and nothing left
-- allocated; and it is undefined just where b_dict_parse is.
pub torrent_parse_total :
    (f : ℕ) (buf : Bytes) (ptr : Torrent) (s : Process) (b : ℕ)
    → 3 * length buf < f
    → Plenty s
    → s.live ≡ b + torrent_blocks ptr
    → Reads b ptr (b_dict_parse f buf end (grown s 1 1)) (torrent_parse f buf ptr s)
unfolding torrent_parse dict_blocks
torrent_parse_total f buf ptr s b h p l =
    let c = b + 1 + torrent_blocks ptr in
    rw (b_dict_alloc_granted s p, torrent_parse, b_dict_alloc_granted s p)
      (dispatched-Reads b c (length buf) ptr (b_dict_parse f buf end (grown s 1 1)) refl
        (b_dict_parse_total f buf end (grown s 1 1) h p c (omega arith))
        (b_list_parse_bounds f [] buf nil end (grown s 1 1) tt tt).1)
