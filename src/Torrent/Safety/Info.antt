-- ===== src/Torrent/Safety/Info.antt =====
-- torrent_info_parse of src/torrent_parse.c keeps account of the blocks of any dictionary.
use bt_server.Common.{
  ℕ, ◌+◌, ◌≡◌, refl, ◌==◌, true, false, Option, none, some, [], ◌∷◌, arith, ◌>>=◌, mapped,
  if◌then◌else◌,
}
use bt_server.Libc.{Bytes, codes}
use bt_server.Bcode.{Value, BList, BDict, Process, nil, cons, end, entry}
use bt_server.Bcode.Entries.{type_of}
use bt_server.Bcode.Blocks.{value_blocks, list_blocks, dict_blocks}
use bt_server.Torrent.{MultiFiles, InfoMultiFile, TorrentInfo, list_of, int_of, dict_of, moved}
use bt_server.Torrent.Files.{multi_files_alloc, multi_files_add, sizeof_multi_files}
use bt_server.Torrent.Info.{
  left_value, with_files, files_round, files_loop, torrent_info_entry, torrent_info_loop,
}
use bt_server.Torrent.Lookup.{text_blocks}
use bt_server.Torrent.Lookup.Files.{files_blocks, files_blocks-append}
use bt_server.Torrent.Lookup.InfoEntries.{info_blocks}
use bt_server.Torrent.Safety.Rounds.{
  Fine, Fine-if, Fine-bind, Fine-mapped, anything, Keeps, Keeps-continued, faulted, fine,
}
use bt_server.Torrent.Safety.Files.{
  string_of-blocks, is_entry, malloc-live, made_blocks, LeftFits, alloc-Fine,
}

pub multi_blocks : InfoMultiFile → ℕ
multi_blocks multi = text_blocks multi.dir_name + files_blocks multi.files_list

pub made_Fine :
    (made : Option MultiFiles) (left : Option BDict) (v : Value) (multi : InfoMultiFile)
    (s' : Process) (n l : ℕ)
    → LeftFits left (made_blocks made + l) (n + s'.live)
    → Fine (Keeps value_blocks multi_blocks (1 + n + multi_blocks multi) l) (
        some (elim made [
          | none ↦ record { entries = left_value left v; target = multi; process = s'; ok = false }
          | some files ↦ record {
            entries = left_value left v;
            target = multi_files_add files multi;
            process = s';
            ok = true;
          }
        ]))
unfolding value_blocks multi_files_add multi_blocks
made_Fine made none v multi s' n l h = absurd h
made_Fine none (some c) v multi s' n l h = fine (omega arith)
made_Fine (some files) (some c) v multi s' n l h =
    fine (omega (arith, files_blocks-append multi.files_list (files ∷ [])))

pub no_dict :
    (v : Value) (multi : InfoMultiFile) (s : Process)
    → dict_of v ≡ none
    → Fine
        (Keeps value_blocks multi_blocks (value_blocks v + multi_blocks multi) s.live)
        (files_round v multi s)
unfolding files_round multi_files_alloc
no_dict v multi s h = rw h (fine (omega (arith, malloc-live sizeof_multi_files s)))

pub files_round-Fine :
    (v : Value) (multi : InfoMultiFile) (s : Process)
    → Fine
        (Keeps value_blocks multi_blocks (value_blocks v + multi_blocks multi) s.live)
        (files_round v multi s)
unfolding files_round value_blocks dict_of
files_round-Fine (Value.list xs) multi s = no_dict (Value.list xs) multi s refl
files_round-Fine (Value.int n) multi s = no_dict (Value.int n) multi s refl
files_round-Fine (Value.string t) multi s = no_dict (Value.string t) multi s refl
files_round-Fine (Value.taken t) multi s = no_dict (Value.taken t) multi s refl
files_round-Fine (Value.dict d) multi s =
    Fine-bind (alloc-Fine d s)
      λ r h. made_Fine r.0 r.1 (Value.dict d) multi r.2 (dict_blocks d) s.live h

pub files_loop-Fine :
    (xs : BList) (multi : InfoMultiFile) (s : Process)
    → Fine
        (Keeps list_blocks multi_blocks (list_blocks xs + multi_blocks multi) s.live)
        (files_loop xs multi s)
unfolding files_loop list_blocks
files_loop-Fine nil multi s = fine (omega arith)
files_loop-Fine (cons v xs) multi s =
    Keeps-continued value_blocks list_blocks multi_blocks (value_blocks v + multi_blocks multi)
      s.live (1 + value_blocks v + list_blocks xs + multi_blocks multi) cons
      (if type_of v == b'd'
        then files_round v multi s
        else some (record { entries = v; target = multi; process = s; ok = true }))
      xs (λ multi' s'. files_loop xs multi' s') (omega arith) (λ w d. refl)
      (Fine-if (type_of v == b'd') (files_round-Fine v multi s) (fine (omega arith)))
      (λ multi' s'. files_loop-Fine xs multi' s')

pub files_field :
    (v : Value) (p : TorrentInfo) (s : Process)
    → Fine
        (Keeps value_blocks info_blocks (value_blocks v + info_blocks p) s.live)
        (list_of v >>= (λ xs. mapped (with_files p) (files_loop xs p.multi s)))
unfolding list_of value_blocks multi_blocks
files_field (Value.list xs) p s = Fine-mapped _ (files_loop-Fine xs p.multi s) (λ r h. omega arith)
files_field (Value.int n) p s = faulted
files_field (Value.string t) p s = faulted
files_field (Value.dict d) p s = faulted
files_field (Value.taken t) p s = faulted

-- A round of torrent_info_parse: nothing that it puts into the struct is used twice.
pub torrent_info_entry-Fine :
    (k : Bytes) (v : Value) (p : TorrentInfo) (s : Process)
    → Fine
        (Keeps value_blocks info_blocks (value_blocks v + info_blocks p) s.live)
        (torrent_info_entry k v p s)
unfolding torrent_info_entry value_blocks moved
torrent_info_entry-Fine k v p s =
    Fine-if (is_entry k v (codes "piece length") b'i')
      (Fine-bind (anything (int_of v)) (λ n _. fine (omega arith)))
      (Fine-if (is_entry k v (codes "pieces") b's') (fine (omega (arith, string_of-blocks v))) (
        Fine-if (is_entry k v (codes "name") b's') (fine (omega (arith, string_of-blocks v))) (
          Fine-if (is_entry k v (codes "name.utf-8") b's')
            (fine (omega (arith, string_of-blocks v)))
            (Fine-if (is_entry k v (codes "length") b'i')
              (Fine-bind (anything (int_of v)) (λ n _. fine (omega arith)))
              (Fine-if (is_entry k v (codes "publisher") b's')
                (fine (omega (arith, string_of-blocks v)))
                (Fine-if (is_entry k v (codes "private") b's')
                  (fine (omega (arith, string_of-blocks v)))
                  (Fine-if (is_entry k v (codes "md5sum") b's')
                    (fine (omega (arith, string_of-blocks v)))
                    (Fine-if (is_entry k v (codes "publisher utf-8") b's')
                      (fine (omega (arith, string_of-blocks v)))
                      (Fine-if (is_entry k v (codes "publisher url") b's')
                        (fine (omega (arith, string_of-blocks v)))
                        (Fine-if (is_entry k v (codes "publisher url utf-8") b's')
                          (fine (omega (arith, string_of-blocks v)))
                          (Fine-if (is_entry k v (codes "files") b'l') (files_field v p s)
                            (fine (omega arith)))))))))))))

pub torrent_info_loop-Fine :
    (d : BDict) (p : TorrentInfo) (s : Process)
    → Fine
        (Keeps dict_blocks info_blocks (dict_blocks d + info_blocks p) s.live)
        (torrent_info_loop d p s)
unfolding torrent_info_loop dict_blocks
torrent_info_loop-Fine end p s = fine (omega arith)
torrent_info_loop-Fine (entry k v d) p s =
    Keeps-continued value_blocks dict_blocks info_blocks (value_blocks v + info_blocks p) s.live
      (1 + value_blocks v + dict_blocks d + info_blocks p) (λ w rest. entry k w rest)
      (torrent_info_entry k v p s) d (λ p' s'. torrent_info_loop d p' s') (omega arith)
      (λ w c. refl) (torrent_info_entry-Fine k v p s) (λ p' s'. torrent_info_loop-Fine d p' s')
