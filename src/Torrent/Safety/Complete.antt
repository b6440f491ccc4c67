-- ===== src/Torrent/Safety/Complete.antt =====
-- The loops of src/torrent_parse.c on any dictionary that was parsed, while malloc never refuses: no
-- pointer that they read is NULL, and none of them breaks off.
use bt_server.Common.{◌≡◌, refl, inl, inr, Bool-cases, some, All-append, [], ◌∷◌}
use bt_server.Libc.{Bytes, codes}
use bt_server.Bcode.{BString, Value, BList, BDict, Process, nil, cons, end, entry}
use bt_server.Bcode.Entries.{type_of}
use bt_server.Bcode.Bounds.Scalars.{StringSized}
use bt_server.Bcode.Bounds.Objects.{Sized, ListSized, DictSized}
use bt_server.Bcode.Total.Endings.{Plenty}
use bt_server.Torrent.{MultiFiles, InfoMultiFile, TorrentInfo, Torrent, is_key, dict_of}
use bt_server.Torrent.Safety.Fields.{
  IfAny-if, InfoOf-files, InfoOf-numbers, TorrentOf-info, FileOf, MultiOf, InfoOf, TorrentOf,
}
use bt_server.Torrent.Safety.Rounds.{Ready, ready, Ready-joined, Ready-continued, Ready-within}
use bt_server.Torrent.Files.{
  multi_files_add, multi_files_entry, multi_files_loop, multi_files_alloc, zero_files,
  sizeof_multi_files,
}
use bt_server.Torrent.Info.{files_round, files_loop, torrent_info_entry, torrent_info_loop}
use bt_server.Torrent.Parse.{torrent_entry, torrent_loop}
use bt_server.Torrent.Lookup.Files.{
  entry_list, entry_number, entry_string, entry_dict, malloc-Plenty,
}
use bt_server.Torrent.Lookup.InfoEntries.{
  info_text, info_number, info_dict, info_list_other, info_list_files,
}
use bt_server.Torrent.Lookup.Entries.{
  entry_list as torrent_list, entry_number as torrent_number, entry_text, entry_other, entry_info,
}

module _ (S : BString → Type 0) (L : BList → Type 0)
    (string_S : (t : BString) → StringSized t → S t)
    (list_L : (xs : BList) → ListSized xs → L xs) where
  file_entry-FileOf :
      (k : Bytes) (v : Value) (ptr : MultiFiles)
      → Sized v
      → FileOf L ptr
      → (r : Value × MultiFiles) × (multi_files_entry k v ptr ≡ some r) × FileOf L r.1
  file_entry-FileOf k (Value.list xs) ptr h o =
      let (v, eq, m) = entry_list k xs ptr in
      (
        _,
        eq,
        record {
          path = IfAny-if L _ (some xs) ptr.path (list_L xs h) o.path;
          path_utf8 = IfAny-if L _ (some xs) ptr.path_utf8 (list_L xs h) o.path_utf8;
        },
      )
  file_entry-FileOf k (Value.int n) ptr h o =
      (_, entry_number k n ptr, record { path = o.path; path_utf8 = o.path_utf8 })
  file_entry-FileOf k (Value.string t) ptr h o = (_, entry_string k t ptr, o)
  file_entry-FileOf k (Value.dict d) ptr h o = (_, entry_dict k d ptr, o)
  file_entry-FileOf k (Value.taken t) ptr h o = absurd h

  file_loop-FileOf :
      (d : BDict) (ptr : MultiFiles)
      → DictSized d
      → FileOf L ptr
      → (r : BDict × MultiFiles) × (multi_files_loop d ptr ≡ some r) × FileOf L r.1
  unfolding multi_files_loop
  file_loop-FileOf end ptr h o = (_, refl, o)
  file_loop-FileOf (entry k v d) ptr (a, b, c) o =
      let (r, round, o') = file_entry-FileOf k v ptr b o in
      let (q, rest, o'') = file_loop-FileOf d r.1 c o' in
      ((entry k r.0 q.0, q.1), rw (round, rest) refl, o'')

  files_round-Ready :
      (d : BDict) (multi : InfoMultiFile) (s : Process)
      → DictSized d
      → Plenty s
      → MultiOf S L multi
      → Ready (MultiOf S L) (files_round (Value.dict d) multi s)
  unfolding files_round multi_files_alloc dict_of multi_files_add
  files_round-Ready d multi s h p o =
      let (r, eq, f) = file_loop-FileOf d zero_files h (record { path = tt; path_utf8 = tt }) in
      rw
        (
          malloc-Plenty sizeof_multi_files s p,
          multi_files_alloc,
          eq,
          malloc-Plenty sizeof_multi_files s p,
        )
        (ready p (record {
          dir_name = o.dir_name;
          files_list = All-append (FileOf L) multi.files_list (r.1 ∷ []) o.files_list (f, tt);
        }))

  files_loop-Ready :
      (xs : BList) (multi : InfoMultiFile) (s : Process)
      → ListSized xs
      → Plenty s
      → MultiOf S L multi
      → Ready (MultiOf S L) (files_loop xs multi s)
  unfolding files_loop type_of
  files_loop-Ready nil multi s h p o = ready p o
  files_loop-Ready (cons (Value.list ys) xs) multi s (a, b) p o =
      Ready-joined cons (Value.list ys) (files_loop-Ready xs multi s b p o)
  files_loop-Ready (cons (Value.int n) xs) multi s (a, b) p o =
      Ready-joined cons (Value.int n) (files_loop-Ready xs multi s b p o)
  files_loop-Ready (cons (Value.string t) xs) multi s (a, b) p o =
      Ready-joined cons (Value.string t) (files_loop-Ready xs multi s b p o)
  files_loop-Ready (cons (Value.taken t) xs) multi s (a, b) p o = absurd a
  files_loop-Ready (cons (Value.dict d) xs) multi s (a, b) p o =
      Ready-continued cons xs (files_round-Ready d multi s a p o)
        (λ multi' s' p' o'. files_loop-Ready xs multi' s' b p' o')

  info_entry-Ready :
      (k : Bytes) (v : Value) (info : TorrentInfo) (s : Process)
      → Sized v
      → Plenty s
      → InfoOf S L info
      → Ready (InfoOf S L) (torrent_info_entry k v info s)
  info_entry-Ready k (Value.string t) info s h p o =
      let (v, eq, m) = info_text k t info s in
      let q : S t = string_S t h in
      rw eq (
        ready p (record {
          piece_hash = IfAny-if S _ (some t) info.piece_hash q o.piece_hash;
          private = IfAny-if S _ (some t) info.private q o.private;
          name = IfAny-if S _ (some t) info.name q o.name;
          name_utf8 = IfAny-if S _ (some t) info.name_utf8 q o.name_utf8;
          md5sum = IfAny-if S _ (some t) info.md5sum q o.md5sum;
          publisher = IfAny-if S _ (some t) info.publisher q o.publisher;
          publisher_utf8 = IfAny-if S _ (some t) info.publisher_utf8 q o.publisher_utf8;
          publisher_url = IfAny-if S _ (some t) info.publisher_url q o.publisher_url;
          publisher_url_utf8 = IfAny-if S _ (some t) info.publisher_url_utf8 q o.publisher_url_utf8;
          multi = o.multi;
        }))
  info_entry-Ready k (Value.int n) info s h p o =
      rw (info_number k n info s) (ready p (InfoOf-numbers S L info _ _ o))
  info_entry-Ready k (Value.dict d) info s h p o = rw (info_dict k d info s) (ready p o)
  info_entry-Ready k (Value.taken t) info s h p o = absurd h
  info_entry-Ready k (Value.list xs) info s h p o = elim (Bool-cases (is_key k (codes "files"))) [
    | inl e ↦
        Ready-within Value.list (λ m. record info { multi = m })
          (files_loop-Ready xs info.multi s h p o.multi) (λ m om. InfoOf-files S L info m o om)
          (λ r eq. info_list_files k xs info s e eq)
    | inr e ↦ rw (info_list_other k xs info s e) (ready p o)
  ]

  info_loop-Ready :
      (d : BDict) (info : TorrentInfo) (s : Process)
      → DictSized d
      → Plenty s
      → InfoOf S L info
      → Ready (InfoOf S L) (torrent_info_loop d info s)
  unfolding torrent_info_loop
  info_loop-Ready end info s h p o = ready p o
  info_loop-Ready (entry k v d) info s (a, b, c) p o =
      Ready-continued (λ w rest. entry k w rest) d (info_entry-Ready k v info s b p o)
        (λ info' s' p' o'. info_loop-Ready d info' s' c p' o')

  torrent_entry-Ready :
      (k : Bytes) (v : Value) (ptr : Torrent) (s : Process)
      → Sized v
      → Plenty s
      → TorrentOf S L ptr
      → Ready (TorrentOf S L) (torrent_entry k v ptr s)
  torrent_entry-Ready k (Value.string t) ptr s h p o =
      let (v, eq, m) = entry_text k t ptr s in
      let q : S t = string_S t h in
      rw eq (
        ready p (record {
          announce = IfAny-if S _ (some t) ptr.announce q o.announce;
          announce_list = o.announce_list;
          comment = IfAny-if S _ (some t) ptr.comment q o.comment;
          comment_utf8 = IfAny-if S _ (some t) ptr.comment_utf8 q o.comment_utf8;
          create_by = IfAny-if S _ (some t) ptr.create_by q o.create_by;
          info = o.info;
        }))
  torrent_entry-Ready k (Value.list xs) ptr s h p o =
      let (v, eq, m) = torrent_list k xs ptr s in
      rw eq (
        ready p (record {
          announce = o.announce;
          announce_list = IfAny-if L _ (some xs) ptr.announce_list (list_L xs h) o.announce_list;
          comment = o.comment;
          comment_utf8 = o.comment_utf8;
          create_by = o.create_by;
          info = o.info;
        }))
  torrent_entry-Ready k (Value.int n) ptr s h p o = rw (torrent_number k n ptr s) (
      ready p (record {
        announce = o.announce;
        announce_list = o.announce_list;
        comment = o.comment;
        comment_utf8 = o.comment_utf8;
        create_by = o.create_by;
        info = o.info;
      }))
  torrent_entry-Ready k (Value.taken t) ptr s h p o = absurd h
  torrent_entry-Ready k (Value.dict d) ptr s h p o = elim (Bool-cases (is_key k (codes "info"))) [
    | inl e ↦
        Ready-within Value.dict (λ i. record ptr { info = i })
          (info_loop-Ready d ptr.info s h p o.info) (λ i oi. TorrentOf-info S L ptr i o oi)
          (λ r eq. entry_info k d ptr s e eq)
    | inr e ↦ rw (entry_other k d ptr s e) (ready p o)
  ]

  -- torrent_parse's loop over any parsed dictionary comes to its end.
  pub torrent_loop-Ready :
      (d : BDict) (ptr : Torrent) (s : Process)
      → DictSized d
      → Plenty s
      → TorrentOf S L ptr
      → Ready (TorrentOf S L) (torrent_loop d ptr s)
  unfolding torrent_loop
  torrent_loop-Ready end ptr s h p o = ready p o
  torrent_loop-Ready (entry k v d) ptr s (a, b, c) p o =
      Ready-continued (λ w rest. entry k w rest) d (torrent_entry-Ready k v ptr s b p o)
        (λ ptr' s' p' o'. torrent_loop-Ready d ptr' s' c p' o')
