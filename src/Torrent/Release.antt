-- ===== src/Torrent/Release.antt =====
-- What torrent_free of src/torrent_parse.c gives back, and what it does not.
use bt_server.Common.{
  ℕ, ◌+◌, ◌-◌, ◌*◌, ◌<◌, ◌++◌, length, true, ◌≡◌, refl, ap, Option, none, some, List, [], ◌∷◌,
  arith, mapped,
}
use bt_server.Bcode.{BString, BList, Process}
use bt_server.Bcode.Objects.{malloc, free, b_string_free}
use bt_server.Bcode.Free.{b_list_free}
use bt_server.Bcode.Blocks.{with_live, b_string_free_lem, b_list_free_lem}
use bt_server.Libc.{Bytes}
use bt_server.Bcode.Encode.{Pairs, mapping, encode, FitsPairs}
use bt_server.Bcode.Total.Endings.{Plenty}
use bt_server.Bcode.RoundTrip.Rounds.{mallocs_pairs}
use bt_server.Bcode.RoundTrip.Scalars.{grown}
use bt_server.Torrent.Parse.{returns, torrent_parse}
use bt_server.Torrent.{
  zero_torrent, sizeof_torrent, torrent_alloc, MultiFiles, InfoMultiFile, TorrentInfo, Torrent,
}
use bt_server.Torrent.Free.{
  multi_files_free, files_free, info_multi_files_free, free_again, torrent_info_free, torrent_free,
}
use bt_server.Torrent.Lookup.{torrent_of, text_blocks, path_blocks}
use bt_server.Torrent.Lookup.Files.{file_blocks, files_blocks}
use bt_server.Torrent.Lookup.Entries.{torrent_blocks}
use bt_server.Torrent.Lookup.Whole.{torrent_lost, infos_count, torrent_parse-encode}

text_freed :
    (p : Option BString) (s : Process) → b_string_free p s ≡ with_live (s.live - text_blocks p) s
unfolding b_string_free
text_freed none s = ground arith
text_freed (some p) s = b_string_free_lem p s

path_freed :
    (p : Option BList) (s : Process) → b_list_free p s ≡ with_live (s.live - path_blocks p) s
unfolding b_list_free
path_freed none s = ground arith
path_freed (some p) s = b_list_free_lem p s

file_freed :
    (vec : MultiFiles) (s : Process)
    → multi_files_free (some vec) s ≡ with_live (s.live - file_blocks vec) s
unfolding multi_files_free free
file_freed vec s = rw (path_freed vec.path s, path_freed vec.path_utf8 _) (ground arith)

files_freed :
    (fs : List MultiFiles) (s : Process) → files_free fs s ≡ with_live (s.live - files_blocks fs) s
unfolding files_free
files_freed [] s = ground arith
files_freed (vec ∷ rest) s = rw (file_freed vec s, files_freed rest _) (ground arith)

multi_freed :
    (multi : InfoMultiFile) (s : Process)
    → info_multi_files_free multi s
      ≡ with_live (s.live - (text_blocks multi.dir_name + files_blocks multi.files_list)) s
unfolding info_multi_files_free
multi_freed multi s =
    rw (files_freed multi.files_list s, text_freed multi.dir_name _) (ground arith)

-- The blocks that torrent_info_free gives back.
abbrev info_freed_blocks : TorrentInfo → ℕ
info_freed_blocks p =
    text_blocks p.piece_hash
    + text_blocks p.private
    + text_blocks p.name
    + text_blocks p.name_utf8
    + text_blocks p.md5sum
    + text_blocks p.publisher
    + text_blocks p.publisher_utf8
    + (text_blocks p.multi.dir_name + files_blocks p.multi.files_list)

second_release :
    (url : Option BString) (multi : InfoMultiFile) (n m : ℕ) (s : Process)
    → m ≡ n - (text_blocks multi.dir_name + files_blocks multi.files_list)
    → mapped (info_multi_files_free multi) (free_again url (with_live (n - text_blocks url) s))
      ≡ elim url [ none ↦ some (with_live m s) | some _ ↦ none ]
unfolding free_again
second_release none multi n m s h = rw (multi_freed multi (with_live (n - 0) s)) (ground arith)
second_release (some u) multi n m s h = refl

info_freed :
    (p : TorrentInfo) (s : Process)
    → torrent_info_free p s ≡ elim p.publisher_url [
      | none ↦ some (with_live (s.live - info_freed_blocks p) s)
      | some _ ↦ none
    ]
unfolding torrent_info_free
info_freed p s =
    simp (text_freed)
      (second_release p.publisher_url p.multi _ (s.live - info_freed_blocks p) s (omega arith))

freed_after :
    (url : Option BString) (s : Process) (m n : ℕ)
    → (text_blocks url ≡ 0 → m - 1 ≡ n)
    → mapped free
        (elim url as (λ _. Option Process) [ none ↦ some (with_live m s) | some _ ↦ none ])
      ≡ elim url [ none ↦ some (with_live n s) | some _ ↦ none ]
unfolding free
freed_after none s m n h = ap (λ (k : ℕ). some (with_live k s)) (h refl)
freed_after (some u) s m n h = refl

-- torrent_free of a struct without a publisher url gives back the struct and what it points to, but
-- for the `create by` text and the publisher url in UTF-8, which stay allocated. With a publisher url
-- it releases this string twice.
pub torrent_free_lem :
    (p : Torrent) (s : Process)
    → torrent_free (some p) s ≡ elim p.info.publisher_url [
      | none ↦ some (
          with_live
            (s.live
              - (1
                  + torrent_blocks p
                  - (text_blocks p.create_by + text_blocks p.info.publisher_url_utf8)))
            s)
      | some _ ↦ none
    ]
unfolding torrent_free
torrent_free_lem p s =
    simp (text_freed, path_freed)
      (rw (info_freed p.info _) (freed_after p.info.publisher_url s _ _ (λ h. omega arith)))

torrent_alloc_granted :
    (s : Process) → Plenty s → torrent_alloc s ≡ (some zero_torrent, grown s 1 1)
unfolding torrent_alloc malloc
torrent_alloc_granted s p =
    rw (p s.calls sizeof_torrent, torrent_alloc, p s.calls sizeof_torrent) refl

-- From an allocator that never refuses and a zero errno, a torrent that is allocated and parsed from
-- a printed dictionary owns what the dictionary says. Its release runs into undefined behaviour if
-- there is a publisher url, and otherwise leaves allocated, beside what was live before, just the
-- `create by` text, the publisher url in UTF-8 and the objects of fields that were set more than
-- once. Fuel above three times the length of the print is enough.
pub torrent_free-parse :
    (ps : Pairs) (f : ℕ) (rest : Bytes) (s : Process)
    → FitsPairs ps
    → 3 * length (encode (mapping ps)) < f
    → Plenty s
    → s.errno ≡ 0
    → let p = torrent_of ps zero_torrent in
      (t : Process) × (torrent_alloc s ≡ (some zero_torrent, grown s 1 1))
      × (torrent_parse f (encode (mapping ps) ++ rest) zero_torrent (grown s 1 1)
          ≡ returns true p t)
      × (torrent_free (some p) t ≡ elim p.info.publisher_url [
        | none ↦ some (
            with_live
              (s.live
                + text_blocks p.create_by
                + text_blocks p.info.publisher_url_utf8
                + torrent_lost ps zero_torrent)
              t)
        | some _ ↦ none
      ])
torrent_free-parse ps f rest s fits h p e =
    let (n, eq, m) =
      torrent_parse-encode ps f rest zero_torrent (grown s 1 1) fits h p e (omega arith) in
    let t = record (grown s 1 1) {
      calls = s.calls + 1 + (1 + mallocs_pairs ps + infos_count ps);
      live = n;
    } in
    (
      t,
      torrent_alloc_granted s p,
      eq,
      rw (torrent_free_lem (torrent_of ps zero_torrent) t) (
          ap
            (λ (k : ℕ).
              elim (torrent_of ps zero_torrent).info.publisher_url as (λ _. Option Process) [
                | none ↦ some (with_live k t)
                | some _ ↦ none
              ])
            (omega arith)),
    )
