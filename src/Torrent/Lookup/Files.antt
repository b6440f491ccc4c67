-- ===== src/Torrent/Lookup/Files.antt =====
-- multi_files_alloc of src/torrent_parse.c finds the fields of a file.
use bt_server.Common.{
  ℕ, ◌+◌, ◌≡◌, refl, inl, inr, true, false, Bool-cases, List, append_assoc, append-nil, ◌==◌, some,
  ◌∷◌, ◌++◌, [], arith, if◌then◌else◌,
}
use mathlib.Core.Bool.{and-false}
use bt_server.Libc.{Bytes, codes}
use bt_server.Bcode.{BString, BInt, Value, BList, BDict, end, entry, Process, nil, cons}
use bt_server.Bcode.Blocks.{value_blocks, list_blocks, dict_blocks}
use bt_server.Bcode.Encode.{
  Terms, no_terms, term, Pairs, text, number, sequence, mapping, no_pairs, pair, object, objects,
  fields,
}
use bt_server.Torrent.{InfoMultiFile, Round, dict_of, MultiFiles, is_key, is_key→eq}
use bt_server.Bcode.Objects.{malloc}
use bt_server.Bcode.Entries.{type_of}
use bt_server.Bcode.Total.Endings.{Plenty}
use bt_server.Bcode.RoundTrip.Scalars.{grown}
use bt_server.Torrent.Info.{files_round, files_loop}
use bt_server.Torrent.Files.{
  sizeof_multi_files, zero_files, multi_files_add, multi_files_alloc, multi_files_entry,
  multi_files_loop,
}
use bt_server.Torrent.Lookup.{files_in, key_of, file_of, lost_list, path_blocks}

abbrev pub file_blocks : MultiFiles → ℕ
file_blocks ptr = 1 + path_blocks ptr.path + path_blocks ptr.path_utf8

-- What a list under the key `k` does to the struct.
abbrev pub with_list : Bytes → BList → MultiFiles → MultiFiles
with_list k xs ptr = record ptr {
  path = if is_key k (codes "path") then some xs else ptr.path;
  path_utf8 = if is_key k (codes "path.utf-8") then some xs else ptr.path_utf8;
}

abbrev list_lost : Bytes → MultiFiles → ℕ
list_lost k ptr =
    (if is_key k (codes "path") then path_blocks ptr.path else 0)
    + (if is_key k (codes "path.utf-8") then path_blocks ptr.path_utf8 else 0)

pub entry_list :
    (k : Bytes) (xs : BList) (ptr : MultiFiles)
    → (v : Value) × (multi_files_entry k (Value.list xs) ptr ≡ some (v, with_list k xs ptr))
      × (value_blocks v + file_blocks (with_list k xs ptr) + list_lost k ptr
          ≡ file_blocks ptr + (1 + list_blocks xs))
unfolding multi_files_entry value_blocks
entry_list k xs ptr = elim (Bool-cases (is_key k (codes "path"))) [
  | inl e ↦ rw (is_key→eq k _ e) (Value.taken b'l', refl, omega arith)
  | inr e ↦ elim (Bool-cases (is_key k (codes "path.utf-8"))) [
    | inl e' ↦ rw (is_key→eq k _ e') (Value.taken b'l', refl, omega arith)
    | inr e' ↦ rw (e, e', and-false) (Value.list xs, refl, omega arith)
  ]
]

abbrev pub with_number : Bytes → ℕ → MultiFiles → MultiFiles
with_number k n ptr = record ptr { length = if is_key k (codes "length") then n else ptr.length }

pub entry_number :
    (k : Bytes) (n : BInt) (ptr : MultiFiles)
    → multi_files_entry k (Value.int n) ptr ≡ some (Value.int n, with_number k n.val ptr)
unfolding multi_files_entry
entry_number k n ptr = elim (Bool-cases (is_key k (codes "length"))) [
  | inl e ↦ rw (is_key→eq k _ e) refl
  | inr e ↦ rw e (simp (and-false))
]

pub entry_string :
    (k : Bytes) (t : BString) (ptr : MultiFiles)
    → multi_files_entry k (Value.string t) ptr ≡ some (Value.string t, ptr)
unfolding multi_files_entry
entry_string k t ptr = simp (and-false)

pub entry_dict :
    (k : Bytes) (d : BDict) (ptr : MultiFiles)
    → multi_files_entry k (Value.dict d) ptr ≡ some (Value.dict d, ptr)
unfolding multi_files_entry
entry_dict k d ptr = simp (and-false)

abbrev file_lost : Pairs → MultiFiles → ℕ
file_lost ps old =
    lost_list (codes "path") ps old.path + lost_list (codes "path.utf-8") ps old.path_utf8

-- The loop ends with the fields found; what it took out of the dictionary is in the struct, or lost.
abbrev FileRead : Pairs → MultiFiles → Type 0
FileRead ps ptr =
    (d : BDict) × (multi_files_loop (fields ps) ptr ≡ some (d, file_of ps ptr))
    × (dict_blocks d + file_blocks (file_of ps ptr) + file_lost ps ptr
        ≡ file_blocks ptr + dict_blocks (fields ps))

file_read : (ps : Pairs) (ptr : MultiFiles) → FileRead ps ptr
unfolding multi_files_loop fields object dict_blocks value_blocks
file_read no_pairs ptr = (end, refl, omega arith)
file_read (pair k (text bs) ps) ptr =
    let (d, eq, m) = file_read ps ptr in
    (entry (key_of k) (object (text bs)) d, rw (entry_string, eq) refl, omega arith)
file_read (pair k (number n) ps) ptr =
    let (d, eq, m) = file_read ps (with_number (key_of k) n ptr) in
    (entry (key_of k) (object (number n)) d, rw (entry_number, eq) refl, omega arith)
file_read (pair k (mapping qs) ps) ptr =
    let (d, eq, m) = file_read ps ptr in
    (entry (key_of k) (object (mapping qs)) d, rw (entry_dict, eq) refl, omega arith)
file_read (pair k (sequence xs) ps) ptr =
    let (v, round, n) = entry_list (key_of k) (objects xs) ptr in
    let (d, eq, m) = file_read ps (with_list (key_of k) (objects xs) ptr) in
    (entry (key_of k) v d, rw (round, eq) refl, omega arith)

-- How many dictionaries a list has.
abbrev pub files_count : Terms → ℕ
files_count no_terms = 0
files_count (term (text bs) xs) = files_count xs
files_count (term (number n) xs) = files_count xs
files_count (term (sequence ys) xs) = files_count xs
files_count (term (mapping ps) xs) = 1 + files_count xs

abbrev pub files_lost : Terms → ℕ
files_lost no_terms = 0
files_lost (term (text bs) xs) = files_lost xs
files_lost (term (number n) xs) = files_lost xs
files_lost (term (sequence ys) xs) = files_lost xs
files_lost (term (mapping ps) xs) = file_lost ps zero_files + files_lost xs

abbrev pub files_blocks : List MultiFiles → ℕ
files_blocks [] = 0
files_blocks (vec ∷ rest) = file_blocks vec + files_blocks rest

pub files_blocks-append :
    (xs ys : List MultiFiles) → files_blocks (xs ++ ys) ≡ files_blocks xs + files_blocks ys
files_blocks-append [] ys = omega arith
files_blocks-append (x ∷ xs) ys = omega (arith, files_blocks-append xs ys)

pub malloc-Plenty : (n : ℕ) (s : Process) → Plenty s → malloc n s ≡ (true, grown s 1 1)
unfolding malloc
malloc-Plenty n s p = rw (p s.calls n) refl

alloc_files :
    (ps : Pairs) (s : Process)
    → Plenty s
    → (d : BDict) × (multi_files_alloc (some (fields ps)) s
        ≡ some (some (file_of ps zero_files), some d, grown s 1 1))
      × (dict_blocks d + file_blocks (file_of ps zero_files) + file_lost ps zero_files
          ≡ 1 + dict_blocks (fields ps))
unfolding multi_files_alloc
alloc_files ps s p =
    let (d, eq, m) = file_read ps zero_files in
    (
      d,
      rw
          (
            malloc-Plenty sizeof_multi_files s p,
            multi_files_alloc,
            eq,
            malloc-Plenty sizeof_multi_files s p,
          )
          refl,
      omega arith,
    )

-- A dictionary of a list becomes a file at the end of the ring.
round_dict :
    (ps : Pairs) (multi : InfoMultiFile) (s : Process)
    → Plenty s
    → (d : BDict) × (files_round (object (mapping ps)) multi s
        ≡ some (record {
          entries = Value.dict d;
          target = multi_files_add (file_of ps zero_files) multi;
          process = grown s 1 1;
          ok = true;
        }))
      × (dict_blocks d + file_blocks (file_of ps zero_files) + file_lost ps zero_files
          ≡ 1 + dict_blocks (fields ps))
unfolding files_round object dict_of
round_dict ps multi s p = let (d, eq, m) = alloc_files ps s p in (d, rw eq refl, m)

abbrev FilesRead : Terms → InfoMultiFile → Process → Type 0
FilesRead xs multi s =
    (ys : BList) × (files_loop (objects xs) multi s
      ≡ some (record {
        entries = ys;
        target = record multi { files_list = multi.files_list ++ files_in xs };
        process = grown s (files_count xs) (files_count xs);
        ok = true;
      }))
    × (list_blocks ys + files_blocks (files_in xs) + files_lost xs
        ≡ list_blocks (objects xs) + files_count xs)

passed_by :
    (v : Value) (xs : BList) (multi : InfoMultiFile) (s : Process) {r : Round BList InfoMultiFile}
    → (type_of v == b'd') ≡ false
    → files_loop xs multi s ≡ some r
    → files_loop (cons v xs) multi s ≡ some (record r { entries = cons v r.entries })
unfolding files_loop
passed_by v xs multi s h e = rw (h, e) refl

pub files_read :
    (xs : Terms) (multi : InfoMultiFile) (s : Process) → Plenty s → FilesRead xs multi s
unfolding files_loop objects object list_blocks value_blocks type_of multi_files_add
files_read no_terms multi s p = (nil, rw append-nil (ground arith), refl)
files_read (term (text bs) xs) multi s p =
    let (ys, eq, m) = files_read xs multi s p in
    (
      cons (object (text bs)) ys,
      passed_by (object (text bs)) (objects xs) multi s refl eq,
      omega arith,
    )
files_read (term (number n) xs) multi s p =
    let (ys, eq, m) = files_read xs multi s p in
    (
      cons (object (number n)) ys,
      passed_by (object (number n)) (objects xs) multi s refl eq,
      omega arith,
    )
files_read (term (sequence zs) xs) multi s p =
    let (ys, eq, m) = files_read xs multi s p in
    (
      cons (object (sequence zs)) ys,
      passed_by (object (sequence zs)) (objects xs) multi s refl eq,
      omega arith,
    )
files_read (term (mapping ps) xs) multi s p =
    let (d, round, n) = round_dict ps multi s p in
    let (ys, eq, m) =
      files_read xs (multi_files_add (file_of ps zero_files) multi) (grown s 1 1) p in
    (
      cons (Value.dict d) ys,
      rw (round, eq)
          (ground
            (arith, append_assoc multi.files_list (file_of ps zero_files ∷ []) (files_in xs))),
      omega arith,
    )
