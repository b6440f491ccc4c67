-- ===== src/Torrent/Safety/Files.antt =====
-- multi_files_alloc of src/torrent_parse.c keeps account of the blocks of any dictionary.
use bt_server.Common.{
  ℕ, ◌+◌, ◌≤◌, ◌≡◌, inl, inr, Bool-cases, Bool, ◌&&◌, ◌==◌, Option, none, some, arith,
  if◌then◌else◌,
}
use bt_server.Libc.{Bytes, codes}
use bt_server.Bcode.{Value, BDict, Process, end, entry}
use bt_server.Bcode.Entries.{type_of}
use bt_server.Bcode.Objects.{malloc}
use bt_server.Bcode.Blocks.{value_blocks, dict_blocks}
use bt_server.Torrent.{MultiFiles, is_key, list_of, string_of, int_of, moved}
use bt_server.Torrent.Files.{
  multi_files_entry, multi_files_loop, multi_files_alloc, zero_files, sizeof_multi_files,
}
use bt_server.Torrent.Lookup.{text_blocks, path_blocks}
use bt_server.Torrent.Lookup.Files.{file_blocks}
use bt_server.Torrent.Safety.Rounds.{Fine, Fine-if, Fine-bind, Fine-mapped, anything, fine}

pub string_of-blocks : (v : Value) → text_blocks (string_of v) ≤ value_blocks v
unfolding string_of value_blocks
string_of-blocks (Value.list xs) = omega arith
string_of-blocks (Value.int n) = omega arith
string_of-blocks (Value.string t) = omega arith
string_of-blocks (Value.dict d) = omega arith
string_of-blocks (Value.taken t) = omega arith

pub list_of-blocks : (v : Value) → path_blocks (list_of v) ≤ value_blocks v
unfolding list_of value_blocks
list_of-blocks (Value.list xs) = omega arith
list_of-blocks (Value.int n) = omega arith
list_of-blocks (Value.string t) = omega arith
list_of-blocks (Value.dict d) = omega arith
list_of-blocks (Value.taken t) = omega arith

-- The test in front of a field.
abbrev pub is_entry : Bytes → Value → Bytes → ℕ → Bool
is_entry k v name tag = is_key k name && type_of v == tag

pub multi_files_entry-Fine :
    (k : Bytes) (v : Value) (ptr : MultiFiles)
    → Fine
        (λ r. value_blocks r.0 + file_blocks r.1 ≤ value_blocks v + file_blocks ptr)
        (multi_files_entry k v ptr)
unfolding multi_files_entry value_blocks moved
multi_files_entry-Fine k v ptr =
    Fine-if (is_entry k v (codes "path") b'l') (fine (omega (arith, list_of-blocks v))) (
      Fine-if (is_entry k v (codes "path.utf-8") b'l') (fine (omega (arith, list_of-blocks v))) (
        Fine-if (is_entry k v (codes "length") b'i')
          (Fine-mapped _ (anything (int_of v)) (λ n _. omega arith)) (fine (omega arith))))

pub multi_files_loop-Fine :
    (d : BDict) (ptr : MultiFiles)
    → Fine
        (λ r. dict_blocks r.0 + file_blocks r.1 ≤ dict_blocks d + file_blocks ptr)
        (multi_files_loop d ptr)
unfolding multi_files_loop dict_blocks
multi_files_loop-Fine end ptr = fine (omega arith)
multi_files_loop-Fine (entry k v d) ptr =
    Fine-bind (multi_files_entry-Fine k v ptr)
      λ r h. Fine-bind (multi_files_loop-Fine d r.1) λ q m. fine (omega arith)

pub malloc-live :
    (n : ℕ) (s : Process) → let (got, s') = malloc n s in s'.live ≡ s.live + (if got then 1 else 0)
unfolding malloc
malloc-live n s = ground arith

abbrev pub made_blocks : Option MultiFiles → ℕ
made_blocks none = 0
made_blocks (some ptr) = file_blocks ptr

abbrev pub LeftFits : Option BDict → ℕ → ℕ → Type 0
LeftFits none a b = ⊥
LeftFits (some c) a b = dict_blocks c + a ≤ b

pub alloc-Fine :
    (d : BDict) (s : Process)
    → Fine
        (λ r. LeftFits r.1 (made_blocks r.0 + s.live) (dict_blocks d + r.2.live))
        (multi_files_alloc (some d) s)
unfolding multi_files_alloc
alloc-Fine d s =
    let m = malloc-live sizeof_multi_files s in
    elim (Bool-cases (malloc sizeof_multi_files s).0) [
      | inl e ↦
          let live : (malloc sizeof_multi_files s).1.live ≡ s.live + 1 = rw e at m in
          rw (e, multi_files_alloc)
            (Fine-mapped _ (multi_files_loop-Fine d zero_files) (λ r h. omega arith))
      | inr e ↦
          let live : (malloc sizeof_multi_files s).1.live ≡ s.live + 0 = rw e at m in
          rw (e, multi_files_alloc) (fine (omega arith))
    ]
