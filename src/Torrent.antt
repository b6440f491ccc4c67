-- ===== src/Torrent.antt =====
-- include/torrent.h, and what the loops of src/torrent_parse.c over the entries of a dictionary
-- share: the test on a key, and the pointer of an entry that is read or moved out.
pub mod Files
pub mod Info
pub mod Parse
pub mod Free
pub mod Print
pub mod Lookup
pub mod Safety
pub mod Release
pub mod Shown
mod Tests
use mathlib.Core.Path.{ap₂}
use bt_server.Common.{
  ℕ, ◌≡◌, refl, ap, inl, inr, Bool, true, false, ◌&&◌, Bool-cases, Option, none, some, List, [],
  ◌∷◌, ◌==◌, mapped, arith,
}
use bt_server.Libc.{Bytes}
use bt_server.Bcode.{BString, BInt, Value, BList, BDict, Process}
use bt_server.Bcode.Entries.{type_of}
use bt_server.Bcode.Objects.{malloc}

-- struct multi_files, without its links
pub record MultiFiles : Type 0 where
  pub length : ℕ
  pub path : Option BList
  pub path_utf8 : Option BList
  pub md5sum : Option BString

-- struct info_multi_file: `files_list` is the ring behind its head.
pub record InfoMultiFile : Type 0 where
  pub files_list : List MultiFiles
  pub dir_name : Option BString

-- struct torrent_info
pub record TorrentInfo : Type 0 where
  pub piece_len : ℕ
  pub piece_hash : Option BString
  pub private : Option BString
  pub multi : InfoMultiFile
  pub name : Option BString
  pub name_utf8 : Option BString
  pub length : ℕ
  pub md5sum : Option BString
  pub publisher : Option BString
  pub publisher_utf8 : Option BString
  pub publisher_url : Option BString
  pub publisher_url_utf8 : Option BString

-- struct torrent
pub record Torrent : Type 0 where
  pub announce : Option BString
  pub announce_list : Option BList
  pub comment : Option BString
  pub comment_utf8 : Option BString
  pub create_by : Option BString
  pub create_date : ℕ
  pub encoding : ℕ
  pub info : TorrentInfo

-- What a loop over entries, or one round of it, leaves behind: the entries `D`, the struct `A` that
-- is filled in, the process, and whether it went on (true) or returned -1.
pub record Round (D A : Type 0) : Type 0 where
  pub entries : D
  pub target : A
  pub process : Process
  pub ok : Bool

abbrev pub joined : {V D A : Type 0} → (V → D → D) → V → Round D A → Round D A
joined join v q = record q { entries = join v q.entries }

-- The rest of a loop behind a round, unless the round returned: `join` puts the entry back before
-- those behind it, and `rest` is what the loop did not come to.
abbrev pub continued :
    {V D A : Type 0}
    → Option (Round V A)
    → (V → D → D)
    → D
    → (A → Process → Option (Round D A))
    → Option (Round D A)
continued none join rest k = none
continued (some r) join rest k = elim r.ok [
  | true ↦ mapped (joined join r.entries) (k r.target r.process)
  | false ↦
      some (record {
        entries = join r.entries rest;
        target = r.target;
        process = r.process;
        ok = false;
      })
]

abbrev pub sizeof_torrent : ℕ
sizeof_torrent = 160

abbrev pub zero_info : TorrentInfo
zero_info = record {
  piece_len = 0;
  piece_hash = none;
  private = none;
  multi = record { files_list = []; dir_name = none };
  name = none;
  name_utf8 = none;
  length = 0;
  md5sum = none;
  publisher = none;
  publisher_utf8 = none;
  publisher_url = none;
  publisher_url_utf8 = none;
}

-- All fields zero, and an empty ring of files.
abbrev pub zero_torrent : Torrent
zero_torrent = record {
  announce = none;
  announce_list = none;
  comment = none;
  comment_utf8 = none;
  create_by = none;
  create_date = 0;
  encoding = 0;
  info = zero_info;
}

unfoldable pub torrent_alloc : Process → Option Torrent × Process
torrent_alloc s =
    let (got, s') = malloc sizeof_torrent s in
    elim got [ true ↦ (some zero_torrent, s') | false ↦ (none, s') ]

-- `CMP_EQUAL == strncmp(vec->key, name, KEY_LEN)`: the key is the text that its 128 bytes hold, and
-- every name is shorter.
unfoldable pub is_key : Bytes → Bytes → Bool
is_key [] [] = true
is_key [] (y ∷ ys) = false
is_key (x ∷ xs) [] = false
is_key (x ∷ xs) (y ∷ ys) = x == y && is_key xs ys

-- `vec->val` under the casts that the tag allows; NULL is `none`.
unfoldable pub list_of : Value → Option BList
list_of (Value.list xs) = some xs
list_of (Value.int n) = none
list_of (Value.string t) = none
list_of (Value.dict d) = none
list_of (Value.taken t) = none

unfoldable pub int_of : Value → Option BInt
int_of (Value.list xs) = none
int_of (Value.int n) = some n
int_of (Value.string t) = none
int_of (Value.dict d) = none
int_of (Value.taken t) = none

unfoldable pub string_of : Value → Option BString
string_of (Value.list xs) = none
string_of (Value.int n) = none
string_of (Value.string t) = some t
string_of (Value.dict d) = none
string_of (Value.taken t) = none

unfoldable pub dict_of : Value → Option BDict
dict_of (Value.list xs) = none
dict_of (Value.int n) = none
dict_of (Value.string t) = none
dict_of (Value.dict d) = some d
dict_of (Value.taken t) = none

-- `vec->val = NULL`
unfoldable pub moved : Value → Value
unfolding type_of
moved v = Value.taken (type_of v)

pub is_key→eq : (k name : Bytes) → is_key k name ≡ true → k ≡ name
unfolding is_key
is_key→eq [] [] h = refl
is_key→eq [] (y ∷ ys) h = ground arith
is_key→eq (x ∷ xs) [] h = ground arith
is_key→eq (x ∷ xs) (y ∷ ys) h = elim (Bool-cases (x == y)) [
  | inl e ↦ ap₂ ◌∷◌ ((ground arith)) (is_key→eq xs ys (rw e at h))
  | inr e ↦ ground arith
]
