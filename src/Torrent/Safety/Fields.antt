-- ===== src/Torrent/Safety/Fields.antt =====
-- What holds of everything that the structs of src/torrent_parse.c point to.
use bt_server.Common.{ℕ, List, [], ◌∷◌, Bool, true, false, Option, none, some, All, if◌then◌else◌}
use bt_server.Bcode.{BString, BList}
use bt_server.Torrent.{MultiFiles, InfoMultiFile, TorrentInfo, Torrent}

-- NULL, or an object with `P`.
abbrev pub IfAny : {A : Type 0} → (A → Type 0) → Option A → Type 0
IfAny P none = Unit
IfAny P (some a) = P a

pub IfAny-if :
    {A : Type 0} (P : A → Type 0) (t : Bool) (x y : Option A)
    → IfAny P x
    → IfAny P y
    → IfAny P (if t then x else y)
IfAny-if P true x y p q = p
IfAny-if P false x y p q = q

IfAny-all : {A : Type 0} (P : A → Type 0) (x : Option A) → ((a : A) → P a) → IfAny P x
IfAny-all P none h = tt
IfAny-all P (some a) h = h a

-- The texts have `S`, and the lists `L`.
pub record FileOf (L : BList → Type 0) (ptr : MultiFiles) : Type 0 where
  pub path : IfAny L ptr.path
  pub path_utf8 : IfAny L ptr.path_utf8

pub record MultiOf (S : BString → Type 0) (L : BList → Type 0) (multi : InfoMultiFile)
    : Type 0 where
  pub dir_name : IfAny S multi.dir_name
  pub files_list : All (FileOf L) multi.files_list

pub record InfoOf (S : BString → Type 0) (L : BList → Type 0) (info : TorrentInfo) : Type 0 where
  pub piece_hash : IfAny S info.piece_hash
  pub private : IfAny S info.private
  pub name : IfAny S info.name
  pub name_utf8 : IfAny S info.name_utf8
  pub md5sum : IfAny S info.md5sum
  pub publisher : IfAny S info.publisher
  pub publisher_utf8 : IfAny S info.publisher_utf8
  pub publisher_url : IfAny S info.publisher_url
  pub publisher_url_utf8 : IfAny S info.publisher_url_utf8
  pub multi : MultiOf S L info.multi

pub record TorrentOf (S : BString → Type 0) (L : BList → Type 0) (ptr : Torrent) : Type 0 where
  pub announce : IfAny S ptr.announce
  pub announce_list : IfAny L ptr.announce_list
  pub comment : IfAny S ptr.comment
  pub comment_utf8 : IfAny S ptr.comment_utf8
  pub create_by : IfAny S ptr.create_by
  pub info : InfoOf S L ptr.info

pub InfoOf-files :
    (S : BString → Type 0) (L : BList → Type 0) (info : TorrentInfo) (multi : InfoMultiFile)
    → InfoOf S L info
    → MultiOf S L multi
    → InfoOf S L (record info { multi = multi })
InfoOf-files S L info multi o m = record {
  piece_hash = o.piece_hash;
  private = o.private;
  name = o.name;
  name_utf8 = o.name_utf8;
  md5sum = o.md5sum;
  publisher = o.publisher;
  publisher_utf8 = o.publisher_utf8;
  publisher_url = o.publisher_url;
  publisher_url_utf8 = o.publisher_url_utf8;
  multi = m;
}

pub InfoOf-numbers :
    (S : BString → Type 0) (L : BList → Type 0) (info : TorrentInfo) (piece_len length : ℕ)
    → InfoOf S L info
    → InfoOf S L (record info { piece_len = piece_len; length = length })
InfoOf-numbers S L info piece_len length o = record {
  piece_hash = o.piece_hash;
  private = o.private;
  name = o.name;
  name_utf8 = o.name_utf8;
  md5sum = o.md5sum;
  publisher = o.publisher;
  publisher_utf8 = o.publisher_utf8;
  publisher_url = o.publisher_url;
  publisher_url_utf8 = o.publisher_url_utf8;
  multi = o.multi;
}

pub TorrentOf-info :
    (S : BString → Type 0) (L : BList → Type 0) (ptr : Torrent) (info : TorrentInfo)
    → TorrentOf S L ptr
    → InfoOf S L info
    → TorrentOf S L (record ptr { info = info })
TorrentOf-info S L ptr info o i = record {
  announce = o.announce;
  announce_list = o.announce_list;
  comment = o.comment;
  comment_utf8 = o.comment_utf8;
  create_by = o.create_by;
  info = i;
}

-- Everything that is true of all objects holds of those of a struct.
all_files :
    (L : BList → Type 0) (files : List MultiFiles) → ((xs : BList) → L xs) → All (FileOf L) files
all_files L [] l = tt
all_files L (vec ∷ rest) l = (
  record { path = IfAny-all L vec.path l; path_utf8 = IfAny-all L vec.path_utf8 l },
  all_files L rest l,
)

pub TorrentOf-all :
    (S : BString → Type 0) (L : BList → Type 0) (ptr : Torrent)
    → ((t : BString) → S t)
    → ((xs : BList) → L xs)
    → TorrentOf S L ptr
TorrentOf-all S L ptr s l = record {
  announce = IfAny-all S ptr.announce s;
  announce_list = IfAny-all L ptr.announce_list l;
  comment = IfAny-all S ptr.comment s;
  comment_utf8 = IfAny-all S ptr.comment_utf8 s;
  create_by = IfAny-all S ptr.create_by s;
  info = record {
    piece_hash = IfAny-all S ptr.info.piece_hash s;
    private = IfAny-all S ptr.info.private s;
    name = IfAny-all S ptr.info.name s;
    name_utf8 = IfAny-all S ptr.info.name_utf8 s;
    md5sum = IfAny-all S ptr.info.md5sum s;
    publisher = IfAny-all S ptr.info.publisher s;
    publisher_utf8 = IfAny-all S ptr.info.publisher_utf8 s;
    publisher_url = IfAny-all S ptr.info.publisher_url s;
    publisher_url_utf8 = IfAny-all S ptr.info.publisher_url_utf8 s;
    multi = record {
      dir_name = IfAny-all S ptr.info.multi.dir_name s;
      files_list = all_files L ptr.info.multi.files_list l;
    };
  };
}
