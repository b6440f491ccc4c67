-- ===== src/Torrent/Shown.antt =====
-- torrent_print of src/torrent_parse.c on what torrent_parse makes of any buffer.
pub mod Parsed
use mathlib.Core.Path.{subst}
use bt_server.Common.{
  zero, suc, ap, ==_iff, ℕ, ◌+◌, ◌*◌, ◌<◌, ◌≡◌, ◌≢◌, ◌↔◌, Bool, false, ltb, ◌++◌, refl, inl, inr,
  Bool-cases, true, length, Option, none, some, List, [], ◌∷◌, All, length-drop, IsSome, is_some,
  mapped, drop, ◌==◌, if◌then◌else◌, arith,
}
use mathlib.Core.List.{map}
use bt_server.Libc.{Bytes, codes, c_str}
use bt_server.Libc.Memory.{read, read_lem}
use bt_server.Bcode.{BString, BList, Process}
use bt_server.Bcode.Bounds.Scalars.{StringSized, BlockHolds}
use bt_server.Bcode.Bounds.Objects.{ListSized}
use bt_server.Bcode.Total.Endings.{Plenty}
use bt_server.Bcode.Scalars.{string_data}
use bt_server.Bcode.Print.{before, within, b_list_print}
use bt_server.Bcode.Print.Sized.{
  before-IsSome, behind-IsSome, ahead-IsSome, within-IsSome, single-IsSome, ListShort,
  b_list_print-IsSome,
}
use bt_server.Torrent.{MultiFiles, InfoMultiFile, TorrentInfo, Torrent, zero_torrent}
use bt_server.Torrent.Print.{
  Lines, TorrentLine, torrent_begin, torrent_end, just, text_line, hashes, date_line, list_line,
  Place, info_at, torrent_at, text_fits, text_print, address_print, number_print, wide_print,
  list_print, piece_hash_print, file_print, files_print, multi_files_print, torrent_info_print,
  torrent_print,
}
use bt_server.Torrent.Safety.Fields.{IfAny, FileOf, MultiOf, InfoOf, TorrentOf}

-- With its label and line the text fits the buffer of print_msg.
abbrev TextShort : Place → Bytes → Option BString → Type 0
TextShort at label = IfAny (λ t. text_fits at label (c_str (string_data t)) ≡ true)

-- No length, no sum and no mark of a private torrent, which are shown with `%d` although they are not
-- of that type; no files, which have such a length each; and all texts fit.
abbrev pub InfoShown : TorrentInfo → Type 0
InfoShown info =
    TextShort (info_at 310) (codes "publisher") info.publisher
    × (TextShort (info_at 312) (codes "publisher(utf-8)") info.publisher_utf8
        × (TextShort (info_at 314) (codes "publisher_url") info.publisher_url
            × (TextShort (info_at 316) (codes "publisher_url(utf-8)") info.publisher_url_utf8
                × (TextShort (info_at 318) (codes "name") info.name
                    × (TextShort (info_at 320) (codes "name(utf-8)") info.name_utf8
                        × ((info.length ≡ 0)
                            × ((info.md5sum ≡ none)
                                × ((info.private ≡ none)
                                    × (TextShort (info_at 341) (codes "dir_name")
                                          info.multi.dir_name
                                        × ((info.multi.files_list ≡ [])))))))))))

abbrev pub TorrentShown : Torrent → Type 0
TorrentShown ptr =
    TextShort (torrent_at 351) (codes "announce") ptr.announce
    × (IfAny ListShort ptr.announce_list
        × (TextShort (torrent_at 356) (codes "comment") ptr.comment
            × (TextShort (torrent_at 358) (codes "comment(utf8)") ptr.comment_utf8
                × (TextShort (torrent_at 360) (codes "create by") ptr.create_by
                    × (InfoShown ptr.info)))))

block_shown :
    (at : Place) (label : Bytes) (head : Option Bytes) (off len : ℕ)
    → BlockHolds head (record { head = head; off = off; len = len })
    → IsSome (text_print at label (some (record { head = head; off = off; len = len })))
      ↔ TextShort at label (some (record { head = head; off = off; len = len }))
unfolding text_print string_data
block_shown at label none off len h = absurd h
block_shown at label (some block) off len h =
    within-IsSome (text_fits at label (c_str (drop off block)))
      (text_line label (c_str (drop off block)) ∷ [])

text_shown :
    (at : Place) (label : Bytes) (o : Option BString)
    → IfAny StringSized o
    → IsSome (text_print at label o) ↔ TextShort at label o
unfolding text_print
text_shown at label none h = ((λ _. tt), (λ _. is_some))
text_shown at label (some t) h = block_shown at label t.head t.off t.len h.1

address_shown : (o : Option BString) → IsSome (address_print o) ↔ (o ≡ none)
unfolding address_print
address_shown none = ((λ _. refl), (λ _. is_some))
address_shown (some t) = ((λ h. absurd (elim h [ ])), (λ e. absurd (cc e)))

wide_shown : (n : ℕ) → IsSome (wide_print n) ↔ (n ≡ 0)
unfolding wide_print
wide_shown n =
    let (a, b) = within-IsSome {A = List TorrentLine} (n == 0) [] in
    let (c, d) = ==_iff n 0 in (λ h. c (a h), λ e. b (d e))

number_shown : (label : Bytes) (n : ℕ) → IsSome (number_print label n)
unfolding number_print
number_shown label n = elim (Bool-cases (n == 0)) [ inl e ↦ rw e is_some | inr e ↦ rw e is_some ]

mapped-IsSome : {A B : Type 0} (g : A → B) {x : Option A} → IsSome x → IsSome (mapped g x)
mapped-IsSome g is_some = is_some

mapped-back : {A B : Type 0} (g : A → B) (x : Option A) → IsSome (mapped g x) → IsSome x
mapped-back g (some a) h = is_some
mapped-back g none h = elim h [ ]

list_shown : (xs : BList) → ListSized xs → IsSome (list_print xs) ↔ ListShort xs
unfolding list_print
list_shown xs h =
    let (a, b) = b_list_print-IsSome xs h in
    (
      λ i. a (mapped-back (map list_line) (b_list_print xs) i),
      λ i. mapped-IsSome (map list_line) (b i),
    )

hash_shown :
    (o : Option Bytes) (t : BString)
    → BlockHolds o t
    → IsSome {A = List TorrentLine} (elim o [
      | none ↦ if t.len == 0 then hashes 0 (some []) else none
      | some block ↦ hashes t.len (read t.len (drop t.off block))
    ])
hash_shown none t h = absurd h
hash_shown (some block) t h =
    rw (read_lem t.len (drop t.off block) (omega (arith, length-drop t.off block))) is_some

piece_hash_shown : (o : Option BString) → IfAny StringSized o → IsSome (piece_hash_print o)
unfolding piece_hash_print
piece_hash_shown none h = is_some
piece_hash_shown (some t) h = hash_shown t.head t h.1

announce_list_shown :
    (o : Option BList)
    → IfAny ListSized o
    → IsSome {A = List TorrentLine} (elim o [ none ↦ some [] | some xs ↦ list_print xs ])
      ↔ IfAny ListShort o
announce_list_shown none h = ((λ _. tt), (λ _. is_some))
announce_list_shown (some xs) h = list_shown xs h

before-none : {A : Type 0} (x : Option (List A)) → before x none ≡ none
before-none none = refl
before-none (some xs) = refl

file_none : (vec : MultiFiles) (ls : Lines) → before (file_print vec) ls ≡ none
unfolding file_print
file_none vec ls = ap (λ x. before x ls) (before-none _)

files_shown : (files : List MultiFiles) → IsSome (files_print files) ↔ (files ≡ [])
unfolding files_print file_print
files_shown [] = ((λ _. refl), (λ _. is_some))
files_shown (vec ∷ rest) = (
  (λ h.
      let gone : IsSome {A = List TorrentLine} none =
        subst IsSome (file_none vec (files_print rest)) h in
      absurd (elim gone [ ])),
  (λ e. absurd (cc e)),
)

date_shown :
    (n : ℕ) → IsSome {A = List TorrentLine} (if n == 0 then some [] else just (date_line n))
date_shown n = elim (Bool-cases (n == 0)) [ inl e ↦ rw e is_some | inr e ↦ rw e is_some ]

info_shown :
    (info : TorrentInfo)
    → InfoOf StringSized ListSized info
    → IsSome (torrent_info_print info) ↔ InfoShown info
unfolding torrent_info_print multi_files_print
info_shown info o =
    before-IsSome _ _ (text_shown (info_at 310) (codes "publisher") info.publisher o.publisher) (
      before-IsSome _ _
        (text_shown (info_at 312) (codes "publisher(utf-8)") info.publisher_utf8 o.publisher_utf8)
        (before-IsSome _ _
          (text_shown (info_at 314) (codes "publisher_url") info.publisher_url o.publisher_url)
          (before-IsSome _ _
            (text_shown (info_at 316) (codes "publisher_url(utf-8)") info.publisher_url_utf8
              o.publisher_url_utf8)
            (before-IsSome _ _ (text_shown (info_at 318) (codes "name") info.name o.name) (
              before-IsSome _ _
                (text_shown (info_at 320) (codes "name(utf-8)") info.name_utf8 o.name_utf8)
                (before-IsSome _ _ (wide_shown info.length) (
                  before-IsSome _ _ (address_shown info.md5sum) (
                    before-IsSome _ _ (address_shown info.private) (
                      behind-IsSome _ _ (number_shown (codes "piece_len") info.piece_len) (
                        behind-IsSome _ _ (piece_hash_shown info.piece_hash o.piece_hash) (
                          before-IsSome _ _
                            (text_shown (info_at 341) (codes "dir_name") info.multi.dir_name
                              o.multi.dir_name)
                            (files_shown info.multi.files_list))))))))))))

pub torrent_shown :
    (ptr : Torrent)
    → TorrentOf StringSized ListSized ptr
    → IsSome (torrent_print ptr) ↔ TorrentShown ptr
unfolding torrent_print
torrent_shown ptr o = behind-IsSome _ _ (single-IsSome torrent_begin) (
    before-IsSome _ _ (text_shown (torrent_at 351) (codes "announce") ptr.announce o.announce) (
      before-IsSome _ _ (announce_list_shown ptr.announce_list o.announce_list) (
        before-IsSome _ _ (text_shown (torrent_at 356) (codes "comment") ptr.comment o.comment) (
          before-IsSome _ _
            (text_shown (torrent_at 358) (codes "comment(utf8)") ptr.comment_utf8 o.comment_utf8)
            (before-IsSome _ _
              (text_shown (torrent_at 360) (codes "create by") ptr.create_by o.create_by)
              (behind-IsSome _ _ (date_shown ptr.create_date) (
                behind-IsSome _ _ (number_shown (codes "encoding") ptr.encoding)
                  (ahead-IsSome _ _ (single-IsSome torrent_end) (info_shown ptr.info o.info)))))))))
