-- ===== src/Torrent/Shown/Parsed.antt =====
-- Which of the torrents that torrent_parse of src/torrent_parse.c made torrent_print can show.
use mathlib.Core.Path.{subst}
use bt_server.Common.{ℕ, ◌+◌, arith, ◌*◌, ◌<◌, ◌≡◌, ◌↔◌, Bool, length, Option, [], IsSome}
use bt_server.Libc.{Bytes}
use bt_server.Bcode
use bt_server.Bcode.{BString, BList, BDict, Process, Outcome, next, null, nil, end}
use bt_server.Bcode.Bounds.Scalars.{StringSized, Yields, got}
use bt_server.Bcode.Bounds.Objects.{ListSized, DictSized}
use bt_server.Bcode.Bounds.{b_list_parse_bounds}
use bt_server.Bcode.Blocks.{dict_blocks}
use bt_server.Bcode.Total.{b_dict_parse_total}
use bt_server.Bcode.Total.Endings.{Plenty, Ends, Owned, parsed}
use bt_server.Bcode.RoundTrip.Scalars.{grown}
use bt_server.Torrent.{Torrent, Round, zero_torrent}
use bt_server.Torrent.Parse.{
  Parsed, returns, undefined, endless, finished, dispatched, torrent_parse,
}
use bt_server.Torrent.Print.{torrent_print}
use bt_server.Torrent.Lookup.Whole.{b_dict_alloc_granted}
use bt_server.Torrent.Safety.Fields.{TorrentOf}
use bt_server.Torrent.Safety.Rounds.{Ready, ready}
use bt_server.Torrent.Safety.Complete.{torrent_loop-Ready}
use bt_server.Torrent.Shown.{TorrentShown, torrent_shown}

-- What torrent_parse has filled in is within bounds.
data Builds : Parsed → Type 0 where
  builds :
      {ok : Bool} {p : Torrent} {s : Process}
      → TorrentOf StringSized ListSized p
      → Builds (returns ok p s)
  no_return : Builds undefined
  no_end : Builds endless

finished-Builds :
    {r : Option (Round BDict Torrent)}
    → Ready (TorrentOf StringSized ListSized) r
    → Builds (finished r)
finished-Builds (ready p h) = builds h

dispatched-Builds :
    (n c : ℕ) (ptr : Torrent) {r : Outcome BDict}
    → TorrentOf StringSized ListSized ptr
    → Ends n (Owned dict_blocks c) (Owned dict_blocks c) r
    → Yields DictSized DictSized r
    → Builds (dispatched ptr r)
dispatched-Builds n c ptr {r = next d q s} o (parsed t p l) (got h) =
    finished-Builds (torrent_loop-Ready StringSized ListSized (λ t h. h) (λ xs h. h) d ptr s h p o)
dispatched-Builds n c ptr {r = null d s} o e y = builds o
dispatched-Builds n c ptr {r = Bcode.fault} o e y = no_return
dispatched-Builds n c ptr {r = Bcode.spin} o e y = no_end

torrent_parse-Builds :
    (f : ℕ) (buf : Bytes) (ptr : Torrent) (s : Process)
    → 3 * length buf < f
    → Plenty s
    → TorrentOf StringSized ListSized ptr
    → Builds (torrent_parse f buf ptr s)
unfolding torrent_parse dict_blocks
torrent_parse-Builds f buf ptr s h p o =
    rw (b_dict_alloc_granted s p, torrent_parse, b_dict_alloc_granted s p)
      (dispatched-Builds (length buf) (s.live + 1) ptr o
        (b_dict_parse_total f buf end (grown s 1 1) h p (s.live + 1) (omega arith))
        (b_list_parse_bounds f [] buf nil end (grown s 1 1) tt tt).1)

zero_torrent-Sized : TorrentOf StringSized ListSized zero_torrent
zero_torrent-Sized = record {
  announce = tt;
  announce_list = tt;
  comment = tt;
  comment_utf8 = tt;
  create_by = tt;
  info = record {
    piece_hash = tt;
    private = tt;
    name = tt;
    name_utf8 = tt;
    md5sum = tt;
    publisher = tt;
    publisher_utf8 = tt;
    publisher_url = tt;
    publisher_url_utf8 = tt;
    multi = record { dir_name = tt; files_list = tt };
  };
}

built :
    {ok : Bool} {p : Torrent} {s : Process}
    → Builds (returns ok p s)
    → TorrentOf StringSized ListSized p
built (builds h) = h

-- With an allocator that never refuses and fuel above three times the length of the buffer: whatever
-- buffer it was that torrent_parse filled a new torrent from, with 0 or -1, torrent_print shows the
-- torrent without undefined behaviour just if it has no length, no sum, no mark of a private torrent and
-- no files, which are all shown with `%d` although they are of other types, its texts fit the buffer of
-- print_msg, and so do those in its announce-list, where each key has a NUL in its 128 bytes.
pub torrent_print-parse :
    (f : ℕ) (buf : Bytes) (s t : Process) {ok : Bool} {ptr : Torrent}
    → 3 * length buf < f
    → Plenty s
    → torrent_parse f buf zero_torrent s ≡ returns ok ptr t
    → IsSome (torrent_print ptr) ↔ TorrentShown ptr
torrent_print-parse f buf s t {ptr = ptr} h p e =
    torrent_shown ptr
      (built (subst Builds e (torrent_parse-Builds f buf zero_torrent s h p zero_torrent-Sized)))
