-- ===== src/Bcode/Total.antt =====
-- The parsers of src/b_parse.c end on every buffer, and keep account of the blocks they allocate.
pub mod Endings
pub mod Scalars
use bt_server.Common.{
  ℕ, zero, suc, ◌+◌, ◌*◌, ◌≤◌, ◌<◌, ◌≡◌, ◌≢◌, refl, ◌∙◌, inl, inr, Bool, true, false, Option, none,
  some, [], ◌∷◌, arith, ◌==◌, if◌then◌else◌, Bool-cases, length, length-drop, ℤ, pos, negsuc,
  to_u32,
}
use bt_server.Libc
use bt_server.Libc.{Bytes, Search, found, missing, overrun, strchr}
use bt_server.Libc.Strtol.{Long, strtol}
use bt_server.Bcode.{
  BString, BInt, Value, BList, BDict, nil, cons, end, entry, Process, Outcome, next, null, fault,
  spin, returned,
}
use bt_server.Bcode.Objects.{malloc, alloc, b_string_alloc, b_int_alloc, b_int_free, empty_string}
use bt_server.Bcode.Entries.{
  b_list_alloc, b_dict_alloc, b_list_add, b_dict_add, list_add_tail, dict_add_tail, type_of,
  known_type, entry_key,
}
use bt_server.Bcode.Scalars.{
  strtol_failed, note_range, string_body, string_long, string_value, int_failed, b_string_found,
  b_string_parse, int_value, b_int_found, b_int_parse, int_item, string_item, string_data,
  string_tmp, int_tmp,
}
use bt_server.Bcode.Parse.{
  b_list_parse, list_loop, item, b_dict_parse, dict_loop, dict_round, added, added_key,
}
use bt_server.Bcode.Blocks.{
  string_blocks, value_blocks, list_blocks, dict_blocks, with_live, b_string_free_lem,
  b_list_free_lem, b_dict_free_lem,
}
use Endings.{
  Plenty, Ends, Owned, Ends-returned, Ends-if, weaken, Ends-ne-spin, Shorter, Shorter-behind,
  strchr-Shorter, parsed, refused, faulted,
}
use Scalars.{
  string_body-Ends, note_range-Plenty, live-note_range, string_long-Ends, string_value-Ends,
  b_string_found-Ends, b_string_parse-Ends, int_blocks, int_value-Ends, b_int_found-Ends,
  b_int_parse-Ends, Item, Dropped, released, int_item-Ends, string_item-Ends, list_blocks-add_tail,
  dict_blocks-add_tail, added_blocks, added_key_blocks,
}

mutual
  unfolding b_list_parse b_list_alloc b_dict_alloc b_string_alloc alloc malloc list_blocks type_of
      known_type

  b_list_parse-Ends :
      (f : ℕ) (buf : Bytes) (ret : BList) (s : Process) (b : ℕ)
      → 3 * length buf < f
      → Plenty s
      → Owned list_blocks b ret s.live
      → Ends (length buf) (Owned list_blocks b) (Owned list_blocks b) (b_list_parse f buf ret s)
  b_list_parse-Ends zero buf ret s b h p l = absurd (omega arith)
  b_list_parse-Ends (suc f) [] ret s b h p l = faulted
  b_list_parse-Ends (suc f) (c ∷ cs) ret s b h p l =
      Ends-if (c == b'l') (weaken (omega arith) (list_loop-Ends f cs ret s b (omega arith) p l))
        (refused p l)

  list_loop-Ends :
      (f : ℕ) (buf : Bytes) (ret : BList) (s : Process) (b : ℕ)
      → 3 * length buf + 2 < f
      → Plenty s
      → Owned list_blocks b ret s.live
      → Ends (length buf) (Owned list_blocks b) (Owned list_blocks b) (list_loop f buf ret s)
  list_loop-Ends zero buf ret s b h p l = absurd (omega arith)
  list_loop-Ends (suc f) [] ret s b h p l = faulted
  list_loop-Ends (suc f) (c ∷ cs) ret s b h p l = Ends-if (c == b'e') (parsed (omega arith) p l) (
      Ends-returned (item-Ends f (c ∷ cs) s _ (omega arith) p l)
        (λ v q s₁ t p₁ l₁.
          let (p₂, l₂) = added_blocks v ret s₁ b p₁ l₁ in
          weaken (omega arith) (list_loop-Ends f q _ _ b (omega arith) p₂ l₂))
        (λ v s₁ p₁ l₁. refused p₁ l₁))

  item-Ends :
      (f : ℕ) (buf : Bytes) (s : Process) (b : ℕ)
      → 3 * length buf + 1 < f
      → Plenty s
      → s.live ≡ b
      → Ends (length buf) (Item b) (Dropped b) (item f buf s)
  item-Ends zero buf s b h p l = absurd (omega arith)
  item-Ends (suc f) [] s b h p l = faulted
  item-Ends (suc f) (c ∷ cs) s b h p l = rw (p s.calls 24) (
      Ends-if (c == b'l')
        (Ends-returned (b_list_parse-Ends f (c ∷ cs) nil _ (b + 1) (omega arith) p (omega arith))
          (λ xs q s₁ t p₁ l₁. parsed t p₁ (refl, omega arith))
          (λ xs s₁ p₁ l₁. rw (b_list_free_lem xs s₁) (released _ s₁ p₁ (omega arith))))
        (Ends-if (c == b'i') (int_item-Ends (c ∷ cs) b s p l) (
          Ends-if (c == b'd')
            (Ends-returned
              (b_dict_parse-Ends f (c ∷ cs) end _ (b + 1) (omega arith) p (omega arith))
              (λ d q s₁ t p₁ l₁. parsed t p₁ (refl, omega arith))
              (λ d s₁ p₁ l₁. rw (b_dict_free_lem d s₁) (released _ s₁ p₁ (omega arith))))
            (string_item-Ends (c ∷ cs) b s p l))))

  b_dict_parse-Ends :
      (f : ℕ) (buf : Bytes) (ret : BDict) (s : Process) (b : ℕ)
      → 3 * length buf < f
      → Plenty s
      → Owned dict_blocks b ret s.live
      → Ends (length buf) (Owned dict_blocks b) (Owned dict_blocks b) (b_dict_parse f buf ret s)
  b_dict_parse-Ends zero buf ret s b h p l = absurd (omega arith)
  b_dict_parse-Ends (suc f) [] ret s b h p l = faulted
  b_dict_parse-Ends (suc f) (c ∷ cs) ret s b h p l =
      Ends-if (c == b'd') (weaken (omega arith) (dict_loop-Ends f cs ret s b (omega arith) p l))
        (refused p l)

  dict_loop-Ends :
      (f : ℕ) (buf : Bytes) (ret : BDict) (s : Process) (b : ℕ)
      → 3 * length buf + 2 < f
      → Plenty s
      → Owned dict_blocks b ret s.live
      → Ends (length buf) (Owned dict_blocks b) (Owned dict_blocks b) (dict_loop f buf ret s)
  dict_loop-Ends zero buf ret s b h p l = absurd (omega arith)
  dict_loop-Ends (suc f) [] ret s b h p l = faulted
  dict_loop-Ends (suc f) (c ∷ cs) ret s b h p l = rw (p s.calls 32) (
      Ends-if (c == b'e') (parsed (omega arith) p l) (
        Ends-returned (b_string_parse-Ends (c ∷ cs) (b + dict_blocks ret) _ p (omega arith))
          (λ key q s₁ t p₁ l₁.
            weaken (omega arith) (dict_round-Ends f key q ret s₁ b (omega arith) p₁ (omega arith)))
          (λ key s₁ p₁ l₁. rw (b_string_free_lem key s₁) (refused p₁ (omega arith)))))

  dict_round-Ends :
      (f : ℕ) (key : BString) (buf : Bytes) (ret : BDict) (s : Process) (b : ℕ)
      → 3 * length buf + 2 < f
      → Plenty s
      → s.live ≡ b + dict_blocks ret + string_blocks key
      → Ends (length buf) (Owned dict_blocks b) (Owned dict_blocks b) (dict_round f key buf ret s)
  dict_round-Ends zero key buf ret s b h p l = absurd (omega arith)
  dict_round-Ends (suc f) key buf ret s b h p l =
      Ends-returned
        (item-Ends f buf s (b + string_blocks key + dict_blocks ret) (omega arith) p (omega arith))
        (λ v q s₁ t p₁ l₁.
          let (p₂, l₂) =
            added_key_blocks v (string_data key) ret s₁ (b + string_blocks key) p₁ l₁ in
          rw (b_string_free_lem key (added_key ret (string_data key) v s₁).1)
            (weaken (omega arith) (dict_loop-Ends f q _ _ b (omega arith) p₂ (omega arith))))
        (λ v s₁ p₁ l₁. rw (b_string_free_lem key s₁) (refused p₁ (omega arith)))

-- With an allocator that never refuses, b_dict_parse comes back on every buffer: fuel above three
-- times the length is enough, and what is left of the buffer is shorter. Whether it succeeds or
-- returns NULL, the blocks it allocated are those that the dictionary it was given now owns, so each
-- key's own string has been released. (Or it is undefined, a `fault`.)
pub b_dict_parse_total :
    (f : ℕ) (buf : Bytes) (ret : BDict) (s : Process)
    → 3 * length buf < f
    → Plenty s
    → (b : ℕ) → Owned dict_blocks b ret s.live
    → Ends (length buf) (Owned dict_blocks b) (Owned dict_blocks b) (b_dict_parse f buf ret s)
b_dict_parse_total f buf ret s h p b l = b_dict_parse-Ends f buf ret s b h p l
