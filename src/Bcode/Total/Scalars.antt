-- ===== src/Bcode/Total/Scalars.antt =====
-- The string and integer parsers of src/b_parse.c come back, and so do the steps that add an item.
use bt_server.Common.{
  ℕ, ◌+◌, ◌<◌, ◌≡◌, refl, ◌∙◌, Bool, true, false, Option, none, some, arith, length, length-drop, ℤ,
  pos, negsuc, to_u32,
}
use bt_server.Libc.{Bytes, Search, found, missing, overrun}
use bt_server.Libc.Strtol.{Long, strtol}
use bt_server.Bcode.{BInt, Value, BList, BDict, nil, cons, end, entry, Process, null}
use bt_server.Bcode.Objects.{malloc, alloc, b_string_alloc, b_int_alloc, b_int_free, empty_string}
use bt_server.Bcode.Entries.{
  b_list_add, b_dict_add, list_add_tail, dict_add_tail, type_of, known_type, entry_key,
}
use bt_server.Bcode.Scalars.{
  strtol_failed, note_range, string_body, string_long, string_value, int_failed, b_string_found,
  b_string_parse, int_value, b_int_found, b_int_parse, int_item, string_item, string_tmp, int_tmp,
}
use bt_server.Bcode.Parse.{added, added_key}
use bt_server.Bcode.Blocks.{
  string_blocks, value_blocks, list_blocks, dict_blocks, with_live, b_string_free_lem,
}
use bt_server.Bcode.Total.Endings.{
  Plenty, Ends, Owned, Ends-returned, Ends-if, Shorter, strchr-Shorter, parsed, refused, faulted,
}

-- A string that the parser fills owns its struct and its buffer.
pub string_body-Ends :
    (n m b : ℕ) (after : Bytes) (s : Process)
    → length after < m
    → Plenty s
    → s.live ≡ b + 1
    → Ends m (Owned string_blocks b) (Owned string_blocks b) (string_body n after empty_string s)
unfolding string_body string_blocks malloc
string_body-Ends n m b after s h p l =
    rw (p s.calls (n + 1))
      (Ends-if _ faulted (parsed (omega (arith, length-drop n after)) p (omega arith)))

pub note_range-Plenty : (r : Bool) (s : Process) → Plenty s → Plenty (note_range r s)
unfolding note_range
note_range-Plenty true s p = p
note_range-Plenty false s p = p

pub live-note_range : (r : Bool) (s : Process) → (note_range r s).live ≡ s.live
unfolding note_range
live-note_range true s = refl
live-note_range false s = refl

pub string_long-Ends :
    (v : ℤ) (m b : ℕ) (after : Bytes) (s : Process)
    → length after < m
    → Plenty s
    → s.live ≡ b + 1
    → Ends m (Owned string_blocks b) (Owned string_blocks b) (string_long v after empty_string s)
unfolding string_long
string_long-Ends (pos n) m b after s h p l = string_body-Ends n m b after s h p l
string_long-Ends (negsuc n) m b after s h p l = faulted

pub string_value-Ends :
    (v : Option Long) (m b : ℕ) (after : Bytes) (s : Process)
    → length after < m
    → Plenty s
    → s.live ≡ b + 1
    → Ends m (Owned string_blocks b) (Owned string_blocks b) (string_value v after empty_string s)
unfolding string_value string_blocks
string_value-Ends none m b after s h p l = faulted
string_value-Ends (some v) m b after s h p l =
    let s' = note_range v.range s in
    let p' = note_range-Plenty v.range s p in
    let l' = live-note_range v.range s ∙ l in
    Ends-if (strtol_failed v.value s') (refused p' l')
      (string_long-Ends v.value m b after s' h p' l')

pub b_string_found-Ends :
    (buf : Bytes) (r : Search) (m b : ℕ) (s : Process)
    → Shorter m r
    → Plenty s
    → s.live ≡ b + 1
    → Ends m (Owned string_blocks b) (Owned string_blocks b) (b_string_found buf r empty_string s)
unfolding b_string_found string_blocks
b_string_found-Ends buf (found before after) m b s h p l =
    string_value-Ends (strtol (string_tmp before)) m b after s h p l
b_string_found-Ends buf missing m b s h p l = Ends-if _ (refused p l) faulted
b_string_found-Ends buf overrun m b s h p l = faulted

pub b_string_parse-Ends :
    (buf : Bytes) (b : ℕ) (s : Process)
    → Plenty s
    → s.live ≡ b + 1
    → Ends
        (length buf)
        (Owned string_blocks b)
        (Owned string_blocks b)
        (b_string_parse buf empty_string s)
unfolding b_string_parse
b_string_parse-Ends buf b s p l = b_string_found-Ends buf _ _ b s (strchr-Shorter b':' buf) p l

-- An integer is one block, whatever its value.
abbrev pub int_blocks : BInt → ℕ
int_blocks _ = 1

pub int_value-Ends :
    (v : Option Long) (m b : ℕ) (after : Bytes) (ret : BInt) (s : Process)
    → length after < m
    → Plenty s
    → s.live ≡ b + 1
    → Ends m (Owned int_blocks b) (Owned int_blocks b) (int_value v after ret s)
unfolding int_value
int_value-Ends none m b after ret s h p l = faulted
int_value-Ends (some v) m b after ret s h p l =
    let s' = note_range v.range s in
    let p' = note_range-Plenty v.range s p in
    let l' = live-note_range v.range s ∙ l in
    Ends-if (int_failed (to_u32 v.value) s') (refused p' l') (parsed h p' l')

pub b_int_found-Ends :
    (buf : Bytes) (r : Search) (m b : ℕ) (ret : BInt) (s : Process)
    → Shorter m r
    → Plenty s
    → s.live ≡ b + 1
    → Ends m (Owned int_blocks b) (Owned int_blocks b) (b_int_found buf r ret s)
unfolding b_int_found
b_int_found-Ends buf (found before after) m b ret s h p l =
    int_value-Ends (strtol (int_tmp buf before)) m b after ret s h p l
b_int_found-Ends buf missing m b ret s h p l = Ends-if _ (refused p l) faulted
b_int_found-Ends buf overrun m b ret s h p l = faulted

pub b_int_parse-Ends :
    (buf : Bytes) (b : ℕ) (ret : BInt) (s : Process)
    → Plenty s
    → s.live ≡ b + 1
    → Ends (length buf) (Owned int_blocks b) (Owned int_blocks b) (b_int_parse buf ret s)
unfolding b_int_parse
b_int_parse-Ends buf b ret s p l = b_int_found-Ends buf _ _ b ret s (strchr-Shorter b'e' buf) p l

-- The object at the cursor, of a type that the switch knows, and its blocks; none owns nothing.
abbrev pub Item : ℕ → Option Value → ℕ → Type 0
Item b none live = live ≡ b
Item b (some v) live = (known_type (type_of v) ≡ true) × (live ≡ b + value_blocks v)

abbrev pub Dropped : ℕ → Option Value → ℕ → Type 0
Dropped b v live = live ≡ b

-- The object was released and nothing is handed on.
pub released :
    (m : ℕ) {n b : ℕ} (s : Process)
    → Plenty s
    → m ≡ b
    → Ends n (Item b) (Dropped b) (null none (with_live m s))
released m s h e = refused h e

pub int_item-Ends :
    (p : Bytes) (b : ℕ) (s : Process)
    → Plenty s
    → s.live ≡ b
    → Ends (length p) (Item b) (Dropped b) (int_item p s)
unfolding int_item b_int_alloc b_int_free alloc malloc value_blocks type_of known_type
int_item-Ends p b s h l = rw (h s.calls 16) (
    Ends-returned (b_int_parse-Ends p b _ _ h (omega arith))
      (λ n q s₁ t h₁ l₁. parsed t h₁ (refl, l₁)) (λ n s₁ h₁ l₁. released _ s₁ h₁ (omega arith)))

pub string_item-Ends :
    (p : Bytes) (b : ℕ) (s : Process)
    → Plenty s
    → s.live ≡ b
    → Ends (length p) (Item b) (Dropped b) (string_item p s)
unfolding string_item b_string_alloc alloc malloc value_blocks type_of known_type
string_item-Ends p b s h l = rw (h s.calls 32) (
    Ends-returned (b_string_parse-Ends p b _ h (omega arith))
      (λ n q s₁ t h₁ l₁. parsed t h₁ (refl, l₁))
      (λ t s₁ h₁ l₁. rw (b_string_free_lem t s₁) (released _ s₁ h₁ (omega arith))))

pub list_blocks-add_tail :
    (v : Value) (xs : BList)
    → list_blocks (list_add_tail v xs) ≡ 1 + value_blocks v + list_blocks xs
unfolding list_blocks list_add_tail
list_blocks-add_tail v nil = omega arith
list_blocks-add_tail v (cons w xs) = omega (arith, list_blocks-add_tail v xs)

pub dict_blocks-add_tail :
    (k : Bytes) (v : Value) (d : BDict)
    → dict_blocks (dict_add_tail k v d) ≡ 1 + value_blocks v + dict_blocks d
unfolding dict_blocks dict_add_tail
dict_blocks-add_tail k v end = omega arith
dict_blocks-add_tail k v (entry j w d) = omega (arith, dict_blocks-add_tail k v d)

-- With memory for the entry an added object belongs to the list.
pub added_blocks :
    (v : Option Value) (xs : BList) (s : Process) (b : ℕ)
    → Plenty s
    → Item (b + list_blocks xs) v s.live
    → Plenty (added xs v s).1 × Owned list_blocks b (added xs v s).0 (added xs v s).1.live
unfolding b_list_add alloc malloc
added_blocks none xs s b h l = (h, l)
added_blocks (some v) xs s b h (k, l) =
    rw (h s.calls 32, k, b_list_add) (h, omega (arith, list_blocks-add_tail v xs))

pub added_key_blocks :
    (v : Option Value) (key : Bytes) (d : BDict) (s : Process) (b : ℕ)
    → Plenty s
    → Item (b + dict_blocks d) v s.live
    → Plenty (added_key d key v s).1
      × Owned dict_blocks b (added_key d key v s).0 (added_key d key v s).1.live
unfolding b_dict_add alloc malloc
added_key_blocks none key d s b h l = (h, l)
added_key_blocks (some v) key d s b h (k, l) =
    rw (h s.calls 160, k, b_dict_add) (h, omega (arith, dict_blocks-add_tail (entry_key key) v d))
