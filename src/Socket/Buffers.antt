-- ===== src/Socket/Buffers.antt =====
-- The shared send buffers and send units of src/bt_socket.c, with their counted references.
use bt_server.Common.{
  ℕ, zero, suc, ◌+◌, ◌-◌, Bool, true, false, ◌&&◌, Option, none, some, List, [], ◌∷◌, ◌++◌, ◌==◌,
  if◌then◌else◌,
}
use bt_server.Libc.{Bytes}

-- struct send_buf, named by its address; `buf` is a pointer.
pub record SendBuf : Type 0 where
  pub address : ℕ
  pub buf : ℕ
  pub buflen : ℕ
  pub ref_count : ℕ

-- struct send_unit; `buf` is the address of its struct send_buf, `none` for NULL.
pub record SendUnit : Type 0 where
  pub address : ℕ
  pub dest : ℕ
  pub source : ℕ
  pub buf : Option ℕ
  pub cb : ℕ
  pub arg : ℕ
  pub timeout : ℕ
  pub retry : ℕ
  pub ref_count : ℕ

-- `send_buf_list` and `send_unit_list`, and the pointers that were freed, latest first.
pub record Sending : Type 0 where
  pub send_buf_list : List SendBuf
  pub send_unit_list : List SendUnit
  pub freed : List ℕ

-- `!memcmp(…)` of buffers that both hold `n` bytes
unfoldable pub same_bytes : ℕ → Bytes → Bytes → Bool
same_bytes zero xs ys = true
same_bytes (suc n) (x ∷ xs) (y ∷ ys) = x == y && same_bytes n xs ys
same_bytes (suc n) _ _ = false

unfoldable pub add_send_buf_ref_count : SendBuf → SendBuf
add_send_buf_ref_count ptr = record ptr { ref_count = ptr.ref_count + 1 }

unfoldable pub del_send_buf_ref_count : SendBuf → SendBuf
del_send_buf_ref_count ptr = record ptr { ref_count = ptr.ref_count - 1 }

-- The first buffer of the list with the same contents, counted once more: its address and the list.
-- `memory` says what is at a pointer.
unfoldable pub find_send_buf : (ℕ → Bytes) → ℕ → ℕ → List SendBuf → Option (ℕ × List SendBuf)
unfolding same_bytes add_send_buf_ref_count
find_send_buf memory buf buflen [] = none
find_send_buf memory buf buflen (ptr ∷ rest) =
    let deeper = find_send_buf memory buf buflen rest in
    if ptr.buflen == buflen && same_bytes buflen (memory ptr.buf) (memory buf)
    then some (ptr.address, add_send_buf_ref_count ptr ∷ rest)
    else elim deeper [ none ↦ none | some (p, rest') ↦ some (p, ptr ∷ rest') ]

-- `fresh` is what malloc returns.
unfoldable pub get_send_buf : (ℕ → Bytes) → Option ℕ → ℕ → ℕ → Sending → Option ℕ × Sending
unfolding find_send_buf
get_send_buf memory fresh buf buflen s = elim (find_send_buf memory buf buflen s.send_buf_list) [
  | some (p, list) ↦ (some p, record s { send_buf_list = list })
  | none ↦ elim fresh [
    | none ↦ (none, s)
    | some p ↦
        let ptr : SendBuf = record { address = p; buf = buf; buflen = buflen; ref_count = 1 } in
        (some p, record s { send_buf_list = s.send_buf_list ++ ptr ∷ [] })
  ]
]

-- The list and the pointers freed behind del_send_buf of the buffer at `p`; `none` is a use of a
-- buffer that is not in the list. The struct itself is not freed.
unfoldable pub del_from : ℕ → List SendBuf → Option (List SendBuf × List ℕ)
unfolding del_send_buf_ref_count
del_from p [] = none
del_from p (ptr ∷ rest) =
    let deeper = del_from p rest in
    if ptr.address == p
    then (if ptr.ref_count == 0
        then some (rest, ptr.buf ∷ [])
        else some (del_send_buf_ref_count ptr ∷ rest, []))
    else elim deeper [ none ↦ none | some (rest', freed) ↦ some (ptr ∷ rest', freed) ]

unfoldable pub del_send_buf : Option ℕ → Sending → Option Sending
unfolding del_from
del_send_buf none s = none
del_send_buf (some p) s = elim (del_from p s.send_buf_list) [
  | none ↦ none
  | some (list, freed) ↦ some (record s { send_buf_list = list; freed = freed ++ s.freed })
]

unfoldable pub get_send_unit :
    (ℕ → Bytes)
    → Option ℕ
    → Option ℕ
    → (dest source buf buflen cb arg timeout retry : ℕ) → Sending
    → Option ℕ × Sending
unfolding get_send_buf
get_send_unit memory none fresh_buf dest source buf buflen cb arg timeout retry s = (none, s)
get_send_unit memory (some p) fresh_buf dest source buf buflen cb arg timeout retry s =
    let (b, s') = get_send_buf memory fresh_buf buf buflen s in
    let ptr : SendUnit = record {
      address = p;
      dest = dest;
      source = source;
      buf = b;
      cb = cb;
      arg = arg;
      timeout = timeout;
      retry = retry;
      ref_count = 1;
    } in
    (some p, record s' { send_unit_list = s'.send_unit_list ++ ptr ∷ [] })

-- The unit at `p` with a reference less, or taken out and returned, when it had none left.
unfoldable pub unlink_unit : ℕ → List SendUnit → Option (List SendUnit × Option SendUnit)
unlink_unit p [] = none
unlink_unit p (ptr ∷ rest) =
    let deeper = unlink_unit p rest in
    let less : SendUnit = record ptr { ref_count = ptr.ref_count - 1 } in
    if ptr.address == p
    then (if ptr.ref_count == 0 then some (rest, some ptr) else some (less ∷ rest, none))
    else elim deeper [ none ↦ none | some (rest', u) ↦ some (ptr ∷ rest', u) ]

unfoldable pub free_send_unit : Option ℕ → Sending → Option Sending
unfolding unlink_unit del_send_buf
free_send_unit none s = some s
free_send_unit (some p) s = elim (unlink_unit p s.send_unit_list) [
  | none ↦ none
  | some (list, none) ↦ some (record s { send_unit_list = list })
  | some (list, some ptr) ↦ elim (del_send_buf ptr.buf s) [
    | none ↦ none
    | some s' ↦ some (record s' { send_unit_list = list; freed = p ∷ s'.freed })
  ]
]
