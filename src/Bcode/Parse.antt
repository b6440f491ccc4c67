-- ===== src/Bcode/Parse.antt =====
-- src/b_parse.c: the parsers of lists and dictionaries.
use bt_server.Common.{ℕ, zero, suc, Option, none, some, [], ◌∷◌, ◌==◌, if◌then◌else◌}
use bt_server.Libc.{Bytes}
use bt_server.Bcode.{
  BString, Value, BList, BDict, Process, Outcome, next, null, fault, spin, returned,
}
use bt_server.Bcode.Objects.{b_string_alloc, b_string_free}
use bt_server.Bcode.Entries.{b_list_alloc, b_dict_alloc, b_list_add, b_dict_add}
use bt_server.Bcode.Free.{b_list_free, b_dict_free}
use bt_server.Bcode.Scalars.{allocated, int_item, string_item, b_string_parse, string_data}

-- A round of the dictionary's loop begins with a string of its own for the key.
abbrev pub keyed :
    Option BString × Process → BDict → (BString → Process → Outcome BDict) → Outcome BDict
keyed r ret k = elim r.0 [ none ↦ null ret r.1 | some new ↦ k new r.1 ]

abbrev pub added : BList → Option Value → Process → BList × Process
added ret none s = (ret, s)
added ret (some v) s = b_list_add v ret s

abbrev pub added_key : BDict → Bytes → Option Value → Process → BDict × Process
added_key ret key none s = (ret, s)
added_key ret key (some v) s = b_dict_add v key ret s

-- Each round of a loop and each object takes a unit of fuel.
unfoldable mutual
  unfolding b_list_alloc b_dict_alloc b_list_free b_dict_free b_string_alloc

  pub b_list_parse : ℕ → Bytes → BList → Process → Outcome BList
  b_list_parse zero buf ret s = spin
  b_list_parse (suc f) [] ret s = fault
  b_list_parse (suc f) (c ∷ p) ret s =
      let loop = list_loop f p ret s in if c == b'l' then loop else null ret s

  -- `while (*ptr != 'e')` of b_list_parse
  pub list_loop : ℕ → Bytes → BList → Process → Outcome BList
  list_loop zero p ret s = spin
  list_loop (suc f) [] ret s = fault
  list_loop (suc f) (c ∷ p) ret s =
      let round =
        returned (item f (c ∷ p) s) (λ v q s₁. list_loop f q (added ret v s₁).0 (added ret v s₁).1)
          (λ _ s₁. null ret s₁) in
      if c == b'e' then next ret p s else round

  -- The switch on `*ptr` in either loop.
  pub item : ℕ → Bytes → Process → Outcome (Option Value)
  item zero p s = spin
  item (suc f) [] s = fault
  item (suc f) (c ∷ cs) s =
      let p = c ∷ cs in
      let as_list = allocated (b_list_alloc s) p λ new s₁.
        returned (b_list_parse f p new s₁) (λ xs q s₂. next (some (Value.list xs)) q s₂)
          (λ xs s₂. null none (b_list_free (some xs) s₂)) in
      let as_dict = allocated (b_dict_alloc s) p λ new s₁.
        returned (b_dict_parse f p new s₁) (λ d q s₂. next (some (Value.dict d)) q s₂)
          (λ d s₂. null none (b_dict_free (some d) s₂)) in
      if c == b'l'
      then as_list
      else if c == b'i'
      then int_item p s
      else if c == b'd'
      then as_dict
      else string_item p s

  pub b_dict_parse : ℕ → Bytes → BDict → Process → Outcome BDict
  b_dict_parse zero buf ret s = spin
  b_dict_parse (suc f) [] ret s = fault
  b_dict_parse (suc f) (c ∷ p) ret s =
      let loop = dict_loop f p ret s in if c == b'd' then loop else null ret s

  -- `while (*ptr != 'e')` of b_dict_parse
  pub dict_loop : ℕ → Bytes → BDict → Process → Outcome BDict
  dict_loop zero p ret s = spin
  dict_loop (suc f) [] ret s = fault
  dict_loop (suc f) (c ∷ p) ret s =
      let round = keyed (b_string_alloc s) ret λ new s₁.
        returned (b_string_parse (c ∷ p) new s₁) (λ key q s₂. dict_round f key q ret s₂)
          (λ key s₂. null ret (b_string_free (some key) s₂)) in
      if c == b'e' then next ret p s else round

  -- The rest of a round: the value behind the key at the cursor.
  pub dict_round : ℕ → BString → Bytes → BDict → Process → Outcome BDict
  dict_round zero key q ret s = spin
  dict_round (suc f) key q ret s =
      returned (item f q s)
        (λ v r s₁.
          let d = added_key ret (string_data key) v s₁ in
          dict_loop f r d.0 (b_string_free (some key) d.1))
        (λ _ s₁. null ret (b_string_free (some key) s₁))
