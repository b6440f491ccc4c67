-- ===== src/Bcode/Bounds/Scalars.antt =====
-- Bounds of the strings, keys and integers that src/b_parse.c reads.
use bt_server.Common.{
  ℕ, zero, suc, ◌+◌, ◌^◌, ◌≤◌, ◌<◌, ◌≡◌, ◌≢◌, refl, inl, inr, Bool, true, false, ◌||◌, not, Option,
  none, some, [], ◌∷◌, arith, ltb, ◌==◌, if◌then◌else◌, Bool-cases, All, length, length-append,
  length-take, take, ℤ, pos, negsuc, to_u32, ==-refl,
}
use bt_server.Libc.{Bytes, Search, found, missing, overrun, strchr, c_str}
use bt_server.Libc.Strtol.{Long, strtol}
use bt_server.Bcode.{BString, BInt, Process, Outcome, next, null, fault, spin, returned}
use bt_server.Bcode.Objects.{malloc}
use bt_server.Bcode.Entries.{entry_key, key_len}
use bt_server.Bcode.Scalars.{
  string_body, string_long, string_value, note_range, strtol_failed, string_tmp, b_string_found,
  b_string_parse, int_failed, int_value, int_tmp, b_int_found, b_int_parse,
}

-- What a parser hands on satisfies `R`, and `N` behind a NULL.
pub data Yields {A : Type 0} (R N : A → Type 0) : Outcome A → Type 0 where
  got : {a : A} {p : Bytes} {s : Process} → R a → Yields R N (next a p s)
  missed : {a : A} {s : Process} → N a → Yields R N (null a s)
  over : Yields R N fault
  spun : Yields R N spin

abbrev pub Anything : {A : Type 0} → A → Type 0
Anything a = Unit

module _ {A B : Type 0} {R N : A → Type 0} {Q M : B → Type 0} where
  pub Yields-returned :
      {r : Outcome A} {k : A → Bytes → Process → Outcome B} {e : A → Process → Outcome B}
      → Yields R N r
      → ((a : A) (p : Bytes) (s : Process) → R a → Yields Q M (k a p s))
      → ((a : A) (s : Process) → N a → Yields Q M (e a s))
      → Yields Q M (returned r k e)
  Yields-returned (got h) hk he = hk _ _ _ h
  Yields-returned (missed h) hk he = he _ _ h
  Yields-returned over hk he = over
  Yields-returned spun hk he = spun

pub Yields-if :
    {A : Type 0} {R N : A → Type 0} (t : Bool) {x y : Outcome A}
    → Yields R N x
    → Yields R N y
    → Yields R N (if t then x else y)
Yields-if true hx hy = hx
Yields-if false hx hy = hy

-- The block holds the string's `len` bytes and one more.
abbrev pub BlockHolds : Option Bytes → BString → Type 0
BlockHolds none t = ⊥
BlockHolds (some block) t = t.off + t.len < length block

-- The length fits an `unsigned int`, and the string is in its block with a byte behind it.
abbrev pub StringSized : BString → Type 0
StringSized t = (t.len < 2 ^ 32) × BlockHolds t.head t

-- At most 128 bytes, and no NUL.
abbrev pub KeySized : Bytes → Type 0
KeySized k = (length k ≤ 128) × All (λ b. b ≢ 0) k

guarded :
    {A : Type 0} {R N : A → Type 0} (g t u : Bool) {y : Outcome A}
    → (t ≡ false → Yields R N y)
    → Yields R N (if not g || t || u then fault else y)
guarded false t u h = over
guarded true true u h = over
guarded true false true h = over
guarded true false false h = h refl

string_body-Yields :
    (n : ℕ) (after : Bytes) (target : BString) (s : Process)
    → Yields StringSized Anything (string_body n after target s)
unfolding string_body
string_body-Yields n after target s = guarded (malloc (n + 1) s).0 (ltb (length after) n) _ λ e.
    let le : n ≤ length after = ground arith in
    got (omega arith, omega (arith, length-append (take n after) (0 ∷ []), length-take n after))

string_value-Yields :
    (v : Option Long) (after : Bytes) (target : BString) (s : Process)
    → Yields StringSized Anything (string_value v after target s)
unfolding string_value
string_value-Yields none after target s = over
string_value-Yields (some v) after target s =
    Yields-if (strtol_failed v.value (note_range v.range s)) (missed tt) (long_Yields v.value)
  where
    long_Yields :
        (n : ℤ) → Yields StringSized Anything (string_long n after target (note_range v.range s))
    long_Yields (pos n) = string_body-Yields n after target (note_range v.range s)
    long_Yields (negsuc n) = over

pub b_string_parse-Yields :
    (buf : Bytes) (target : BString) (s : Process)
    → Yields StringSized Anything (b_string_parse buf target s)
unfolding b_string_parse
b_string_parse-Yields buf target s = found_Yields (strchr b':' buf)
  where
    found_Yields : (r : Search) → Yields StringSized Anything (b_string_found buf r target s)
    found_Yields (found before after) =
        string_value-Yields (strtol (string_tmp before)) after target s
    found_Yields missing = Yields-if _ (missed tt) over
    found_Yields overrun = over

-- An unsigned int.
abbrev pub IntSized : BInt → Type 0
IntSized n = n.val < 2 ^ 32

to_u32_lt : (n : ℤ) → to_u32 n < 2 ^ 32
to_u32_lt (pos n) = omega arith
to_u32_lt (negsuc n) = omega arith

int_value-Yields :
    (v : Option Long) (after : Bytes) (ret : BInt) (s : Process)
    → Yields IntSized Anything (int_value v after ret s)
unfolding int_value
int_value-Yields none after ret s = over
int_value-Yields (some v) after ret s =
    Yields-if (int_failed (to_u32 v.value) (note_range v.range s)) (missed tt)
      (got (to_u32_lt v.value))

pub b_int_parse-Yields :
    (buf : Bytes) (ret : BInt) (s : Process) → Yields IntSized Anything (b_int_parse buf ret s)
unfolding b_int_parse
b_int_parse-Yields buf ret s = found_Yields (strchr b'e' buf)
  where
    found_Yields : (r : Search) → Yields IntSized Anything (b_int_found buf r ret s)
    found_Yields (found before after) = int_value-Yields (strtol (int_tmp buf before)) after ret s
    found_Yields missing = Yields-if _ (missed tt) over
    found_Yields overrun = over

c_str_no_nul : (bs : Bytes) → All (λ b. b ≢ 0) (c_str bs)
unfolding c_str
c_str_no_nul [] = tt
c_str_no_nul (b ∷ bs) = elim (Bool-cases (b == 0)) [
  | inl e ↦ rw e tt
  | inr e ↦ rw e ((λ z. cc (e, ==-refl 0, z)), c_str_no_nul bs)
]

All-take : (P : ℕ → Type 0) (n : ℕ) (bs : Bytes) → All P bs → All P (take n bs)
All-take P zero bs h = tt
All-take P (suc n) [] h = tt
All-take P (suc n) (b ∷ bs) (p, h) = (p, All-take P n bs h)

pub entry_key-KeySized : (k : Bytes) → KeySized (entry_key k)
unfolding entry_key
entry_key-KeySized k =
    (omega (arith, length-take key_len (c_str k)), All-take _ key_len (c_str k) (c_str_no_nul k))
