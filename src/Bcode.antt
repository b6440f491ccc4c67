-- ===== src/Bcode.antt =====
-- The B-coding objects of include/b_parse.h and src/b_parse.c, and what a parser call leaves
-- behind. The child modules hold the operations.
pub mod Objects
pub mod Entries
pub mod Free
pub mod Scalars
pub mod Parse
pub mod Blocks
pub mod Total
pub mod Encode
pub mod Decimal
pub mod RoundTrip
pub mod Malformed
pub mod Overflow
pub mod Wide
pub mod Print
pub mod Bounds
pub mod Start
mod Tests
use bt_server.Common.{ℕ, Bool, Option, none}
use bt_server.Libc.{Bytes}

-- struct b_string: `head` is the allocated block (NULL is `none`), `off` is `data - head`. The
-- back pointer `prev`, here and below, is written by the adds and read nowhere.
pub record BString : Type 0 where
  pub head : Option Bytes
  pub off : ℕ
  pub len : ℕ

-- struct b_int
pub record BInt : Type 0 where
  pub val : ℕ

-- A `void *` with the type tag beside it in struct l_entry and struct d_entry. `taken t` is the
-- NULL pointer of an entry with the tag `t` whose object has been moved out.
mutual
  pub data Value : Type 0 where
    list : BList → Value
    int : BInt → Value
    string : BString → Value
    dict : BDict → Value
    taken : ℕ → Value

  -- struct b_list: its entries in order
  pub data BList : Type 0 where
    nil : BList
    cons : Value → BList → BList

  -- struct b_dict: keys and values in order; a key is the text held in `key[KEY_LEN]`
  pub data BDict : Type 0 where
    end : BDict
    entry : Bytes → Value → BDict → BDict

-- What the calls read and change besides their arguments: `errno`, the number of calls of malloc
-- so far and of the blocks not yet freed, and the allocator: does the k-th call, for n
-- bytes, succeed, and what does the block it returns hold?
pub record Process : Type 0 where
  pub errno : ℕ
  pub calls : ℕ
  pub live : ℕ
  pub grant : ℕ → ℕ → Bool
  pub content : ℕ → ℕ → Bytes

-- A parser returns the next position, as the bytes from there on, or NULL; either way the object
-- it was given holds an `A`. `fault` is undefined behaviour, such as a read past the buffer;
-- `spin` says that the fuel ran out.
pub data Outcome (A : Type 0) : Type 0 where
  next : A → Bytes → Process → Outcome A
  null : A → Process → Outcome A
  fault : Outcome A
  spin : Outcome A

-- `ptr = parse(…); if (ptr) k else e`
abbrev pub returned :
    {A B : Type 0}
    → Outcome A
    → (A → Bytes → Process → Outcome B)
    → (A → Process → Outcome B)
    → Outcome B
returned (next a p s) k e = k a p s
returned (null a s) k e = e a s
returned fault k e = fault
returned spin k e = spin
