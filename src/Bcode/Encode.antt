-- ===== src/Bcode/Encode.antt =====
-- B-coding as a format: abstract terms, their encoding, and the objects of src/b_parse.c that
-- stand for them. The program has no encoder; this is the description that the parsers are held to.
use bt_server.Common.{
  ℕ, zero, suc, ◌+◌, ◌/◌, ◌%◌, ◌<◌, ◌^◌, some, [], ◌∷◌, ◌++◌, ltb, if◌then◌else◌, length,
}
use bt_server.Libc.{Bytes}
use bt_server.Bcode.{BString, Value, BList, BDict, nil, cons, end, entry}
use bt_server.Bcode.Entries.{entry_key}

-- Decimal digits, most significant first.
unfoldable pub digits : ℕ → ℕ → Bytes
digits zero n = []
digits (suc f) n =
    let more = digits f (n / 10) ++ (b'0' + n % 10) ∷ [] in
    if ltb n 10 then (b'0' + n) ∷ [] else more

unfoldable pub decimal : ℕ → Bytes
unfolding digits
decimal n = digits (suc n) n

mutual
  pub data Term : Type 0 where
    text : Bytes → Term
    number : ℕ → Term
    sequence : Terms → Term
    mapping : Pairs → Term

  pub data Terms : Type 0 where
    no_terms : Terms
    term : Term → Terms → Terms

  pub data Pairs : Type 0 where
    no_pairs : Pairs
    pair : Bytes → Term → Pairs → Pairs

unfoldable pub encode_text : Bytes → Bytes
unfolding decimal
encode_text bs = decimal (length bs) ++ (b':' ∷ bs)

unfoldable mutual
  unfolding encode_text decimal

  pub encode : Term → Bytes
  encode (text bs) = encode_text bs
  encode (number n) = b'i' ∷ decimal n ++ b'e' ∷ []
  encode (sequence xs) = b'l' ∷ encode_terms xs ++ b'e' ∷ []
  encode (mapping ps) = b'd' ∷ encode_pairs ps ++ b'e' ∷ []

  pub encode_terms : Terms → Bytes
  encode_terms no_terms = []
  encode_terms (term t xs) = encode t ++ encode_terms xs

  pub encode_pairs : Pairs → Bytes
  encode_pairs no_pairs = []
  encode_pairs (pair k t ps) = encode_text k ++ (encode t ++ encode_pairs ps)

-- The string object that holds `bs` and a NUL behind it.
unfoldable pub of_bytes : Bytes → BString
of_bytes bs = record { head = some (bs ++ 0 ∷ []); off = 0; len = length bs }

unfoldable mutual
  unfolding of_bytes entry_key

  pub object : Term → Value
  object (text bs) = Value.string (of_bytes bs)
  object (number n) = Value.int (record { val = n })
  object (sequence xs) = Value.list (objects xs)
  object (mapping ps) = Value.dict (fields ps)

  pub objects : Terms → BList
  objects no_terms = nil
  objects (term t xs) = cons (object t) (objects xs)

  -- The key of an entry is the text that its 128 bytes hold.
  pub fields : Pairs → BDict
  fields no_pairs = end
  fields (pair k t ps) = entry (entry_key (k ++ 0 ∷ [])) (object t) (fields ps)

-- Lengths and numbers fit an `unsigned int`.
abbrev mutual
  pub Fits : Term → Type 0
  Fits (text bs) = length bs < 2 ^ 32
  Fits (number n) = n < 2 ^ 32
  Fits (sequence xs) = FitsTerms xs
  Fits (mapping ps) = FitsPairs ps

  pub FitsTerms : Terms → Type 0
  FitsTerms no_terms = Unit
  FitsTerms (term t xs) = Fits t × FitsTerms xs

  pub FitsPairs : Pairs → Type 0
  FitsPairs no_pairs = Unit
  FitsPairs (pair k t ps) = (length k < 2 ^ 32) × Fits t × FitsPairs ps
