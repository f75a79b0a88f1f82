-- ===== src/Loader/PropStream.antt =====
-- The streams of properties of src/fileloader.h. A reading stream is the list of the bytes between `p` and
-- `end`, and a writing stream is its buffer.
use infernum_data_pack.Base.{
  ℕ, ◌^◌, ◌<◌, ◌≡◌, refl, ap, ◌∙◌, List, [], ◌++◌, append_assoc, Option, none, some, length, take,
  drop, arith, false, ltb, if◌then◌else◌, take-append, drop-append, length-append, sym, Bool-cases,
  inl, inr,
}
use infernum_data_pack.Network.Memory.{le_bytes, le_value, length-le_bytes, le_value-le_bytes}

-- `read<T>` of an unsigned type of `n` bytes.
unfoldable pub read_value : ℕ → List ℕ → Option (ℕ × List ℕ)
unfolding le_value
read_value n bs = if ltb (length bs) n then none else some (le_value (take n bs), drop n bs)

-- The part of `readString` after the length was read.
unfoldable take_text : Option (ℕ × List ℕ) → Option (List ℕ × List ℕ)
take_text none = none
take_text (some (n, rest)) = if ltb (length rest) n then none else some (take n rest, drop n rest)

unfoldable pub read_string : List ℕ → Option (List ℕ × List ℕ)
unfolding read_value take_text
read_string bs = take_text (read_value 2 bs)

unfoldable pub skip : ℕ → List ℕ → Option (List ℕ)
skip n bs = if ltb (length bs) n then none else some (drop n bs)

unfoldable pub write_value : ℕ → ℕ → List ℕ → List ℕ
unfolding le_bytes
write_value n v buffer = buffer ++ le_bytes n v

-- `writeString`: a text of 65536 bytes or more is written as an empty one.
unfoldable pub write_string : List ℕ → List ℕ → List ℕ
unfolding write_value
write_string str buffer =
    if ltb 65535 (length str)
    then write_value 2 0 buffer
    else write_value 2 (length str) buffer ++ str

-- A prefix of known length is cut off.
cut_length : (n : ℕ) (xs rest : List ℕ) → length xs ≡ n → ltb (length (xs ++ rest)) n ≡ false
cut_length n xs rest h = ground (arith, h, length-append xs rest)

cut_take : (n : ℕ) (xs rest : List ℕ) → length xs ≡ n → take n (xs ++ rest) ≡ xs
cut_take n xs rest h = rw (sym h) (take-append xs rest)

cut_drop : (n : ℕ) (xs rest : List ℕ) → length xs ≡ n → drop n (xs ++ rest) ≡ rest
cut_drop n xs rest h = rw (sym h) (drop-append xs rest)

-- A number that fits in the `n` bytes of its type is read back, and nothing more.
pub read_value-write_value :
    (n v : ℕ) (rest : List ℕ)
    → v < 256 ^ n
    → read_value n (write_value n v [] ++ rest) ≡ some (v, rest)
unfolding read_value write_value
read_value-write_value n v rest h =
    let sized = length-le_bytes n v in
    simp
      (
        cut_length n (le_bytes n v) rest sized,
        cut_take n (le_bytes n v) rest sized,
        cut_drop n (le_bytes n v) rest sized,
        le_value-le_bytes n v h,
      )
      refl

read_text :
    (str rest bs : List ℕ)
    → read_value 2 bs ≡ some (length str, str ++ rest)
    → read_string bs ≡ some (str, rest)
unfolding read_string
read_text str rest bs h =
    ap take_text h
    ∙ unfold take_text in
      simp (cut_length (length str) str rest refl, take-append str rest, drop-append str rest) refl

-- A text of at most 65535 bytes is read back, and nothing more; a longer one is read back as an empty text.
pub read_string-write_string :
    (str rest : List ℕ)
    → read_string (write_string str [] ++ rest)
      ≡ some (if ltb 65535 (length str) then [] else str, rest)
unfolding write_string
read_string-write_string str rest = elim (Bool-cases (ltb 65535 (length str))) [
  | inl h ↦ simp h (
      read_text [] rest (write_value 2 0 [] ++ rest)
        (read_value-write_value 2 0 rest (omega arith)))
  | inr h ↦ simp h (
      read_text str rest ((write_value 2 (length str) [] ++ str) ++ rest) (
        ap (read_value 2) (append_assoc (write_value 2 (length str) []) str rest)
        ∙ read_value-write_value 2 (length str) (str ++ rest) (ground (arith, h))))
]
