-- ===== src/Network/Message/Writes.antt =====
-- The writes: each appends the bytes of its value, or changes nothing.
use infernum_data_pack.Base.{
  ℕ, ◌+◌, ◌%◌, ◌^◌, ◌≤◌, ◌<◌, ◌≡◌, ap, ◌∙◌, List, [], ◌∷◌, ◌++◌, append_assoc, All, All-append,
  arith, length, length-append,
}
use infernum_data_pack.Position.{Position}
use infernum_data_pack.Network.Memory.{
  store, le_bytes, length-le_bytes, le_bytes-IsByte, store-append,
}
use infernum_data_pack.Network.Words.{IsByte, IsU16}
use infernum_data_pack.Network.Message.{
  Message, max_body_length, can_add, put, add_byte, add, add_string, add_position,
}

-- A message that is being written: the body begins at offset 8, and every write so far has left the
-- cursor below `MAX_BODY_LENGTH`.
pub record IsWriting (m : Message) : Type 0 where
  pub at_end : m.position ≡ m.length + 8
  pub below : m.position < max_body_length

pub put-IsWriting :
    (m : Message) (bs : List ℕ)
    → IsWriting m
    → m.position + length bs < max_body_length
    → IsWriting (put bs m)
unfolding put
put-IsWriting m bs w h = ground arith

-- Two writes in a row write the two byte strings in a row.
pub put-put :
    (m : Message) (bs cs : List ℕ)
    → IsWriting m
    → m.position + length bs + length cs < max_body_length
    → put cs (put bs m) ≡ put (bs ++ cs) m
unfolding put
put-put m bs cs w h =
    let e : (m.position + length bs) % 65536 ≡ m.position + length bs = omega (arith, w.below) in
    rw (e, store-append m.buffer m.position bs cs, length-append bs cs) (ground arith)

-- The values that the methods write and read back.
pub data Field : Type 0 where
  byte : ℕ → Field
  number : ℕ → ℕ → Field
  text : List ℕ → Field
  place : Position → Field

-- `addByte`, `add<T>` at the size of T, `addString`, `addPosition`.
unfoldable pub write : Field → Message → Message
unfolding add_byte add add_string add_position
write (byte v) = add_byte v
write (number size v) = add size v
write (text bs) = add_string bs
write (place p) = add_position p

-- The bytes on the wire.
unfoldable pub encode : Field → List ℕ
encode (byte v) = v ∷ []
encode (number size v) = le_bytes size v
encode (text bs) = le_bytes 2 (length bs) ++ bs
encode (place p) = le_bytes 2 p.x ++ (le_bytes 2 p.y ++ (p.z ∷ []))

-- The values are of their types, and a text is not too long for `addString`.
abbrev pub IsField : Field → Type 0
IsField (byte v) = IsByte v
IsField (number size v) = v < 256 ^ size
IsField (text bs) = (length bs ≤ 8192) × All IsByte bs
IsField (place p) = IsU16 p.x × IsU16 p.y × IsByte p.z

add-eq-put :
    (size v : ℕ) (m : Message)
    → m.position + size < max_body_length
    → add size v m ≡ put (le_bytes size v) m
unfolding add can_add
add-eq-put size v m h = ground arith

add_byte-eq-put :
    (v : ℕ) (m : Message) → m.position + 1 < max_body_length → add_byte v m ≡ put (v ∷ []) m
unfolding add_byte can_add
add_byte-eq-put v m h = ground arith

put-position :
    (m : Message) (bs : List ℕ)
    → m.position + length bs < max_body_length
    → (put bs m).position ≡ m.position + length bs
unfolding put
put-position m bs h = omega arith

add_string-eq-put :
    (bs : List ℕ) (m : Message)
    → length bs ≤ 8192
    → m.position + (length bs + 2) < max_body_length
    → add_string bs m ≡ put bs (add 2 (length bs) m)
unfolding add_string can_add
add_string-eq-put bs m i h = ground arith

add_position-eq-put :
    (p : Position) (m : Message)
    → IsWriting m
    → m.position + 5 < max_body_length
    → add_position p m ≡ put (le_bytes 2 p.x ++ (le_bytes 2 p.y ++ (p.z ∷ []))) m
unfolding add_position
add_position-eq-put p m w h =
    ap (λ n. add_byte p.z (add 2 p.y n)) (add-eq-put 2 p.x m (omega arith))
    ∙ ap (add_byte p.z) (add-eq-put 2 p.y (put xs m) (omega (arith, put-position m xs, lx)))
    ∙ ap (add_byte p.z) (put-put m xs ys w (omega (arith, lx, ly)))
    ∙ add_byte-eq-put p.z (put (xs ++ ys) m) (omega (arith, put-position m (xs ++ ys), lxy, lx, ly))
    ∙ put-put m (xs ++ ys) (p.z ∷ []) w (omega (arith, lxy, lx, ly))
    ∙ ap (λ bs. put bs m) (append_assoc xs ys (p.z ∷ []))
  where
    xs : List ℕ
    xs = le_bytes 2 p.x

    ys : List ℕ
    ys = le_bytes 2 p.y

    lx : length xs ≡ 2
    lx = length-le_bytes 2 p.x

    ly : length ys ≡ 2
    ly = length-le_bytes 2 p.y

    lxy : length (xs ++ ys) ≡ length xs + length ys
    lxy = length-append xs ys

-- Where there is room, a write appends the encoding of its value, and does nothing else.
pub write-eq-put :
    (f : Field) (m : Message)
    → IsField f
    → IsWriting m
    → m.position + length (encode f) < max_body_length
    → write f m ≡ put (encode f) m
unfolding write encode
write-eq-put (byte v) m i w h = add_byte-eq-put v m h
write-eq-put (number size v) m i w h = add-eq-put size v m (omega (arith, length-le_bytes size v))
write-eq-put (text bs) m i w h =
    let head : List ℕ = le_bytes 2 (length bs) in
    let l : length head ≡ 2 = length-le_bytes 2 (length bs) in
    let room : m.position + (length head + length bs) < max_body_length =
      rw (length-append head bs) at h in
    add_string-eq-put bs m i.0 (omega arith)
    ∙ ap (put bs) (add-eq-put 2 (length bs) m (omega arith))
    ∙ put-put m head bs w (omega arith)
write-eq-put (place p) m i w h = add_position-eq-put p m w (
    omega (
      arith,
      length-append (le_bytes 2 p.x) (le_bytes 2 p.y ++ p.z ∷ []),
      length-append (le_bytes 2 p.y) (p.z ∷ []),
      length-le_bytes 2 p.x,
      length-le_bytes 2 p.y,
    ))

-- `write` for each value in turn.
unfoldable pub write_all : List Field → Message → Message
write_all [] m = m
write_all (f ∷ fs) m = write_all fs (write f m)

unfoldable pub encode_all : List Field → List ℕ
encode_all [] = []
encode_all (f ∷ fs) = encode f ++ encode_all fs

pub write_all-eq-put :
    (fs : List Field) (m : Message)
    → All IsField fs
    → IsWriting m
    → m.position + length (encode_all fs) < max_body_length
    → write_all fs m ≡ put (encode_all fs) m
unfolding write_all encode_all
write_all-eq-put [] m i w h = unfold put store in ground arith
write_all-eq-put (f ∷ fs) m i w h =
    ap (write_all fs) (write-eq-put f m i.0 w (omega (arith, lengths)))
    ∙ write_all-eq-put fs (put (encode f) m) i.1
        (put-IsWriting m (encode f) w (omega (arith, lengths)))
        (omega (arith, lengths, put-position m (encode f) (omega (arith, lengths))))
    ∙ put-put m (encode f) (encode_all fs) w (omega (arith, lengths))
  where
    lengths : length (encode f ++ encode_all fs) ≡ length (encode f) + length (encode_all fs)
    lengths = length-append (encode f) (encode_all fs)

encode-IsByte : (f : Field) → IsField f → All IsByte (encode f)
unfolding encode
encode-IsByte (byte v) i = (i, tt)
encode-IsByte (number size v) i = le_bytes-IsByte size v
encode-IsByte (text bs) i = All-append IsByte _ _ (le_bytes-IsByte 2 (length bs)) i.1
encode-IsByte (place p) i =
    All-append IsByte _ _ (le_bytes-IsByte 2 p.x)
      (All-append IsByte _ _ (le_bytes-IsByte 2 p.y) (i.2, tt))

pub encode_all-IsByte : (fs : List Field) → All IsField fs → All IsByte (encode_all fs)
unfolding encode_all
encode_all-IsByte [] i = tt
encode_all-IsByte (f ∷ fs) i =
    All-append IsByte _ _ (encode-IsByte f i.0) (encode_all-IsByte fs i.1)
