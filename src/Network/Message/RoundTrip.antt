-- ===== src/Network/Message/RoundTrip.antt =====
-- What the writing methods write, the reading methods read back.
use infernum_data_pack.Base.{
  ℕ, ◌+◌, ◌^◌, ◌≤◌, ◌<◌, ◌≡◌, sym, ap, ◌∙◌, List, [], ◌∷◌, ◌++◌, map, All, arith, length,
  length-append, append_injective,
}
use infernum_data_pack.Position.{Position}
use infernum_data_pack.Network.Memory.{
  load, le_bytes, le_value, length-le_bytes, length-load, load-append, le_value-le_bytes,
  load-store_self,
}
use infernum_data_pack.Network.Message.{
  Message, network_message_max_size, max_body_length, in_message, put, get, get_byte, get_string,
  take_string, get_position,
}
use infernum_data_pack.Network.Message.Writes.{
  Field, byte, number, text, place, IsField, IsWriting, encode, encode_all, write_all,
  write_all-eq-put,
}

pub data Kind : Type 0 where
  byte_kind text_kind place_kind : Kind
  number_kind : ℕ → Kind

unfoldable pub kind : Field → Kind
kind (byte v) = byte_kind
kind (number size v) = number_kind size
kind (text bs) = text_kind
kind (place p) = place_kind

abbrev pub tag {ℓ κ} : {A : Type ℓ} {B : Type κ} → (A → B) → Message × A → Message × B
tag f (m, a) = (m, f a)

-- `getByte`, `get<T>`, `getString` with the length on the wire, `getPosition`.
unfoldable pub read : Kind → Message → Message × Field
read byte_kind m = tag byte (get_byte m)
read (number_kind size) m = tag (number size) (get size m)
read text_kind m = tag text (get_string 0 m)
read place_kind m = tag place (get_position m)

pub read_all : List Kind → Message → Message × List Field
read_all [] m = (m, [])
read_all (k ∷ ks) m = let (m', f) = read k m in let (m'', fs) = read_all ks m' in (m'', f ∷ fs)

-- At its position the message has the bytes `bs`, which have arrived.
pub record Holds (m : Message) (bs : List ℕ) : Type 0 where
  pub bytes : load m.buffer m.position (length bs) ≡ bs
  pub arrived : m.position + length bs ≤ m.length + 8
  pub inside : m.position + length bs < network_message_max_size

abbrev pub moved : Message → ℕ → Message
moved m n = record m { position = m.position + n }

pub Holds-split :
    (m : Message) (cs bs : List ℕ)
    → Holds m (cs ++ bs)
    → Holds m cs × Holds (moved m (length cs)) bs
Holds-split m cs bs h = (
  record { bytes = parts.0; arrived = omega (arith, l); inside = omega (arith, l) },
  record { bytes = parts.1; arrived = omega (arith, l); inside = omega (arith, l) },
)
  where
    l : length (cs ++ bs) ≡ length cs + length bs
    l = length-append cs bs

    split :
        load m.buffer m.position (length cs) ++ load m.buffer (m.position + length cs) (length bs)
        ≡ cs ++ bs
    split = sym (load-append m.buffer m.position (length cs) (length bs)) ∙ (rw l at h.bytes)

    parts :
        (load m.buffer m.position (length cs) ≡ cs)
        × (load m.buffer (m.position + length cs) (length bs) ≡ bs)
    parts = append_injective _ _ cs bs (length-load _ _ _) split

get_of_Holds :
    (m : Message) (bs : List ℕ)
    → Holds m bs
    → get (length bs) m ≡ (moved m (length bs), le_value bs)
unfolding get in_message
get_of_Holds m bs h = ground (arith, h.bytes)

get_byte_of_Holds : (m : Message) (b : ℕ) → Holds m (b ∷ []) → get_byte m ≡ (moved m 1, b)
unfolding get_byte in_message load
get_byte_of_Holds m b h = ground (arith, h.bytes)

take_string_of_Holds :
    (m : Message) (bs : List ℕ) → Holds m bs → take_string (length bs) m ≡ (moved m (length bs), bs)
unfolding take_string in_message
take_string_of_Holds m bs h = ground (arith, h.bytes)

pub get_number :
    (size v : ℕ) (m : Message)
    → v < 256 ^ size
    → Holds m (le_bytes size v)
    → get size m ≡ (moved m size, v)
get_number size v m i h =
    rw (length-le_bytes size v, le_value-le_bytes size v i) at (get_of_Holds m _ h)

get_string_of_Holds :
    (bs : List ℕ) (m : Message)
    → length bs ≤ 8192
    → Holds m (le_bytes 2 (length bs) ++ bs)
    → get_string 0 m ≡ (moved m (2 + length bs), bs)
unfolding get_string
get_string_of_Holds bs m i h =
    let (head, body) = Holds-split m (le_bytes 2 (length bs)) bs h in
    let body' : Holds (moved m 2) bs = rw (length-le_bytes 2 (length bs)) at body in
    rw (get_number 2 (length bs) m (omega arith) head, take_string_of_Holds (moved m 2) bs body')
      (ground arith)

get_position_of_Holds :
    (p : Position) (m : Message)
    → IsField (place p)
    → Holds m (le_bytes 2 p.x ++ (le_bytes 2 p.y ++ (p.z ∷ [])))
    → get_position m ≡ (moved m 5, p)
unfolding get_position
get_position_of_Holds p m i h =
    let (hx, rest) = Holds-split m (le_bytes 2 p.x) (le_bytes 2 p.y ++ (p.z ∷ [])) h in
    let rest' : Holds (moved m 2) (le_bytes 2 p.y ++ (p.z ∷ [])) =
      rw (length-le_bytes 2 p.x) at rest in
    let (hy, last) = Holds-split (moved m 2) (le_bytes 2 p.y) (p.z ∷ []) rest' in
    let last' : Holds (moved (moved m 2) 2) (p.z ∷ []) = rw (length-le_bytes 2 p.y) at last in
    rw
      (
        get_number 2 p.x m (omega arith) hx,
        get_number 2 p.y (moved m 2) (omega arith) hy,
        get_byte_of_Holds (moved (moved m 2) 2) p.z last',
      )
      (ground arith)

-- One value is read back from its encoding.
pub read_of_Holds :
    (f : Field) (m : Message)
    → IsField f
    → Holds m (encode f)
    → read (kind f) m ≡ (moved m (length (encode f)), f)
unfolding read kind encode le_bytes
read_of_Holds (byte v) m i h = ap (tag byte) (get_byte_of_Holds m v h)
read_of_Holds (number size v) m i h =
    rw (length-le_bytes size v) (ap (tag (number size)) (get_number size v m i h))
read_of_Holds (text bs) m i h =
    rw (length-append (le_bytes 2 (length bs)) bs, length-le_bytes 2 (length bs))
      (ap (tag text) (get_string_of_Holds bs m i.0 h))
read_of_Holds (place p) m i h = ap (tag place) (get_position_of_Holds p m i h)

pub read_all_of_Holds :
    (fs : List Field) (m : Message)
    → All IsField fs
    → Holds m (encode_all fs)
    → read_all (map kind fs) m ≡ (moved m (length (encode_all fs)), fs)
unfolding read_all encode_all
read_all_of_Holds [] m i h = ground arith
read_all_of_Holds (f ∷ fs) m i h =
    let (first, rest) = Holds-split m (encode f) (encode_all fs) h in
    rw (read_of_Holds f m i.0 first, read_all_of_Holds fs (moved m (length (encode f))) i.1 rest)
      (ground (arith, length-append (encode f) (encode_all fs)))

-- Values that were written to a message with room for all of them are read back from the offset
-- where the first was written: the same values in the same order, with no overrun, and the cursor
-- ends where the writing ended.
pub read_all-write_all :
    (fs : List Field) (m : Message)
    → All IsField fs
    → IsWriting m
    → m.position + length (encode_all fs) < max_body_length
    → let written = write_all fs m in
      read_all (map kind fs) (record written { position = m.position }) ≡ (written, fs)
read_all-write_all fs m i w h =
    rw (write_all-eq-put fs m i w h)
      (read_all_of_Holds fs start i holds ∙ unfold put in ground arith)
  where
    start : Message
    start = record (put (encode_all fs) m) { position = m.position }

    holds : Holds start (encode_all fs)
    holds =
        unfold put in
        record {
          bytes = load-store_self m.buffer m.position (encode_all fs);
          arrived = omega arith;
          inside = omega arith;
        }
