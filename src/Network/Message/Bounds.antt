-- ===== src/Network/Message/Bounds.antt =====
-- Reads stay inside the message, or are refused as a whole.
use infernum_data_pack.Base.{
  ℕ, ◌+◌, ◌≤◌, ◌<◌, ◌≡◌, ◌⊎◌, inl, inr, true, List, [], arith, Bool-cases,
}
use infernum_data_pack.Network.Memory.{load, le_value}
use infernum_data_pack.Network.Message.{
  Message, network_message_max_size, in_message, get, take_string,
}

-- What `canRead` lets through lies within the buffer and within what has arrived.
pub in_message_bounds :
    (m : Message) (size : ℕ)
    → in_message m size ≡ true
    → (m.position + size < network_message_max_size) × (m.position + size ≤ m.length + 8)
unfolding in_message
in_message_bounds m size h = ground arith

-- The outcome of a read of `size` bytes from `m`: they lie in the buffer, are handed to `f`, and the
-- position moves past them; or the read is refused, the overrun flag is set, the result is empty and
-- nothing else changes.
abbrev pub ReadOutcome {ℓ} : {A : Type ℓ} → (List ℕ → A) → A → ℕ → Message → Message × A → Type ℓ
ReadOutcome f empty size m (m', a) =
    ((m.position + size < network_message_max_size)
      × (m.position + size ≤ m.length + 8)
      × (m' ≡ record m { position = m.position + size })
      × (a ≡ f (load m.buffer m.position size)))
    ⊎ ((m' ≡ record m { overrun = true }) × (a ≡ empty))

-- `get` of every integer type reads inside the buffer or refuses and sets the overrun flag.
pub get-ReadOutcome : (size : ℕ) (m : Message) → ReadOutcome le_value 0 size m (get size m)
unfolding get
get-ReadOutcome size m = elim (Bool-cases (in_message m size)) [
  | inl e ↦
      let (fits, arrived) = in_message_bounds m size e in
      inl (fits, arrived, ground (arith, e), ground (arith, e))
  | inr e ↦ inr (ground (arith, e), ground (arith, e))
]

pub take_string-ReadOutcome :
    (n : ℕ) (m : Message) → ReadOutcome (λ bs. bs) [] n m (take_string n m)
unfolding take_string
take_string-ReadOutcome n m = elim (Bool-cases (in_message m n)) [
  | inl e ↦
      let (fits, arrived) = in_message_bounds m n e in
      inl (fits, arrived, ground (arith, e), ground (arith, e))
  | inr e ↦ inr (ground (arith, e), ground (arith, e))
]
