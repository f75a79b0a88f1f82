-- ===== src/Position/Range.antt =====
-- Sums, differences and distances of src/position.h.
use infernum_data_pack.Base.{ℕ, ◌+◌, ◌≤◌, ◌<◌, ◌≡◌, ◌↔◌, true, arith, leb, &&-true}
use infernum_data_pack.Base.Int.{abs, sub_ℕ}
use infernum_data_pack.Position.{Position, plus, minus, are_in_range, are_in_range_3d}

-- The coordinates are of their types.
pub record IsPosition (p : Position) : Type 0 where
  pub x_fits : p.x < 65536
  pub y_fits : p.y < 65536
  pub z_fits : p.z < 256

-- Adding and then subtracting an offset gives the position back, also where the coordinates wrap.
pub minus-plus : (p q : Position) → IsPosition p → IsPosition q → minus (plus p q) q ≡ p
unfolding minus plus
minus-plus p q hp hq = ground arith

-- Two coordinates are at most `d` apart.
abbrev pub Within : ℕ → ℕ → ℕ → Type 0
Within d a b = (a ≤ b + d) × (b ≤ a + d)

Within-of_test : (d a b : ℕ) → leb (abs (sub_ℕ a b)) d ≡ true → Within d a b
Within-of_test d a b h = ground arith

test_of_Within : (d a b : ℕ) → Within d a b → leb (abs (sub_ℕ a b)) d ≡ true
test_of_Within d a b h = ground arith

-- `areInRange` on the plane holds exactly where both coordinates are within their limits.
pub are_in_range_iff :
    (dx dy : ℕ) (p q : Position)
    → (are_in_range dx dy p q ≡ true) ↔ (Within dx p.x q.x × Within dy p.y q.y)
unfolding are_in_range
are_in_range_iff dx dy p q = (
  λ h. let (hx, hy) = &&-true _ _ h in (Within-of_test dx p.x q.x hx, Within-of_test dy p.y q.y hy),
  λ h. rw (test_of_Within dx p.x q.x h.0, test_of_Within dy p.y q.y h.1),
)

-- `areInRange` with a limit for floors holds exactly where each of the three coordinates is within
-- its limit, in whichever direction; so it does not matter which position comes first.
pub are_in_range_3d_iff :
    (dx dy dz : ℕ) (p q : Position)
    → (are_in_range_3d dx dy dz p q ≡ true)
      ↔ (Within dx p.x q.x × Within dy p.y q.y × Within dz p.z q.z)
unfolding are_in_range_3d
are_in_range_3d_iff dx dy dz p q = (
  λ h.
      let (hx, r) = &&-true _ _ h in
      let (hy, hz) = &&-true _ _ r in
      (Within-of_test dx p.x q.x hx, Within-of_test dy p.y q.y hy, Within-of_test dz p.z q.z hz),
  λ h.
      rw (
        test_of_Within dx p.x q.x h.0,
        test_of_Within dy p.y q.y h.1,
        test_of_Within dz p.z q.z h.2,
      ),
)
