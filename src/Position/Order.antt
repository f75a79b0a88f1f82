-- ===== src/Position/Order.antt =====
-- The comparisons of src/position.h.
use infernum_data_pack.Base.{◌<◌, ◌≡◌, ◌⊎◌, ◌↔◌, true, false, arith}
use infernum_data_pack.Position.{Position, is_less, is_greater, is_equal, differs}

-- The order in which the fields decide: floor first, then row, then column.
abbrev pub Before : Position → Position → Type 0
Before p q = (p.z < q.z) ⊎ ((p.z ≡ q.z) × ((p.y < q.y) ⊎ ((p.y ≡ q.y) × (p.x < q.x))))

is_less→Before : (p q : Position) → is_less p q ≡ true → Before p q
unfolding is_less
is_less→Before p q h = ground arith

Before→is_less : (p q : Position) → Before p q → is_less p q ≡ true
unfolding is_less
Before→is_less p q h = ground arith

-- `<` is the lexicographic order by floor, row and column, exactly.
pub is_less_iff : (p q : Position) → (is_less p q ≡ true) ↔ Before p q
is_less_iff p q = (is_less→Before p q, Before→is_less p q)

-- `<` is a strict total order whose third case is `==`: of two positions exactly one is less, or they
-- are equal, `==` says so, and `!=` says the opposite.
pub is_less_trichotomy :
    (p q : Position)
    → ((is_less p q ≡ true) × (is_less q p ≡ false) × (is_equal p q ≡ false) × (differs p q ≡ true))
      ⊎ ((is_less p q ≡ false)
          × (is_less q p ≡ true)
          × (is_equal p q ≡ false)
          × (differs p q ≡ true))
      ⊎ ((is_less p q ≡ false)
          × (is_less q p ≡ false)
          × (is_equal p q ≡ true)
          × (differs p q ≡ false)
          × (p ≡ q))
unfolding is_less is_equal differs
is_less_trichotomy p q = ground arith

pub is_less_trans :
    (p q r : Position) → is_less p q ≡ true → is_less q r ≡ true → is_less p r ≡ true
is_less_trans p q r h k =
    let a = is_less→Before p q h in
    let b = is_less→Before q r k in Before→is_less p r (ground (arith, a, b))

-- `>` is not the converse of `<`: it holds of equal positions too, and says `>=`.
pub is_greater_iff : (p q : Position) → (is_greater p q ≡ true) ↔ (Before q p ⊎ (p ≡ q))
unfolding is_greater
is_greater_iff p q = (λ h. ground arith, λ h. ground arith)
