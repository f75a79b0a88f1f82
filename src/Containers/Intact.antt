-- ===== src/Containers/Intact.antt =====
-- The containers fit together, and weigh what their items weigh (src/container.cpp).
use infernum_data_pack.Base.{
  ℕ, ◌+◌, ◌%◌, ◌<◌, ◌≤◌, ◌≡◌, refl, true, false, ◌==◌, Option, some, if◌then◌else◌, arith,
}
use infernum_data_pack.Containers.{Parent, Kinds, Store, Thing, item, creature, word}
use infernum_data_pack.Containers.Methods.{update_item_weight}
use infernum_data_pack.Containers.Nesting.{is_inside, Above, Rooted, Rooted_up}
use infernum_data_pack.Containers.Balance.{load, Typed, update_item_weight-Reweighed}

-- The thing is in no container, and container `c` is not inside it.
unfoldable pub IsFree : (ℕ → Parent) → ℕ → Thing → Type 0
IsFree parent c (item x) = (is_inside (parent x) ≡ false) × ¬ Above parent x c
IsFree parent c creature = Unit {0}

module _ (k : Kinds) where
  -- Every item stands in the list of its parent alone, containers do not lie in themselves, and each
  -- container's total is the weight of the items in its list.
  pub record IsIntact (n : ℕ) (s : Store) : Type 0 where
    pub rooted : (i : ℕ) → Rooted s.parent s.itemlist n i
    pub typed : Typed k s.parent
    pub weighs : (c : ℕ) → s.total_weight c ≡ load k s c % word

  -- The method returned, and what it left is intact.
  pub record Leaves (n : ℕ) (o : Option Store) : Type 0 where
    pub store : Store
    pub returned : o ≡ some store
    pub intact : IsIntact n store

  module _ (n m c d : ℕ) (t : Store) where
    -- A change of the lists is completed by the change of weight that it makes.
    pub settled :
        k.is_container c ≡ true
        → Rooted t.parent t.itemlist m c
        → ((i : ℕ) → Rooted t.parent t.itemlist n i)
        → Typed k t.parent
        → ((j : ℕ) → t.total_weight j < word)
        → ((j : ℕ) → (t.total_weight j + (if c == j then d else 0)) % word ≡ load k t j % word)
        → Leaves n (update_item_weight m c d t)
    settled h r all ty fit bal =
        let u =
          update_item_weight-Reweighed k m c d t (λ j. if c == j then d else 0) (λ j. 0) r h ty
            (λ j. omega (arith, bal j)) in
        record {
          store = record t { total_weight = u.weights };
          returned = u.runs;
          intact = record {
            rooted = all;
            typed = ty;
            weighs = λ j. omega (arith, u.balanced j, u.fits fit j);
          };
        }

  module _ (n : ℕ) (s : Store) (sound : IsIntact n s) where
    pub total_fits : (j : ℕ) → s.total_weight j < word
    total_fits j = omega (arith, sound.weighs j)

    pub IsIntact-up : (m : ℕ) → n ≤ m → IsIntact m s
    IsIntact-up m h = record {
      rooted = λ i. Rooted_up s.parent s.itemlist n i m (sound.rooted i) h;
      typed = sound.typed;
      weighs = sound.weighs;
    }

    pub unchanged : Leaves (n + n) (some s)
    unchanged = record { store = s; returned = refl; intact = IsIntact-up (n + n) (omega arith) }
