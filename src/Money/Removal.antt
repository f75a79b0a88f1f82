-- ===== src/Money/Removal.antt =====
-- What `removeMoney` returns and does (src/game.cpp).
use infernum_data_pack.Base.{
  ℕ, zero, suc, ◌+◌, ◌≤◌, ◌<◌, ◌≡◌, refl, ◌∙◌, true, false, List, [], ◌∷◌, All, Option, some, ◌==◌,
  ltb, if◌then◌else◌, arith, Bool-cases, inl, inr, lt→ltb, ==→eq,
}
use infernum_data_pack.Containers.{Kinds, Store, Thing}
use infernum_data_pack.Containers.Sums.{sum_of, times}
use infernum_data_pack.Containers.Nesting.{is_inside}
use infernum_data_pack.Containers.Intact.{IsIntact}
use infernum_data_pack.Containers.Under.{under, under_all, under_nothing}
use infernum_data_pack.Money.{
  long_word, Call, Search, find_items, find_inside, pay, pay_found, remove_money,
}
use infernum_data_pack.Money.Once.{
  is_item, removals, entries_of, removals-pay, total-le, occurs_once,
}
use infernum_data_pack.Money.Paying.{IsFair, Pays, taken, sum_of_entries, pay-Pays}
use infernum_data_pack.Money.Finding.{
  items_of, own_entry, own_entry-is_item, entries_of-find_items, own_worth, one_container,
  things_items, IsFound, find_items-IsFound, find_items_sum, find_items_containers,
}
use infernum_data_pack.Money.Change.{given}

module _ (k : Kinds) (s : Store) (n : ℕ) (intact : IsIntact k n s) where
  -- The containers to look into from a container on, it included.
  abbrev rounds : ℕ → ℕ
  rounds c = 1 + under s n (one_container k s) c

  counted_in :
      (f h : ℕ → ℕ)
      → ((x : ℕ) → (if k.is_container x then h x else 0) ≡ f x + under s n f x)
      → (xs : List ℕ)
      → sum_of (λ x. if k.is_container x then h x else 0) xs ≡ sum_of (λ x. f x + under s n f x) xs
  unfolding sum_of
  counted_in f h e [] = refl
  counted_in f h e (x ∷ xs) = omega (arith, e x, counted_in f h e xs)

  rounds_of :
      (x : ℕ)
      → (if k.is_container x then rounds x else 0)
        ≡ one_container k s x + under s n (one_container k s) x
  rounds_of x = elim (Bool-cases (k.is_container x)) [
    | inl e ↦ simp e refl
    | inr e ↦ simp e (omega (arith, under_nothing s k n intact (one_container k s) n x e))
  ]

  kept_inside :
      (f : ℕ → ℕ) (x : ℕ) → (if k.is_container x then under s n f x else 0) ≡ under s n f x
  kept_inside f x = elim (Bool-cases (k.is_container x)) [
    | inl e ↦ simp e refl
    | inr e ↦ simp e (omega (arith, under_nothing s k n intact f n x e))
  ]

  found_sum :
      (f : ℕ → ℕ) (xs : List ℕ)
      → sum_of f xs + sum_of (λ x. if k.is_container x then under s n f x else 0) xs
        ≡ sum_of (λ x. f x + under s n f x) xs
  unfolding sum_of
  found_sum f [] = omega arith
  found_sum f (x ∷ xs) = omega (arith, kept_inside f x, found_sum f xs)

  -- The loop over the containers ended with all coins that lie in them.
  record Found (m total : ℕ) (cs : List ℕ) (a : Search) : Type 0 where
    search : Search
    ends : find_inside k s m cs a ≡ some search
    found : IsFound k s search
    sums : sum_of_entries s k search.money_map ≡ total
    entered :
        (y : ℕ)
        → entries_of y search.money_map
          ≡ entries_of y a.money_map + sum_of (under s n (own_entry k s y)) cs

  find_inside-Found :
      (m total : ℕ) (cs : List ℕ) (a : Search)
      → IsFound k s a
      → sum_of rounds cs ≤ m
      → sum_of_entries s k a.money_map + sum_of (under s n (own_worth k s)) cs ≡ total
      → Found m total cs a
  unfolding find_inside sum_of
  find_inside-Found m total [] a f h e = record {
    search = a;
    ends = refl;
    found = f;
    sums = omega (arith, e);
    entered = λ y. omega arith;
  }
  find_inside-Found zero total (c ∷ cs) a f h e = absurd (omega arith)
  find_inside-Found (suc m) total (c ∷ cs) a f h e =
      let before = record a { containers = cs } in
      let b = find_items k s (s.itemlist c) before in
      let r =
        find_inside-Found m total b.containers b
          (find_items-IsFound k s (s.itemlist c) before
            (record { entries = f.entries; counted = f.counted }))
          (omega (
            arith,
            h,
            find_items_containers k s rounds (s.itemlist c) before,
            counted_in (one_container k s) rounds rounds_of (s.itemlist c),
            under_all s k n intact (one_container k s) c,
          ))
          (omega (
            arith,
            e,
            find_items_sum k s (s.itemlist c) before,
            find_items_containers k s (under s n (own_worth k s)) (s.itemlist c) before,
            found_sum (own_worth k s) (s.itemlist c),
            under_all s k n intact (own_worth k s) c,
          )) in
      record {
        search = r.search;
        ends = r.ends;
        found = r.found;
        sums = r.sums;
        entered = λ y. omega (
          arith,
          r.entered y,
          entries_of-find_items k s y (s.itemlist c) before,
          find_items_containers k s (under s n (own_entry k s y)) (s.itemlist c) before,
          found_sum (own_entry k s y) (s.itemlist c),
          under_all s k n intact (own_entry k s y) c,
        );
      }

  -- The money that things hold, at any depth, and the containers among and in them.
  abbrev pub fortune : List (Option Thing) → ℕ
  fortune things = sum_of (λ x. own_worth k s x + under s n (own_worth k s) x) (items_of things)

  abbrev pub containers_in : List (Option Thing) → ℕ
  containers_in things =
      sum_of (λ x. one_container k s x + under s n (one_container k s) x) (items_of things)

  abbrev nothing_yet : Search
  nothing_yet = record { containers = []; money_map = []; money_count = 0 }

  nothing-IsFound : IsFound k s nothing_yet
  unfolding sum_of_entries
  nothing-IsFound = record { entries = tt; counted = refl }

  module _ (things : List (Option Thing)) (m : ℕ) (enough : containers_in things ≤ m) where
    abbrev first : Search
    first = find_items k s (items_of things) nothing_yet

    first-Found : Found m (fortune things) first.containers first
    unfolding sum_of sum_of_entries
    first-Found =
        find_inside-Found m (fortune things) first.containers first
          (find_items-IsFound k s (items_of things) nothing_yet nothing-IsFound)
          (omega (
            arith,
            enough,
            find_items_containers k s rounds (items_of things) nothing_yet,
            counted_in (one_container k s) rounds rounds_of (items_of things),
          ))
          (omega (
            arith,
            find_items_sum k s (items_of things) nothing_yet,
            find_items_containers k s (under s n (own_worth k s)) (items_of things) nothing_yet,
            found_sum (own_worth k s) (items_of things),
          ))

    module _ (single : (y : ℕ) → times y (items_of things) ≤ 1)
        (out : (y : ℕ) → is_inside (s.parent y) ≡ true → times y (items_of things) ≡ 0) where
      -- No item is found twice.
      found_once : (y : ℕ) → entries_of y first-Found.search.money_map ≤ 1
      unfolding sum_of entries_of
      found_once y = omega (
        arith,
        first-Found.entered y,
        entries_of-find_items k s y (items_of things) nothing_yet,
        find_items_containers k s (under s n (own_entry k s y)) (items_of things) nothing_yet,
        found_sum (own_entry k s y) (items_of things),
        total-le s (own_entry k s y) (is_item y) n (items_of things) (own_entry-is_item k s y),
        occurs_once s k n intact (items_of things) single out y,
      )

    module _ (money : ℕ) (fits : fortune things < long_word) where
      remove_money_found :
          (money == 0) ≡ false
          → remove_money k s m things money ≡ pay_found k s money (some first-Found.search)
      unfolding remove_money
      remove_money_found e = simp (e, things_items k s things nothing_yet, first-Found.ends) refl

      money_counted : first-Found.search.money_count ≡ fortune things
      money_counted = omega (arith, first-Found.found.counted, first-Found.sums, fits)

      -- When less than the money is there, nothing is taken.
      too_little : fortune things < money → remove_money k s m things money ≡ some (false, [])
      unfolding pay_found
      too_little h =
          remove_money_found (ground (arith, h))
          ∙ simp (lt→ltb first-Found.search.money_count money (omega (arith, h, money_counted)))
              refl

      not_less : {c f : ℕ} → money ≤ f → c ≡ f → ltb c money ≡ false
      not_less h e = ground (arith, h, e)

      no_money : (money == 0) ≡ true → remove_money k s m things money ≡ some (true, [])
      unfolding remove_money
      no_money e = simp e refl

      nothing_paid : money ≡ 0 → taken s [] ≡ money + given []
      unfolding taken given
      nothing_paid e = omega arith

      nothing_removed : (y : ℕ) → removals y [] ≤ 1
      unfolding removals
      nothing_removed y = omega arith

      -- `removeMoney` takes nothing when the things hold less than the money, at any depth. Otherwise it
      -- takes the money and what it gives back: each call takes from a stack no more than there is, and no
      -- stack is taken from twice. No item is listed twice among the things, and none of them lies in a
      -- container; they are worth less than 2^64.
      pub remove_money-Pays :
          ((y : ℕ) → times y (items_of things) ≤ 1)
          → ((y : ℕ) → is_inside (s.parent y) ≡ true → times y (items_of things) ≡ 0)
          → (fortune things < money → remove_money k s m things money ≡ some (false, []))
            × (money ≤ fortune things
                → (calls : List Call) × (remove_money k s m things money ≡ some (true, calls))
                  × (taken s calls ≡ money + given calls)
                  × All (IsFair s) calls
                  × ((y : ℕ) → removals y calls ≤ 1))
      unfolding pay_found Pays
      remove_money-Pays single out = (
        too_little,
        λ h. elim (Bool-cases (money == 0)) [
          | inl e ↦ ([], no_money e, nothing_paid (==→eq money 0 e), tt, nothing_removed)
          | inr e ↦
              (let paid =
                  pay-Pays s k first-Found.search.money_map money first-Found.found.entries
                    (ground (arith, e)) (omega (arith, h, first-Found.sums)) in
                (
                  pay k s first-Found.search.money_map money,
                  remove_money_found e ∙ simp (not_less h money_counted) refl,
                  paid.0,
                  paid.1,
                  λ y. omega (
                    arith,
                    removals-pay k s y first-Found.search.money_map money,
                    found_once single out y,
                  ),
                ))
        ],
      )
