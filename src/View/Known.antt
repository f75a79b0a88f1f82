-- ===== src/View/Known.antt =====
-- The creatures that a client knows (src/protocolgame.cpp).
use infernum_data_pack.Base.{
  some_injective, ℕ, ◌+◌, ◌≤◌, ◌<◌, ◌≡◌, ◌≢◌, refl, sym, ap, ◌∙◌, Bool, true, false, not, List, [],
  ◌∷◌, some, length, ◌==◌, ◌&&◌, ltb, if◌then◌else◌, arith, Bool-cases, Option-cases, inl, inr,
  ==→eq, ==_self,
}
use infernum_data_pack.View.{
  known_creature_limit, is_known, find_unseen, find_other, forget, KnownCheck,
  check_creature_as_known,
}

-- No creature stands in the set twice.
unfoldable pub distinct : List ℕ → Bool
distinct [] = true
distinct (i ∷ is) = not (is_known i is) && distinct is

distinct_parts :
    (i : ℕ) (is : List ℕ)
    → distinct (i ∷ is) ≡ true
    → (is_known i is ≡ false) × (distinct is ≡ true)
unfolding distinct
distinct_parts i is h = both (is_known i is) (distinct is) h
  where
    both : (a b : Bool) → (not a && b) ≡ true → (a ≡ false) × (b ≡ true)
    both a b h = (ground (arith, h), ground (arith, h))

first_absent :
    (i j : ℕ) (is : List ℕ) → distinct (i ∷ is) ≡ true → (i == j) ≡ true → is_known j is ≡ false
first_absent i j is h e = ap (λ k. is_known k is) (sym (==→eq i j e)) ∙ (distinct_parts i is h).0

forget_lem :
    (r j : ℕ) (is : List ℕ)
    → distinct is ≡ true
    → is_known j (forget r is) ≡ (if r == j then false else is_known j is)
unfolding is_known forget distinct
forget_lem r j [] h = ground arith
forget_lem r j (i ∷ is) h = elim (Bool-cases (i == r)) [
  | inl e ↦ simp e (elim (Bool-cases (i == j)) [
    | inl f ↦ rw (first_absent i j is h f) (ground (arith, e, f))
    | inr f ↦ ground (arith, e, f)
  ])
  | inr e ↦ simp e (rw (forget_lem r j is (distinct_parts i is h).1) (ground (arith, e)))
]

length-forget : (r : ℕ) (is : List ℕ) → is_known r is ≡ true → length (forget r is) + 1 ≡ length is
unfolding is_known forget
length-forget r [] h = ground arith
length-forget r (i ∷ is) h = elim (Bool-cases (i == r)) [
  | inl e ↦ simp e (omega arith)
  | inr e ↦ simp e (omega (arith, length-forget r is (simp e at h)))
]

forget-distinct : (r : ℕ) (is : List ℕ) → distinct is ≡ true → distinct (forget r is) ≡ true
unfolding distinct forget
forget-distinct r [] h = refl
forget-distinct r (i ∷ is) h = elim (Bool-cases (i == r)) [
  | inl e ↦ simp e (distinct_parts i is h).1
  | inr e ↦ simp e (
      rw
        (
          forget_lem r i is (distinct_parts i is h).1,
          (distinct_parts i is h).0,
          forget-distinct r is (distinct_parts i is h).1,
        )
        (ground arith))
]

find_unseen_lem :
    (sees : ℕ → Bool) (is : List ℕ) (r : ℕ)
    → find_unseen sees is ≡ some r
    → (sees r ≡ false) × (is_known r is ≡ true)
unfolding find_unseen is_known
find_unseen_lem sees [] r h = ground arith
find_unseen_lem sees (i ∷ is) r h = elim (Bool-cases (sees i)) [
  | inl e ↦ same_or_known (find_unseen_lem sees is r (simp e at h))
  | inr e ↦ found e (some_injective (simp e at h))
]
  where
    same_or_known :
        (sees r ≡ false) × (is_known r is ≡ true) → (sees r ≡ false) × (is_known r (i ∷ is) ≡ true)
    same_or_known (a, b) = (a, rw b (ground arith))

    found : sees i ≡ false → i ≡ r → (sees r ≡ false) × (is_known r (i ∷ is) ≡ true)
    found e q = (ap sees (sym q) ∙ e, rw q (ground arith))

find_other_lem :
    (id : ℕ) (is : List ℕ)
    → is_known id is ≡ false
    → 0 < length is
    → (find_other id (id ∷ is) ≢ id) × (is_known (find_other id (id ∷ is)) (id ∷ is) ≡ true)
unfolding find_other is_known
find_other_lem id [] h k = absurd (omega arith)
find_other_lem id (i ∷ is) h k =
    let other : (i == id) ≡ false = ground (arith, h) in
    simp (==_self id, other) ((λ e. ground (arith, e, other)), simp (==_self i) (ground arith))

-- The set when a creature had to go.
record Full (sees : ℕ → Bool) (id : ℕ) (set : List ℕ) : Type 0 where
  gone : ℕ
  other : sees id ≡ true → gone ≢ id
  member : is_known gone (id ∷ set) ≡ true
  result :
      check_creature_as_known sees id set
      ≡ record { known_creature_set = forget gone (id ∷ set); known = false; removed_known = gone }

full :
    (sees : ℕ → Bool) (id : ℕ) (set : List ℕ)
    → is_known id set ≡ false
    → ltb known_creature_limit (length (id ∷ set)) ≡ true
    → Full sees id set
unfolding check_creature_as_known
full sees id set h k = elim (Option-cases (find_unseen sees (id ∷ set))) [
  | inl e ↦ record {
    gone = find_other id (id ∷ set);
    other = λ s. (find_other_lem id set h (ground (arith, k))).0;
    member = (find_other_lem id set h (ground (arith, k))).1;
    result = simp (h, k, e) refl;
  }
  | inr (r, e) ↦ record {
    gone = r;
    other = λ s q. ground (arith, s, ap sees (sym q) ∙ (find_unseen_lem sees (id ∷ set) r e).0);
    member = (find_unseen_lem sees (id ∷ set) r e).1;
    result = simp (h, k, e) refl;
  }
]

not_full :
    (sees : ℕ → Bool) (id : ℕ) (set : List ℕ)
    → is_known id set ≡ false
    → ltb known_creature_limit (length (id ∷ set)) ≡ false
    → check_creature_as_known sees id set
      ≡ record { known_creature_set = id ∷ set; known = false; removed_known = 0 }
unfolding check_creature_as_known
not_full sees id set h k = simp (h, k) refl

already :
    (sees : ℕ → Bool) (id : ℕ) (set : List ℕ)
    → is_known id set ≡ true
    → check_creature_as_known sees id set
      ≡ record { known_creature_set = set; known = true; removed_known = 0 }
unfolding check_creature_as_known
already sees id set h = simp h refl

-- What holds of the set between two calls.
pub record KnownSet (set : List ℕ) : Type 0 where
  pub once : distinct set ≡ true
  pub size : length set ≤ known_creature_limit
  pub no_zero : is_known 0 set ≡ false

-- What a client does on the answer: it drops the removed creature and then takes the new one in.
pub client_knows : KnownCheck → ℕ → (ℕ → Bool) → ℕ → Bool
client_knows c id before j =
    if c.known
    then before j
    else if id == j
    then true
    else if c.removed_known == j
    then false
    else before j

grown-distinct :
    (id : ℕ) (set : List ℕ)
    → is_known id set ≡ false
    → distinct set ≡ true
    → distinct (id ∷ set) ≡ true
unfolding distinct
grown-distinct id set h k = rw (h, k) refl

zero_absent :
    (id : ℕ) (set : List ℕ) → id ≢ 0 → is_known 0 set ≡ false → is_known 0 (id ∷ set) ≡ false
unfolding is_known
zero_absent id set n h = ground (arith, h, n)

still_small :
    (r id : ℕ) (set : List ℕ)
    → length set ≤ known_creature_limit
    → length (forget r (id ∷ set)) + 1 ≡ length (id ∷ set)
    → length (forget r (id ∷ set)) ≤ known_creature_limit
still_small r id set h e = omega arith

never : (a b : Bool) → b ≡ false → (if a then false else b) ≡ false
never a b h = ground (arith, h)

-- A client that follows the answers knows exactly the creatures of the server's set, also when the set is
-- full and one is dropped. The set is as it stands between two calls, and the player sees the creature.
pub check_creature_as_known-client_knows :
    (sees : ℕ → Bool) (id : ℕ) (set : List ℕ)
    → KnownSet set
    → sees id ≡ true
    → (j : ℕ)
    → (let c = check_creature_as_known sees id set in
        is_known j c.known_creature_set ≡ client_knows c id (λ i. is_known i set) j)
unfolding client_knows is_known
check_creature_as_known-client_knows sees id set h s j = elim (Bool-cases (is_known id set)) [
  | inl e ↦ rw (already sees id set e) refl
  | inr e ↦ elim (Bool-cases (ltb known_creature_limit (length (id ∷ set)))) [
    | inl k ↦
        (let f = full sees id set e k in
          rw (f.result, forget_lem f.gone j (id ∷ set) (grown-distinct id set e h.once))
            (ground (arith, f.other s)))
    | inr k ↦ rw (not_full sees id set e k) (elim (Bool-cases (0 == j)) [
      | inl q ↦ rw (ap (λ l. is_known l set) (sym (==→eq 0 j q)) ∙ h.no_zero) (ground (arith, q))
      | inr q ↦ ground (arith, q)
    ])
  ]
]

-- The set never holds more than 1300 creatures, nor one twice, nor the number 0, which means that none was
-- removed. The creature's number is not 0.
pub check_creature_as_known-KnownSet :
    (sees : ℕ → Bool) (id : ℕ) (set : List ℕ)
    → KnownSet set
    → id ≢ 0
    → KnownSet ((check_creature_as_known sees id set).known_creature_set)
check_creature_as_known-KnownSet sees id set h n = elim (Bool-cases (is_known id set)) [
  | inl e ↦ rw (already sees id set e) h
  | inr e ↦ elim (Bool-cases (ltb known_creature_limit (length (id ∷ set)))) [
    | inl k ↦
        (let f = full sees id set e k in
          rw f.result (record {
            once = forget-distinct f.gone (id ∷ set) (grown-distinct id set e h.once);
            size = still_small f.gone id set h.size (length-forget f.gone (id ∷ set) f.member);
            no_zero =
                forget_lem f.gone 0 (id ∷ set) (grown-distinct id set e h.once)
                ∙ never (f.gone == 0) (is_known 0 (id ∷ set)) (zero_absent id set n h.no_zero);
          }))
    | inr k ↦ rw (not_full sees id set e k) (record {
      once = grown-distinct id set e h.once;
      size = ground (arith, k);
      no_zero = zero_absent id set n h.no_zero;
    })
  ]
]
