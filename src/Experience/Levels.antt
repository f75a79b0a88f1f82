-- ===== src/Experience/Levels.antt =====
-- The loops over the levels end, at the right level (src/player.cpp).
use infernum_data_pack.Base.{
  ℕ, zero, suc, ◌+◌, ◌%◌, ◌^◌, ◌≤◌, ◌<◌, ◌≡◌, ◌⊎◌, inl, inr, refl, sym, ap, subst, ◌∙◌, some, ◌==◌,
  ◌&&◌, ◌||◌, ltb, leb, arith, Bool-cases, lt→ltb,
}
use infernum_data_pack.Experience.{
  get_exp_for_level, Vocation, Player, Climb, next_level, advance, climb, finish, finished,
  add_experience, descend, remove_experience,
}

-- The experience does not suffice for the next level, or there is none.
unfoldable pub Settled : Player → Type 0
Settled p =
    (p.experience < get_exp_for_level (next_level p))
    ⊎ (get_exp_for_level (next_level p) ≤ get_exp_for_level p.level)

-- The player keeps the level, or the experience suffices for the new one.
unfoldable pub Deserved : ℕ → Player → Type 0
Deserved level q = (q.level ≡ level) ⊎ (get_exp_for_level q.level ≤ q.experience)

-- The loop's variables belong to the player's level.
record Tracks (c : Climb) : Type 0 where
  curr : c.curr_level_exp ≡ get_exp_for_level c.player.level
  next : c.next_level_exp ≡ get_exp_for_level (next_level c.player)

abbrev up : Vocation → Climb → Climb
up v c = record {
  player = advance v c.player;
  curr_level_exp = c.next_level_exp;
  next_level_exp = get_exp_for_level (next_level (advance v c.player));
}

-- A step up is taken when the experience suffices for the next level.
Deserved-up :
    (v : Vocation) (c : Climb)
    → Tracks c
    → c.next_level_exp ≤ c.player.experience
    → (q : Player) → Deserved (up v c).player.level q
    → q.experience ≡ c.player.experience
    → Deserved c.player.level q
unfolding Deserved advance
Deserved-up v c t h q (inl e) same =
    inr (
      subst (λ k. k ≤ q.experience) (t.next ∙ ap get_exp_for_level (sym e))
        (omega (arith, h, same)))
Deserved-up v c t h q (inr e) same = inr e

-- Fuel for as many levels as there are points of experience above the next level is enough.
climb_settles :
    (n : ℕ) (v : Vocation) (c : Climb)
    → Tracks c
    → c.player.experience < c.next_level_exp + n
    → (d : Climb) × (climb (suc n) v c ≡ some d)
      × Settled d.player
      × Tracks d
      × (d.player.experience ≡ c.player.experience)
      × Deserved c.player.level d.player
unfolding climb Settled Deserved advance
climb_settles zero v c t h =
    let e : c.player.experience < c.next_level_exp = omega (arith, h) in
    (
      c,
      simp (lt→ltb _ _ e) refl,
      inl (subst (λ k. c.player.experience < k) t.next e),
      t,
      refl,
      inl refl,
    )
climb_settles (suc n) v c t h = elim (Bool-cases (ltb c.player.experience c.next_level_exp)) [
  | inl e ↦ (
    c,
    simp e refl,
    inl (subst (λ k. c.player.experience < k) t.next (ground (arith, e))),
    t,
    refl,
    inl refl,
  )
  | inr e ↦ elim (Bool-cases (leb (up v c).next_level_exp c.next_level_exp)) [
    | inl f ↦ (
      up v c,
      simp (e, f) refl,
      inr (subst (λ k. (up v c).next_level_exp ≤ k) t.next (ground (arith, f))),
      record { curr = t.next; next = refl },
      refl,
      Deserved-up v c t (ground (arith, e)) (up v c).player (inl refl) refl,
    )
    | inr f ↦
        (let r =
            climb_settles n v (up v c) (record { curr = t.next; next = refl })
              (ground (arith, h, f)) in
          (
            r.0,
            simp (e, f) r.1,
            r.2,
            r.3,
            r.4,
            Deserved-up v c t (ground (arith, e)) r.0.player r.5 r.4,
          ))
  ]
]

finish-Settled : (prev : ℕ) (c : Climb) → Settled c.player → Settled (finish prev c)
unfolding finish Settled
finish-Settled prev c h = elim (Bool-cases (prev == c.player.level)) [
  | inl e ↦ simp e h
  | inr e ↦ simp e h
]

finish-Deserved :
    (prev level : ℕ) (c : Climb) → Deserved level c.player → Deserved level (finish prev c)
unfolding finish Deserved
finish-Deserved prev level c h = elim (Bool-cases (prev == c.player.level)) [
  | inl e ↦ simp e h
  | inr e ↦ simp e h
]

-- `addExperience` returns, however much is gained and whatever the levels need, and leaves the player on
-- a level for which two things hold: the experience does not suffice for the next one, or the next one needs
-- no more than the present one, which is how the code knows the highest level; and the experience suffices
-- for the level, or it is the level that the player had. The first of them held of the player before.
pub add_experience-Settled :
    (v : Vocation) (bonus gains : ℕ → ℕ) (exp : ℕ) (p : Player)
    → Settled p
    → (q : Player) × (add_experience v bonus gains exp p ≡ some q) × Settled q × Deserved p.level q
unfolding add_experience Settled Deserved
add_experience-Settled v bonus gains exp p h =
    let gained = gains ((exp + bonus exp) % 2 ^ 64) % 2 ^ 64 in
    let total = (p.experience + gained) % 2 ^ 64 in
    let start : Climb = record {
      player = record p { experience = total };
      curr_level_exp = get_exp_for_level p.level;
      next_level_exp = get_exp_for_level (next_level p);
    } in
    elim (Bool-cases (leb (get_exp_for_level (next_level p)) (get_exp_for_level p.level))) [
      | inl a ↦ (record p { level_percent = 0 }, simp a refl, inr (ground (arith, a)), inl refl)
      | inr a ↦ elim (Bool-cases (gained == 0)) [
        | inl b ↦ (p, simp (a, b) refl, h, inl refl)
        | inr b ↦
            (let r =
                climb_settles (suc total) v start (record { curr = refl; next = refl })
                  (omega arith) in
              (
                finish p.level r.0,
                simp (a, b) (ap (finished p.level) r.1),
                finish-Settled p.level r.0 r.2,
                finish-Deserved p.level p.level r.0 r.5,
              ))
      ]
    ]

-- The experience suffices for the level, unless it is the first.
unfoldable pub Earned : Player → Type 0
Earned p = (p.level ≤ 1) ⊎ (get_exp_for_level p.level ≤ p.experience)

descend-Earned : (n : ℕ) (v : Vocation) (p : Player) → p.level ≤ n → Earned (descend n v p)
unfolding descend Earned
descend-Earned zero v p h = inl (omega (arith, h))
descend-Earned (suc n) v p h =
    elim (Bool-cases (ltb 1 p.level && ltb p.experience (get_exp_for_level p.level))) [
      | inl e ↦ simp e (descend-Earned n v _ (ground (arith, h, e)))
      | inr e ↦ simp e (ground (arith, e))
    ]

finish-Earned : (prev : ℕ) (c : Climb) → Earned c.player → Earned (finish prev c)
unfolding finish Earned
finish-Earned prev c h = elim (Bool-cases (prev == c.player.level)) [
  | inl e ↦ simp e h
  | inr e ↦ simp e h
]

-- `removeExperience` takes the player down to a level that the experience left suffices for, or to the
-- first, if it was so before.
pub remove_experience-Earned :
    (v : Vocation) (loses : ℕ → ℕ) (exp : ℕ) (p : Player)
    → Earned p
    → Earned (remove_experience v loses exp p)
unfolding remove_experience
remove_experience-Earned v loses exp p h = elim (Bool-cases (p.experience == 0 || exp == 0)) [
  | inl a ↦ simp a h
  | inr a ↦ elim (Bool-cases (loses exp % 2 ^ 64 == 0)) [
    | inl b ↦ simp (a, b) h
    | inr b ↦ simp (a, b) (finish-Earned p.level _ (descend-Earned p.level v _ (omega arith)))
  ]
]
