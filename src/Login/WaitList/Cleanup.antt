-- ===== src/Login/WaitList/Cleanup.antt =====
-- What `cleanupList` of src/waitlist.cpp removes.
use infernum_data_pack.Base.{
  ℕ, inl, inr, ◌<◌, ◌≡◌, ◌≢◌, refl, ap, true, List, [], ◌∷◌, All, arith, Bool-cases,
}
use infernum_data_pack.Login.WaitList.{Wait, is_over, cleanup_list}

-- The times are of their types: a `size_t`, and an `int64_t` that is not negative.
abbrev pub IsTimed : Wait → Type 0
IsTimed w = w.timeout < 18446744073709551616

is_over_only :
    (time : ℕ) (w : Wait)
    → IsTimed w
    → time < 9223372036854775808
    → is_over time w ≡ true
    → w.timeout ≡ time
unfolding is_over
is_over_only time w h k e = ground arith

-- An entry whose timeout has passed by a millisecond or more stays in the list: the difference wraps
-- to a large unsigned number. If no timeout is the current millisecond nothing is removed at all,
-- however old the entries are.
pub cleanup_list_keeps :
    (time : ℕ) (ws : List Wait)
    → time < 9223372036854775808
    → All (λ w. IsTimed w × (w.timeout ≢ time)) ws
    → cleanup_list time ws ≡ ws
unfolding cleanup_list
cleanup_list_keeps time [] k h = refl
cleanup_list_keeps time (w ∷ ws) k h = elim (Bool-cases (is_over time w)) [
  | inl e ↦ absurd (h.0.1 (is_over_only time w h.0.0 k e))
  | inr e ↦ rw e (ap (◌∷◌ w) (cleanup_list_keeps time ws k h.1))
]
