-- ===== src/WildcardTree/Find.antt =====
-- What `findOne` of src/wildcardtree.cpp finds.
use infernum_data_pack.Base.{ℕ, ◌≡◌, ◌≢◌, Bool, true, false, List, ◌++◌}
use infernum_data_pack.WildcardTree.{
  WildcardTreeNode, ReturnValue, noerror, player_with_this_name_is_not_online,
  name_is_too_ambiguous,
}
use infernum_data_pack.WildcardTree.Insert.{has}

abbrev is_noerror : ReturnValue → Bool
is_noerror noerror = true
is_noerror _ = false

-- `more` is the only name below the node.
record IsOnly (u : WildcardTreeNode) (more : List ℕ) : Type 0 where
  is_name : has more u ≡ true
  only : (other : List ℕ) → has other u ≡ true → other ≡ more

abbrev is_missing : ReturnValue → Bool
is_missing player_with_this_name_is_not_online = true
is_missing _ = false

-- What an answer says of the names that begin with the query.
unfoldable pub Tells : (List ℕ → Bool) → List ℕ → ReturnValue × List ℕ → Type 0
Tells names query (noerror, name) =
    (names name ≡ true) × ((more : List ℕ) → names (query ++ more) ≡ true → query ++ more ≡ name)
Tells names query (player_with_this_name_is_not_online, result) =
    (more : List ℕ) → names (query ++ more) ≡ false
Tells names query (name_is_too_ambiguous, result) =
    (one : List ℕ) × (other : List ℕ) × (names (query ++ one) ≡ true)
    × (names (query ++ other) ≡ true)
    × (one ≢ other)
