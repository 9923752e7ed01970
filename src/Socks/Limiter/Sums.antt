-- ===== src/Socks/Limiter/Sums.antt =====
-- The sum of a map's counts, under the map operations.
use spaceship.Base.{
  ℕ, ◌+◌, ◌≤◌, List, [], ◌∷◌, ◌≡◌, arith, Bytes, same_iff, lookup, insert, remove, IsMap,
  remove_absent,
}
use spaceship.Socks.Limiter.{count_in}

unfoldable pub sum : List (Bytes × ℕ) → ℕ
sum [] = 0
sum ((k, n) ∷ m) = n + sum m

pub sum-insert :
    (k : Bytes) (v : ℕ) (m : List (Bytes × ℕ)) → sum (insert k v m) + count_in k m ≡ sum m + v
unfolding sum insert lookup
sum-insert k v [] = omega arith
sum-insert k v ((i, w) ∷ m) = ground (arith, sum-insert k v m)

pub sum-remove :
    (k : Bytes) (m : List (Bytes × ℕ)) → IsMap m → sum (remove k m) + count_in k m ≡ sum m
unfolding sum remove lookup
sum-remove k [] d = omega arith
sum-remove k ((i, w) ∷ m) d = ground (arith, same_iff i k, remove_absent k m, sum-remove k m d.1)

pub count-le-sum : (k : Bytes) (m : List (Bytes × ℕ)) → count_in k m ≤ sum m
unfolding sum lookup
count-le-sum k [] = omega arith
count-le-sum k ((i, w) ∷ m) = ground (arith, count-le-sum k m)
