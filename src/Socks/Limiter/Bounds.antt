-- ===== src/Socks/Limiter/Bounds.antt =====
-- The limiter's invariant: its counts add up and stay within the limits.
use spaceship.Base.{
  ℕ, ◌+◌, ◌-◌, ◌≤◌, ◌<◌, false, Option, none, some, ◌≡◌, refl, arith, Bytes, same, same_iff,
  same_refl, lookup, insert, IsMap, if◌then◌else◌, lookup-insert, lookup-remove, insert-IsMap,
  remove-IsMap, ◌≢◌, Bool-cases, inl, inr, leb, ◌||◌,
}
use spaceship.Socks.Limiter.Sums.{sum, sum-insert, sum-remove, count-le-sum}
use spaceship.Socks.Limiter.{
  Limiter, new_udp_resource_limiter, total_full, client_full, raise, lower, acquire, release, count,
}

pub record IsValid (l : Limiter) : Type 0 where
  pub is_map : IsMap l.by_client
  pub counted : l.total ≡ sum l.by_client
  pub no_zero : (c : Bytes) → lookup c l.by_client ≢ some 0
  pub total_bound : 0 < l.max_total → l.total ≤ l.max_total
  pub client_bound : 0 < l.max_per_client → (c : Bytes) → count l c ≤ l.max_per_client

abbrev pub AllValid : Option Limiter → Type 0
AllValid none = Unit
AllValid (some l) = IsValid l

pub new-IsValid : (t p : ℕ) → IsValid (new_udp_resource_limiter t p)
unfolding new_udp_resource_limiter sum lookup
new-IsValid t p = record {
  is_map = tt;
  counted = refl;
  no_zero = λ c. ground arith;
  total_bound = λ _. omega arith;
  client_bound = λ _ c. omega arith;
}

pub count-raise :
    (l : Limiter) (client c : Bytes)
    → count (raise l client) c ≡ (if same client c then count l c + 1 else count l c)
unfolding raise
count-raise l client c =
    ground (arith, lookup-insert client c (count l client + 1) l.by_client, same_iff client c)

pub count-lower :
    (l : Limiter) (client c : Bytes)
    → count (lower l client) c ≡ (if same client c then count l c - 1 else count l c)
unfolding lower
count-lower l client c =
    let v = count l client - 1 in
    let m = insert client v l.by_client in
    ground (
      arith,
      lookup-insert client c v l.by_client,
      lookup-insert client client v l.by_client,
      lookup-remove client c m,
      same_refl client,
      same_iff client c,
    )

raise-IsValid :
    (l : Limiter) (client : Bytes)
    → total_full l ≡ false
    → client_full l client ≡ false
    → IsValid l
    → IsValid (raise l client)
unfolding raise
raise-IsValid l client open_total open_client v = record {
  is_map = insert-IsMap client (count l client + 1) l.by_client v.is_map;
  counted = omega (arith, sum-insert client (count l client + 1) l.by_client, v.counted);
  no_zero =
      λ c. ground (arith, lookup-insert client c (count l client + 1) l.by_client, v.no_zero c);
  total_bound = ground arith;
  client_bound =
      λ h c. ground (arith, count-raise l client c, same_iff client c, v.client_bound h c);
}

lower-IsValid :
    (l : Limiter) (client : Bytes) → 0 < count l client → IsValid l → IsValid (lower l client)
unfolding lower
lower-IsValid l client held v =
    let w = count l client - 1 in
    let m = insert client w l.by_client in
    record {
      is_map = ground (
        arith,
        insert-IsMap client w l.by_client v.is_map,
        remove-IsMap client m (insert-IsMap client w l.by_client v.is_map),
      );
      counted = ground (
        arith,
        sum-insert client w l.by_client,
        sum-remove client m (insert-IsMap client w l.by_client v.is_map),
        v.counted,
      );
      no_zero = λ c. ground (
        arith,
        lookup-insert client c w l.by_client,
        lookup-insert client client w l.by_client,
        lookup-remove client c m,
        same_refl client,
        v.no_zero c,
      );
      total_bound = ground arith;
      client_bound =
          λ h c. ground (arith, count-lower l client c, same_iff client c, v.client_bound h c);
    }

-- `acquire` keeps the invariant: total is the sum of the counts, and neither exceeds its limit.
pub acquire-IsValid :
    (l : Limiter) (client : Bytes) → IsValid l → AllValid (acquire (some l) client).0
unfolding acquire
acquire-IsValid l client v = elim (Bool-cases (total_full l)) [
  | inl e ↦ rw e v
  | inr e ↦ elim (Bool-cases (client_full l client)) [
    | inl f ↦ rw (e, f) v
    | inr f ↦ rw (e, f) (raise-IsValid l client e f v)
  ]
]

-- `release` keeps the invariant, also for a client that holds nothing.
pub release-IsValid :
    (l : Limiter) (client : Bytes) → IsValid l → AllValid (release (some l) client)
unfolding release
release-IsValid l client v = elim (Bool-cases (leb (count l client) 0 || leb l.total 0)) [
  | inl e ↦ rw e v
  | inr e ↦ rw e (lower-IsValid l client (ground arith) v)
]

pub release_counted :
    (l : Limiter) (c : Bytes) → IsValid l → 0 < count l c → release (some l) c ≡ some (lower l c)
unfolding release
release_counted l c v held = ground (arith, count-le-sum c l.by_client, v.counted)
