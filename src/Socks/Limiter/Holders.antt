-- ===== src/Socks/Limiter/Holders.antt =====
-- The limiter against the list of grants that its callers hold: it is a bounded multiset.
use spaceship.Base.{
  ℕ, ◌+◌, ◌-◌, ◌<◌, true, List, [], ◌∷◌, Option, none, some, ◌≡◌, refl, arith, Bytes, same,
  same_iff, if◌then◌else◌, ◌↔◌, length, lookup, Bool-cases, inl, inr, ◌==◌,
}
use spaceship.Socks.Limiter.Bounds.{
  IsValid, release_counted, acquire-IsValid, release-IsValid, count-raise, count-lower, new-IsValid,
}
use spaceship.Socks.Limiter.{
  Limiter, new_udp_resource_limiter, total_full, client_full, raise, lower, acquire, release, count,
}

-- How often a client stands among the holders.
unfoldable pub occurrences : Bytes → List Bytes → ℕ
occurrences c [] = 0
occurrences c (h ∷ hs) = (if same h c then 1 else 0) + occurrences c hs

-- One grant of the client is given back.
unfoldable pub drop_one : Bytes → List Bytes → List Bytes
drop_one c [] = []
drop_one c (h ∷ hs) = if same h c then hs else h ∷ drop_one c hs

pub record Tracks (l : Limiter) (hs : List Bytes) : Type 0 where
  pub valid : IsValid l
  pub total : l.total ≡ length hs
  pub counts : (c : Bytes) → count l c ≡ occurrences c hs

pub data Call : Type 0 where
  take_grant give_back : Bytes → Call

-- The callers: a grant is noted when `acquire` returns true, and `release` is called only for a
-- grant that is held, as the source asks of every caller.
unfoldable pub after : Option Limiter × List Bytes → Call → Option Limiter × List Bytes
after (l, hs) (take_grant c) = let r = acquire l c in (r.0, if r.1 then c ∷ hs else hs)
after (l, hs) (give_back c) =
    if occurrences c hs == 0 then (l, hs) else (release l c, drop_one c hs)

unfoldable pub run : Option Limiter × List Bytes → List Call → Option Limiter × List Bytes
run s [] = s
run s (call ∷ calls) = run (after s call) calls

length-drop_one :
    (c : Bytes) (hs : List Bytes) → 0 < occurrences c hs → length (drop_one c hs) + 1 ≡ length hs
unfolding occurrences drop_one
length-drop_one c [] h = omega arith
length-drop_one c (x ∷ xs) h = ground (arith, length-drop_one c xs)

occurrences-drop_one :
    (c d : Bytes) (hs : List Bytes)
    → 0 < occurrences c hs
    → occurrences d (drop_one c hs) ≡ (if same c d then occurrences d hs - 1 else occurrences d hs)
unfolding occurrences drop_one
occurrences-drop_one c d [] h = absurd (omega arith)
occurrences-drop_one c d (x ∷ xs) h =
    ground
      (arith, same_iff c d, same_iff x c, same_iff x d, same_iff c c, occurrences-drop_one c d xs)

pub raised-Tracks :
    (l : Limiter) (hs : List Bytes) (c : Bytes)
    → IsValid (raise l c)
    → Tracks l hs
    → Tracks (raise l c) (c ∷ hs)
unfolding occurrences
raised-Tracks l hs c v t = record {
  valid = v;
  total = unfold raise in omega (arith, t.total);
  counts = λ d. ground (arith, count-raise l c d, t.counts d);
}

lowered-Tracks :
    (l : Limiter) (hs : List Bytes) (c : Bytes)
    → 0 < occurrences c hs
    → IsValid (lower l c)
    → Tracks l hs
    → Tracks (lower l c) (drop_one c hs)
lowered-Tracks l hs c held v t = record {
  valid = v;
  total = unfold lower in omega (arith, t.total, length-drop_one c hs held);
  counts = λ d. ground (arith, count-lower l c d, t.counts d, occurrences-drop_one c d hs held);
}

abbrev pub Agrees : Option Limiter × List Bytes → Type 0
Agrees (none, hs) = ⊥
Agrees (some l, hs) = Tracks l hs

-- For a limiter whose counts are those of a list of holders: `acquire` gives a grant exactly if
-- each positive limit, on the number of holders and on how often the client is among them, leaves
-- room for one more.
pub acquire-granted_iff :
    (l : Limiter) (hs : List Bytes) (c : Bytes)
    → Tracks l hs
    → ((acquire (some l) c).1 ≡ true) ↔ (
        (0 < l.max_total → length hs < l.max_total)
        × (0 < l.max_per_client → occurrences c hs < l.max_per_client))
unfolding acquire
acquire-granted_iff l hs c t = ground (arith, t.total, t.counts c)

release_held :
    (l : Limiter) (hs : List Bytes) (c : Bytes)
    → Tracks l hs
    → 0 < occurrences c hs
    → release (some l) c ≡ some (lower l c)
release_held l hs c t held = release_counted l c t.valid (omega (arith, t.counts c))

after-Agrees :
    (l : Limiter) (hs : List Bytes) (call : Call) → Tracks l hs → Agrees (after (some l, hs) call)
unfolding after
after-Agrees l hs (take_grant c) t =
    let v = acquire-IsValid l c t.valid in
    elim (Bool-cases (total_full l)) [
      | inl e ↦ unfold acquire in rw e t
      | inr e ↦ elim (Bool-cases (client_full l c)) [
        | inl f ↦ unfold acquire in rw (e, f) t
        | inr f ↦
            unfold acquire in rw (e, f) (raised-Tracks l hs c (unfold acquire in rw (e, f) at v) t)
      ]
    ]
after-Agrees l hs (give_back c) t = elim (Bool-cases (occurrences c hs == 0)) [
  | inl e ↦ rw e t
  | inr e ↦
      let held : 0 < occurrences c hs = ground arith in
      let v = rw (release_held l hs c t held) at (release-IsValid l c t.valid) in
      rw (e, release_held l hs c t held) (lowered-Tracks l hs c held v t)
]

of_Agrees :
    (s : Option Limiter × List Bytes)
    → Agrees s
    → (l : Limiter) × (hs : List Bytes) × (s ≡ (some l, hs)) × Tracks l hs
of_Agrees (none, hs) t = absurd t
of_Agrees (some l, hs) t = (l, hs, refl, t)

pub new-Tracks : (t p : ℕ) → Tracks (new_udp_resource_limiter t p) []
unfolding occurrences new_udp_resource_limiter lookup
new-Tracks t p = record { valid = new-IsValid t p; total = refl; counts = λ c. refl }

run-Agrees : (s : Option Limiter × List Bytes) (calls : List Call) → Agrees s → Agrees (run s calls)
unfolding run
run-Agrees s [] t = t
run-Agrees (none, hs) (call ∷ calls) t = absurd t
run-Agrees (some l, hs) (call ∷ calls) t =
    run-Agrees (after (some l, hs) call) calls (after-Agrees l hs call t)

-- From a new limiter, whatever the callers acquire and give back in whatever order: the limiter's
-- total is the number of grants held, its count of each client is the number that client holds,
-- and its invariant holds, so neither exceeds its limit.
pub run-Tracks :
    (max_total max_per_client : ℕ) (calls : List Call)
    → (l : Limiter) × (hs : List Bytes) × (run
          (some (new_udp_resource_limiter max_total max_per_client), [])
          calls
        ≡ (some l, hs))
      × Tracks l hs
run-Tracks max_total max_per_client calls =
    of_Agrees (run (some (new_udp_resource_limiter max_total max_per_client), []) calls) (
      run-Agrees (some (new_udp_resource_limiter max_total max_per_client), []) calls
        (new-Tracks max_total max_per_client))
