-- ===== src/Socks/Relay/Ids.antt =====
-- Lists of entry identities and of goroutines, under the operations of the relay.
use spaceship.Base.{
  ℕ, ◌+◌, ◌≢◌, Bool, true, false, ◌&&◌, List, [], ◌∷◌, ◌≡◌, refl, arith, Bytes, same, same_iff,
  length, ◌==◌, if◌then◌else◌,
}
use spaceship.Socks.Relay.{has, without, leave, Flow}

pub has-without : (i j : ℕ) (l : List ℕ) → has i (without j l) ≡ (if j == i then false else has i l)
unfolding has without
has-without i j [] = ground arith
has-without i j (x ∷ l) = ground (arith, has-without i j l)

abbrev pub Distinct : List ℕ → Type 0
Distinct [] = Unit
Distinct (i ∷ l) = (has i l ≡ false) × Distinct l

pub without-Distinct : (i : ℕ) (l : List ℕ) → Distinct l → Distinct (without i l)
unfolding without
without-Distinct i [] d = tt
without-Distinct i (x ∷ l) d = ground (arith, has-without x i l, without-Distinct i l d.1)

without_absent : (i : ℕ) (l : List ℕ) → has i l ≡ false → without i l ≡ l
unfolding has without
without_absent i [] h = refl
without_absent i (x ∷ l) h = ground (arith, without_absent i l)

pub length-without :
    (i : ℕ) (l : List ℕ) → Distinct l → has i l ≡ true → length (without i l) + 1 ≡ length l
unfolding has without
length-without i [] d h = cc
length-without i (x ∷ l) d h = ground (arith, without_absent i l, length-without i l d.1)

-- A goroutine of the list serves the entry `i`, or serves it under the key `k`.
unfoldable pub serves : ℕ → List Flow → Bool
serves i [] = false
serves i (g ∷ gs) = if g.1.id == i then true else serves i gs

unfoldable pub serves_at : Bytes → ℕ → List Flow → Bool
serves_at k i [] = false
serves_at k i (g ∷ gs) = if same g.0 k && g.1.id == i then true else serves_at k i gs

pub serves-leave :
    (i : ℕ) (f : Flow) (l : List Flow)
    → serves i l ≡ true
    → f.1.id ≢ i
    → serves i (leave f l) ≡ true
unfolding serves leave
serves-leave i f [] h n = h
serves-leave i f (g ∷ l) h n = ground (arith, serves-leave i f l)

pub serves_at-leave :
    (k : Bytes) (i : ℕ) (f : Flow) (l : List Flow)
    → serves_at k i l ≡ true
    → (same f.0 k && f.1.id == i) ≡ false
    → serves_at k i (leave f l) ≡ true
unfolding serves_at leave
serves_at-leave k i f [] h n = h
serves_at-leave k i f (g ∷ l) h n =
    ground (arith, serves_at-leave k i f l, same_iff g.0 f.0, same_iff g.0 k, same_iff f.0 k)
