-- ===== src/Transport/Closing/Once.antt =====
-- Nothing is closed twice.
use spaceship.Base.{
  ℕ, ◌+◌, ◌==◌, ==_iff, Bool, true, false, List, [], ◌∷◌, ◌++◌, Option, none, ◌≡◌, refl, sym, subst,
  ap, arith, if◌then◌else◌, All,
}
use spaceship.Transport.Closing.{
  Value, closer, nil_closer, no_closer, seen_before, close_all_loop, close_all, OnceConn, bare_conn,
  wrapped_conn, once_net_conn, close_once,
}

-- How often a number stands in a list.
abbrev pub count : ℕ → List ℕ → ℕ
count c [] = 0
count c (x ∷ xs) = (if x == c then 1 else 0) + count c xs

-- A closer among the values.
abbrev pub mentions : ℕ → List Value → Bool
mentions c [] = false
mentions c (closer x ∷ vs) = if x == c then true else mentions c vs
mentions c (nil_closer ∷ vs) = mentions c vs
mentions c (no_closer ∷ vs) = mentions c vs

seen_before-append :
    (c x : ℕ) (xs : List ℕ)
    → seen_before c (xs ++ x ∷ []) ≡ (if x == c then true else seen_before c xs)
unfolding seen_before
seen_before-append c x [] = refl
seen_before-append c x (y ∷ ys) = ground (arith, seen_before-append c x ys)

seen_before-eq :
    (x c : ℕ) (seen : List ℕ) → (x == c) ≡ true → seen_before x seen ≡ seen_before c seen
seen_before-eq x c seen h = ap (λ k. seen_before k seen) ((==_iff x c).0 h)

count-close_all_loop :
    (c : ℕ) (seen : List ℕ) (vs : List Value)
    → count c (close_all_loop seen vs)
      ≡ (if seen_before c seen then 0 else if mentions c vs then 1 else 0)
unfolding close_all_loop
count-close_all_loop c seen [] = ground arith
count-close_all_loop c seen (nil_closer ∷ vs) = count-close_all_loop c seen vs
count-close_all_loop c seen (no_closer ∷ vs) = count-close_all_loop c seen vs
count-close_all_loop c seen (closer x ∷ vs) = ground (
  arith,
  seen_before-eq x c seen,
  seen_before-append c x seen,
  count-close_all_loop c seen vs,
  count-close_all_loop c (seen ++ x ∷ []) vs,
)

-- `CloseAll` closes each closer among its values once, however often it stands there, and nothing
-- else.
pub close_all-once :
    (c : ℕ) (vs : List Value) → count c (close_all vs) ≡ (if mentions c vs then 1 else 0)
unfolding close_all seen_before
close_all-once c vs = count-close_all_loop c [] vs

-- The owners of a connection, one after the other: what each `Close` returns, and the connection then.
abbrev pub close_by_all : OnceConn → List (Option ℕ) → OnceConn × List (Option ℕ)
close_by_all w [] = (w, [])
close_by_all w (o ∷ os) =
    let (w', answer) = close_once w o in
    let (last, answers) = close_by_all w' os in (last, answer ∷ answers)

close_by_all_done :
    (w : OnceConn) (os : List (Option ℕ))
    → w.done ≡ true
    → ((close_by_all w os).0 ≡ w) × All (λ a. a ≡ w.answer) (close_by_all w os).1
unfolding close_once
close_by_all_done w [] h = (refl, tt)
close_by_all_done w (o ∷ os) h =
    let stays : close_once w o ≡ (w, w.answer) = simp h in
    let (a, b) = close_by_all_done w os h in
    let same_conn = ap (λ x. x.0) stays in
    (
      subst (λ x. (close_by_all x os).0 ≡ w) (sym same_conn) a,
      (
        ap (λ x. x.1) stays,
        subst (λ x. All (λ y. y ≡ w.answer) (close_by_all x os).1) (sym same_conn) b,
      ),
    )

-- A wrapper on which `Close` has not run.
abbrev fresh : OnceConn
fresh = record { done = false; calls = 0; answer = none }

fresh_closed :
    (o : Option ℕ) (os : List (Option ℕ))
    → ((close_by_all fresh (o ∷ os)).0.calls ≡ 1) × All (λ a. a ≡ o) (close_by_all fresh (o ∷ os)).1
unfolding close_once
fresh_closed o os =
    let (a, b) = close_by_all_done (record { done = true; calls = 1; answer = o }) os refl in
    (ap (λ x. x.calls) a, (refl, b))

-- However many owners close a fresh connection through its wrapper, the connection itself is closed
-- once, and every owner is given the answer of that one call.
pub close_by_all-once :
    (o : Option ℕ) (os : List (Option ℕ)) (w : OnceConn)
    → once_net_conn bare_conn ≡ wrapped_conn w
    → ((close_by_all w (o ∷ os)).0.calls ≡ 1) × All (λ a. a ≡ o) (close_by_all w (o ∷ os)).1
unfolding once_net_conn
close_by_all-once o os w h =
    let e : w ≡ fresh = cc in
    subst
      (λ x. ((close_by_all x (o ∷ os)).0.calls ≡ 1) × All (λ a. a ≡ o) (close_by_all x (o ∷ os)).1)
      (sym e) (fresh_closed o os)
