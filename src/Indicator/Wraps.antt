-- ===== src/Indicator/Wraps.antt =====
-- What wrapping does to a line.
use spaceship.Base.{
  ℕ, zero, suc, ◌≤◌, ◌<◌, ◌==◌, false, List, [], ◌∷◌, ◌++◌, append-nil, Bytes, ◌≡◌, refl, sym, ap,
  ◌∙◌, arith, All, length, length-take, length-drop, take, drop, ltb, leb, Bool-cases, inl, inr,
}
use spaceship.Indicator.{wrap_loop, wrap_line}

abbrev pub join : List Bytes → Bytes
join [] = []
join (p ∷ ps) = p ++ join ps

take-append-drop : (n : ℕ) (xs : Bytes) → take n xs ++ drop n xs ≡ xs
take-append-drop zero xs = refl
take-append-drop (suc n) [] = refl
take-append-drop (suc n) (x ∷ xs) = ap (λ l. x ∷ l) (take-append-drop n xs)

short_is_nil : (line : Bytes) → ltb 0 (length line) ≡ false → line ≡ []
short_is_nil [] h = refl
short_is_nil (x ∷ xs) h = absurd (ground arith)

join-wrap_loop :
    (fuel width : ℕ) (line : Bytes)
    → 0 < width
    → length line ≤ fuel
    → join (wrap_loop fuel width line) ≡ line
unfolding wrap_loop
join-wrap_loop zero width [] h k = refl
join-wrap_loop zero width (x ∷ xs) h k = absurd (omega arith)
join-wrap_loop (suc fuel) width line h k = elim (Bool-cases (ltb width (length line))) [
  | inl long ↦
      let rest =
        join-wrap_loop fuel width (drop width line) h
          (let d = length-drop width line in ground arith) in
      rw (long, wrap_loop) (ap (λ x. take width line ++ x) rest ∙ take-append-drop width line)
  | inr short ↦ elim (Bool-cases (ltb 0 (length line))) [
    | inl some_left ↦ rw (short, some_left, wrap_loop) (append-nil line)
    | inr none_left ↦ rw (short, none_left, wrap_loop) (sym (short_is_nil line none_left))
  ]
]

wrap_loop-small :
    (fuel width : ℕ) (line : Bytes) → All (λ p. length p ≤ width) (wrap_loop fuel width line)
unfolding wrap_loop
wrap_loop-small zero width line = tt
wrap_loop-small (suc fuel) width line = elim (Bool-cases (ltb width (length line))) [
  | inl long ↦
      rw (long, wrap_loop)
        (
          (let t = length-take width line in omega arith),
          wrap_loop-small fuel width (drop width line),
        )
  | inr short ↦ elim (Bool-cases (ltb 0 (length line))) [
    | inl some_left ↦ rw (short, some_left, wrap_loop) ((ground arith), tt)
    | inr none_left ↦ rw (short, none_left, wrap_loop) tt
  ]
]

-- Wrapping loses nothing and repeats nothing: the pieces joined are the line, whatever the width;
-- and on a terminal of some width no piece is longer than it.
pub wrap_line-fits :
    (width : ℕ) (line : Bytes)
    → (join (wrap_line width line) ≡ line)
      × (0 < width → All (λ p. length p ≤ width) (wrap_line width line))
unfolding wrap_line
wrap_line-fits width line = elim (Bool-cases (width == 0)) [
  | inl e ↦ rw (e, wrap_line) (append-nil line, λ h. absurd (ground arith))
  | inr e ↦ elim (Bool-cases (leb (length line) width)) [
    | inl k ↦ rw (e, k, wrap_line) (append-nil line, λ h. ((ground arith), tt))
    | inr k ↦
        rw (e, k, wrap_line)
          (
            join-wrap_loop (length line) width line (ground arith) (omega arith),
            λ h. wrap_loop-small (length line) width line,
          )
  ]
]
