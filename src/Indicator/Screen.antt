-- ===== src/Indicator/Screen.antt =====
-- What the screen shows.
use spaceship.Base.{
  ℕ, zero, suc, ◌+◌, ◌-◌, ◌≤◌, ◌==◌, min, true, List, [], ◌∷◌, ◌++◌, Bytes, Option, some, ◌≡◌, refl,
  sym, ap, ◌∙◌, arith, All, length, length-append, length-take, length-drop, take, drop, ltb, leb,
  Bool-cases, Option-cases, ◌⊎◌, inl, inr,
}
use spaceship.Indicator.{
  Indicator, terminal_size, calculate_min_height, new_indicator, resize, trim_logs, trim_newline,
  split_lines, write, wrap_line, print_pieces, print_logs, blank_lines, render,
}

abbrev wrapped : ℕ → List Bytes → List Bytes
wrapped width [] = []
wrapped width (l ∷ ls) = wrap_line width l ++ wrapped width ls

take_none {ℓ} : {A : Type ℓ} (n : ℕ) (xs : List A) → n ≡ 0 → take n xs ≡ []
take_none zero xs h = refl
take_none (suc n) xs h = absurd (omega arith)

take_nil {ℓ} : {A : Type ℓ} (n : ℕ) → take {A = A} n [] ≡ []
take_nil zero = refl
take_nil (suc n) = refl

take-append {ℓ} :
    {A : Type ℓ} (n : ℕ) (xs ys : List A) → take n (xs ++ ys) ≡ take n xs ++ take (n - length xs) ys
take-append zero [] ys = refl
take-append zero (x ∷ xs) ys = sym (take_none (0 - suc (length xs)) ys (omega arith))
take-append (suc n) [] ys = ap (λ k. take k ys) (let e : suc n ≡ suc n - 0 = omega arith in e)
take-append (suc n) (x ∷ xs) ys =
    let e : suc n - suc (length xs) ≡ n - length xs = omega arith in
    rw e (ap (λ l. x ∷ l) (take-append n xs ys))

print_pieces_lem :
    (max used : ℕ) (ps : List Bytes)
    → ((print_pieces max used ps).0 ≡ take (max - used) ps)
      × ((print_pieces max used ps).1 ≡ used + min (max - used) (length ps))
unfolding print_pieces
print_pieces_lem max used [] = (sym (take_nil (max - used)), omega arith)
print_pieces_lem max used (p ∷ ps) = elim (Bool-cases (leb max used)) [
  | inl full ↦
      rw (full, print_pieces) (sym (take_none (max - used) (p ∷ ps) (ground arith)), ground arith)
  | inr room ↦
      let (a, b) = print_pieces_lem max (used + 1) ps in
      let e : max - used ≡ suc (max - (used + 1)) = ground arith in
      rw (room, print_pieces) (rw e (ap (λ l. p ∷ l) a), b ∙ ground arith)
]

print_logs_lem :
    (width max used : ℕ) (ls : List Bytes)
    → ((print_logs width max used ls).0 ≡ take (max - used) (wrapped width ls))
      × ((print_logs width max used ls).1 ≡ used + min (max - used) (length (wrapped width ls)))
unfolding print_logs
print_logs_lem width max used [] = (sym (take_nil (max - used)), omega arith)
print_logs_lem width max used (l ∷ ls) = elim (Bool-cases (ltb used max)) [
  | inr full ↦
      rw (full, print_logs)
        (sym (take_none (max - used) (wrapped width (l ∷ ls)) (ground arith)), ground arith)
  | inl room ↦
      let pieces = wrap_line width l in
      let (a, b) = print_pieces_lem max used pieces in
      let (c, d) = print_logs_lem width max (print_pieces max used pieces).1 ls in
      let all = length-append pieces (wrapped width ls) in
      let left : max - (print_pieces max used pieces).1 ≡ (max - used) - length pieces =
        omega arith in
      rw (room, print_logs)
        (
          (ap (λ x. x ++ (print_logs width max (print_pieces max used pieces).1 ls).0) a
              ∙ ap (λ x. take (max - used) pieces ++ x)
                  (c ∙ ap (λ n. take n (wrapped width ls)) left)
              ∙ sym (take-append (max - used) pieces (wrapped width ls))),
          (omega arith),
        )
]

length-blank_lines : (n : ℕ) → length (blank_lines n) ≡ n
unfolding blank_lines
length-blank_lines zero = refl
length-blank_lines (suc n) = ap suc (length-blank_lines n)

trim_logs-drop : (max : ℕ) (logs : List Bytes) → trim_logs max logs ≡ drop (length logs - max) logs
unfolding trim_logs
trim_logs-drop max logs = elim (Bool-cases (ltb max (length logs))) [
  | inl e ↦ rw (e, trim_logs) refl
  | inr e ↦
      let z : length logs - max ≡ 0 = ground arith in
      rw (e, trim_logs) (sym (ap (λ n. drop n logs) z))
]

length-trim_logs : (max : ℕ) (logs : List Bytes) → length (trim_logs max logs) ≤ max
length-trim_logs max logs =
    rw (trim_logs-drop max logs) (let d = length-drop (length logs - max) logs in omega arith)

trim_logs_twice : (max : ℕ) (logs : List Bytes) → length logs ≤ max → trim_logs max logs ≡ logs
trim_logs_twice max logs h =
    trim_logs-drop max logs
    ∙ ap (λ n. drop n logs) (let z : length logs - max ≡ 0 = omega arith in z)

-- The lines of a rendering.
render_lem :
    (sw : Indicator) (size : Option (ℕ × ℕ))
    → let shown =
        take sw.max_logs (wrapped (terminal_size size).0 (trim_logs sw.max_logs sw.log_buffer)) in
      ((render sw size).0 ≡ shown ++ blank_lines (sw.max_logs + 1 - length shown))
      × (length (render sw size).0 ≡ sw.max_logs + 1)
unfolding render
render_lem sw size =
    let width = (terminal_size size).0 in
    let max = sw.max_logs in
    let shown = trim_logs max sw.log_buffer in
    let (a, b) = print_logs_lem width max 0 shown in
    let printed : (print_logs width max 0 shown).0 ≡ take max (wrapped width shown) =
      a ∙ ap (λ n. take n (wrapped width shown)) (let z : max - 0 ≡ max = omega arith in z) in
    let size_taken = length-take max (wrapped width shown) in
    let used : max + 1 - (print_logs width max 0 shown).1
        ≡ max + 1 - length (take max (wrapped width shown)) =
      omega arith in
    let lines =
      ap (λ x. x ++ blank_lines (max + 1 - (print_logs width max 0 shown).1)) printed
      ∙ ap (λ n. take max (wrapped width shown) ++ blank_lines n) used in
    let all =
      length-append (take max (wrapped width shown))
        (blank_lines (max + 1 - length (take max (wrapped width shown)))) in
    let blanks = length-blank_lines (max + 1 - length (take max (wrapped width shown))) in
    (lines, ap (λ x. length x) lines ∙ omega arith)

wrapped_fits :
    (width : ℕ) (ls : List Bytes) → All (λ l. length l ≤ width) ls → wrapped width ls ≡ ls
unfolding wrap_line
wrapped_fits width [] h = refl
wrapped_fits width (l ∷ ls) (k, h) = elim (Bool-cases (width == 0)) [
  | inl e ↦ rw (e, wrap_line) (ap (λ x. l ∷ x) (wrapped_fits width ls h))
  | inr e ↦
      let small : leb (length l) width ≡ true = ground arith in
      rw (e, small, wrap_line) (ap (λ x. l ∷ x) (wrapped_fits width ls h))
]

take_all {ℓ} : {A : Type ℓ} (n : ℕ) (xs : List A) → length xs ≤ n → take n xs ≡ xs
take_all zero [] h = refl
take_all zero (x ∷ xs) h = absurd (omega arith)
take_all (suc n) [] h = refl
take_all (suc n) (x ∷ xs) h = ap (λ l. x ∷ l) (take_all n xs (omega arith))

-- After a write, a rendering prints one line more than the indicator keeps, each with its newline,
-- before the status; and where the newest lines, as many as it keeps, fit the terminal's width, it
-- prints exactly these, in their order and unbroken, and blank lines behind them.
pub render-write :
    (sw : Indicator) (p : Bytes) (size : Option (ℕ × ℕ))
    → let logs = sw.log_buffer ++ split_lines (trim_newline p) in
      let newest = drop (length logs - sw.max_logs) logs in
      (length (render (write sw p).0 size).0 ≡ sw.max_logs + 1)
      × (All (λ l. length l ≤ (terminal_size size).0) newest
          → (render (write sw p).0 size).0
            ≡ newest ++ blank_lines (sw.max_logs + 1 - length newest))
unfolding write
render-write sw p size =
    let logs = sw.log_buffer ++ split_lines (trim_newline p) in
    let kept = trim_logs sw.max_logs logs in
    let small = length-trim_logs sw.max_logs logs in
    let (lines, count) = render_lem (write sw p).0 size in
    (
      count,
      λ fit.
          let twice = trim_logs_twice sw.max_logs kept small in
          let is_kept = sym (trim_logs-drop sw.max_logs logs) in
          let whole : take sw.max_logs (wrapped (terminal_size size).0 (trim_logs sw.max_logs kept))
              ≡ drop (length logs - sw.max_logs) logs =
            ap (λ l. take sw.max_logs (wrapped (terminal_size size).0 l))
              (twice ∙ trim_logs-drop sw.max_logs logs)
            ∙ ap (λ l. take sw.max_logs l)
                (wrapped_fits (terminal_size size).0 (drop (length logs - sw.max_logs) logs) fit)
            ∙ take_all sw.max_logs (drop (length logs - sw.max_logs) logs)
                (let d = length-drop (length logs - sw.max_logs) logs in omega arith) in
          lines ∙ ap (λ l. l ++ blank_lines (sw.max_logs + 1 - length l)) whole,
    )

min_height_lem : (h m : ℕ) → calculate_min_height h ≡ some m → m + 1 ≡ h
unfolding calculate_min_height
min_height_lem zero m e = cc
min_height_lem (suc h) m e = ground arith

sized_new :
    (size : Option (ℕ × ℕ)) (sw : Indicator)
    → new_indicator size ≡ some sw
    → sw.max_logs + 1 ≡ (terminal_size size).1
unfolding new_indicator
sized_new size sw h = elim (Option-cases (calculate_min_height (terminal_size size).1)) [
  | inl e ↦ absurd (ground arith)
  | inr (m, e) ↦ let k = min_height_lem (terminal_size size).1 m e in ground arith
]

sized_resize :
    (size : Option (ℕ × ℕ)) (old sw : Indicator)
    → resize old size ≡ some sw
    → sw.max_logs + 1 ≡ (terminal_size size).1
unfolding resize
sized_resize size old sw h = elim (Option-cases (calculate_min_height (terminal_size size).1)) [
  | inl e ↦ absurd (ground arith)
  | inr (m, e) ↦ let k = min_height_lem (terminal_size size).1 m e in ground arith
]

-- Once an indicator has been made for a terminal, or has been resized to it, a rendering there prints
-- as many lines, each with its newline, as the terminal has, and the status comes behind them.
pub render-height :
    (size : Option (ℕ × ℕ)) (old sw : Indicator)
    → (new_indicator size ≡ some sw) ⊎ (resize old size ≡ some sw)
    → length (render sw size).0 ≡ (terminal_size size).1
render-height size old sw (inl h) = (render_lem sw size).1 ∙ sized_new size sw h
render-height size old sw (inr h) = (render_lem sw size).1 ∙ sized_resize size old sw h
