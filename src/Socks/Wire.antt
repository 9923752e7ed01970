-- ===== src/Socks/Wire.antt =====
-- A client connection of internal/socks: the bytes that the client has yet to send, the bytes that
-- were written to it, and whether a write succeeds. A handler's step may fail, and what it has read
-- and written by then stays.
use spaceship.Base.{
  ℕ, Bool, true, false, [], ◌∷◌, ◌++◌, ◌≡◌, refl, ap, arith, Bytes, length, length-append, take,
  drop, leb, ◌==◌, if◌then◌else◌, Result, ok, err, take-length-append, drop-length-append,
  take-drop, length-take, List-cases, Bool-cases, inl, inr, sym, ◌∙◌,
}
use spaceship.Socks.Errors.{Error, eof, unexpected_eof, write_error}

pub record Conn : Type 0 where
  pub input : Bytes
  pub output : Bytes
  pub writable : Bool

abbrev pub M : Type 0 → Type 0
M A = Conn → Conn × Result Error A

infixl 5 ◌>>=◌ ◌>>◌
abbrev pub ◌>>=◌ : {A B : Type 0} → M A → (A → M B) → M B
◌>>=◌ m f c = let (c', r) = m c in elim r [ ok a ↦ f a c' | err e ↦ (c', err e) ]

abbrev pub ◌>>◌ : {B : Type 0} → M (Unit {0}) → M B → M B
m >> k = m >>= λ _. k

abbrev pub return : {A : Type 0} → A → M A
return a c = (c, ok a)

abbrev pub throw : {A : Type 0} → Error → M A
throw e c = (c, err e)

abbrev pub check : Bool → Error → M (Unit {0})
check true e = return tt
check false e = throw e

-- `io.ReadFull`, and `io.ReadAtLeast` for as many bytes as the buffer has.
unfoldable pub read_full : ℕ → M Bytes
read_full n c =
    if leb n (length c.input)
    then (record c { input = drop n c.input }, ok (take n c.input))
    else (record c { input = [] }, err (if length c.input == 0 then eof else unexpected_eof))

-- One byte.
unfoldable pub read_byte : M ℕ
read_byte c = elim c.input [ [] ↦ (c, err eof) | b ∷ rest ↦ (record c { input = rest }, ok b) ]

unfoldable pub write : Bytes → M (Unit {0})
write bytes c =
    if c.writable then (record c { output = c.output ++ bytes }, ok tt) else (c, err write_error)

pub read_full-append :
    (xs ys : Bytes) (c : Conn)
    → c.input ≡ xs ++ ys
    → read_full (length xs) c ≡ (record c { input = ys }, ok xs)
unfolding read_full
read_full-append xs ys c e =
    ground (arith, e, length-append xs ys, take-length-append xs ys, drop-length-append xs ys)

-- What a read has given was at the front of the input.
pub read_full-reads :
    (n : ℕ) (c : Conn) (xs : Bytes)
    → read_full n c ≡ ((read_full n c).0, ok xs)
    → (c.input ≡ xs ++ (read_full n c).0.input) × (length xs ≡ n)
unfolding read_full
read_full-reads n c xs h = elim (Bool-cases (leb n (length c.input))) [
  | inr e ↦ absurd (ground arith)
  | inl e ↦
      let given : xs ≡ take n c.input = ground arith in
      let left : (read_full n c).0.input ≡ drop n c.input = rw (e, read_full) refl in
      let size = length-take n c.input in
      (
        sym (take-drop n c.input) ∙ (λ i. sym given i ++ sym left i),
        ap (λ l. length l) given ∙ ground arith,
      )
]

pub read_byte-reads :
    (c : Conn) (b : ℕ) → (read_byte c).1 ≡ ok b → c.input ≡ b ∷ (read_byte c).0.input
unfolding read_byte
read_byte-reads c b h = elim (List-cases c.input) [
  | inl e ↦ absurd (ground arith)
  | inr (x, rest, e) ↦
      let left : (read_byte c).0.input ≡ rest = rw (e, read_byte) refl in
      let first : x ≡ b = ground arith in e ∙ (λ i. first i ∷ sym left i)
]

-- A check that was passed held, and read nothing.
pub check-holds :
    (b : Bool) (e : Error) (c : Conn) → (check b e c).1 ≡ ok tt → (b ≡ true) × ((check b e c).0 ≡ c)
check-holds true e c h = (refl, refl)
check-holds false e c h = absurd (ground arith)

pub write-input : (bytes : Bytes) (c : Conn) → (write bytes c).0.input ≡ c.input
unfolding write
write-input bytes c = ground arith

-- A step that succeeds hands its value and connection on.
pub bind-ok :
    {A B : Type 0} (m : M A) (f : A → M B) (c c' : Conn) (a : A)
    → m c ≡ (c', ok a)
    → (m >>= f) c ≡ f a c'
bind-ok {A} {B} m f c c' a e = ap next e
  where
    next : Conn × Result Error A → Conn × Result Error B
    next p = elim p.1 [ ok x ↦ f x p.0 | err e ↦ (p.0, err e) ]

-- A run that succeeds had a step that succeeded.
pub bind-succeeds :
    {A B : Type 0} (m : M A) (f : A → M B) (c : Conn) {b : B}
    → ((m >>= f) c).1 ≡ ok b
    → (a : A) × (m c ≡ ((m c).0, ok a)) × ((f a (m c).0).1 ≡ ok b)
bind-succeeds {A} {B} m f c {b} h = split (m c) h
  where
    split :
        (p : Conn × Result Error A)
        → (let r : Conn × Result Error B = elim p.1 [ ok x ↦ f x p.0 | err e ↦ (p.0, err e) ] in
            r.1)
          ≡ ok b
        → (a : A) × (p ≡ (p.0, ok a)) × ((f a p.0).1 ≡ ok b)
    split (c', ok x) h = (x, refl, h)
    split (c', err e) h = absurd (ground arith)
