-- ===== src/Router/Route/Domain.antt =====
-- Domain rules match a host and its subdomains, and nothing else.
use spaceship.Base.{
  ℕ, zero, suc, ◌<◌, ◌⊎◌, inl, inr, true, List, [], ◌∷◌, ◌++◌, some, ◌≡◌, refl, sym, ap,
  append_assoc, ◌∙◌, arith, Bytes, length, ◌==◌, Bool-cases, Option-cases,
}
use spaceship.Router.Route.{after_dot, domain_loop}
use spaceship.Router.Table.{member}

-- The host is the domain, or ends in a dot and the domain.
abbrev pub IsWithin : Bytes → Bytes → Type 0
IsWithin rule host = (rule ≡ host) ⊎ ((sub : Bytes) × (host ≡ sub ++ b'.' ∷ rule))

-- The rest behind the first dot, in a text with a dot.
pub after_dot-append :
    (sub rule : Bytes)
    → (parent : Bytes) × (after_dot (sub ++ b'.' ∷ rule) ≡ some parent)
      × ((parent ≡ rule) ⊎ ((sub' : Bytes) × (parent ≡ sub' ++ b'.' ∷ rule)))
      × (length parent < length (sub ++ b'.' ∷ rule))
unfolding after_dot
after_dot-append [] rule = (rule, refl, inl refl, omega arith)
after_dot-append (c ∷ sub) rule = elim (Bool-cases (c == b'.')) [
  | inl dot ↦ (sub ++ b'.' ∷ rule, rw dot, inr (sub, refl), omega arith)
  | inr letter ↦
      let (parent, e, shape, size) = after_dot-append sub rule in
      (parent, rw letter e, shape, omega (arith, size))
]

after_dot-splits :
    (host parent : Bytes)
    → after_dot host ≡ some parent
    → (label : Bytes) × (host ≡ label ++ b'.' ∷ parent)
unfolding after_dot
after_dot-splits [] parent h = absurd (ground arith)
after_dot-splits (c ∷ host) parent h = elim (Bool-cases (c == b'.')) [
  | inl dot ↦ ([], ground arith)
  | inr letter ↦
      let (label, e) = after_dot-splits host parent (ground arith) in (c ∷ label, ap (◌∷◌ c) e)
]

IsWithin-parent :
    (rule label parent : Bytes) → IsWithin rule parent → IsWithin rule (label ++ b'.' ∷ parent)
IsWithin-parent rule label parent (inl e) = inr (label, ap (λ r. label ++ b'.' ∷ r) (sym e))
IsWithin-parent rule label parent (inr (sub, e)) = inr (label ++ b'.' ∷ sub, rw (e, append_assoc))

-- A match is by some rule that the host lies within.
pub domain_loop_sound :
    (fuel : ℕ) (set : List Bytes) (host : Bytes)
    → domain_loop fuel set host ≡ true
    → (rule : Bytes) × (member rule set ≡ true) × IsWithin rule host
unfolding domain_loop
domain_loop_sound zero set host h = absurd (ground arith)
domain_loop_sound (suc fuel) set host h = elim (Bool-cases (member host set)) [
  | inl listed ↦ (host, listed, inl refl)
  | inr other ↦ elim (Option-cases (after_dot host)) [
    | inl last ↦ absurd (ground arith)
    | inr (parent, e) ↦
        let (label, split) = after_dot-splits host parent e in
        let (rule, listed, within) =
          domain_loop_sound fuel set parent (rw (other, e, domain_loop) at h) in
        (rule, listed, rw split (IsWithin-parent rule label parent within))
  ]
]

pub domain_loop_complete :
    (fuel : ℕ) (set : List Bytes) (host rule : Bytes)
    → length host < fuel
    → member rule set ≡ true
    → IsWithin rule host
    → domain_loop fuel set host ≡ true
unfolding domain_loop
domain_loop_complete zero set host rule h m w = elim h [ ]
domain_loop_complete (suc fuel) set host rule h m (inl e) = ground arith
domain_loop_complete (suc fuel) set host rule h m (inr (sub, e)) =
    elim (Bool-cases (member host set)) [
      | inl listed ↦ rw listed
      | inr other ↦
          let (parent, split, shape, size) = after_dot-append sub rule in
          let split' : after_dot host ≡ some parent = ap after_dot e ∙ split in
          let within : IsWithin rule parent = elim shape [ inl p ↦ inl (sym p) | inr p ↦ inr p ] in
          rw (other, split', domain_loop)
            (domain_loop_complete fuel set parent rule (ground (arith, size)) m within)
    ]
