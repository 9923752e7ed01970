-- ===== src/Hosts/Normal.antt =====
-- Which host names `NormalizeHost` identifies.
use spaceship.Base.{
  ℕ, Bool, false, [], ◌∷◌, ◌++◌, map, ◌≡◌, refl, sym, ◌∙◌, ap, arith, Bytes, All, All-append,
}
use spaceship.Hosts.{
  is_space, is_dot, trim_left, trim_right, trim_space, lower, to_lower, normalize_host,
}

abbrev pub NoSpace : Bytes → Type 0
NoSpace = All (λ c. is_space c ≡ false)

trim_left-NoSpace : (s : Bytes) → NoSpace s → trim_left is_space s ≡ s
unfolding trim_left
trim_left-NoSpace [] h = refl
trim_left-NoSpace (c ∷ s) h = rw h.0

trim_right-NoSpace : (s : Bytes) → NoSpace s → trim_right is_space s ≡ s
unfolding trim_right
trim_right-NoSpace [] h = refl
trim_right-NoSpace (c ∷ s) h = rw (h.0, trim_right-NoSpace s h.1)

trim_space-NoSpace : (s : Bytes) → NoSpace s → trim_space s ≡ s
unfolding trim_space
trim_space-NoSpace s h = rw (trim_left-NoSpace s h, trim_right-NoSpace s h)

pub normalize_host-NoSpace :
    (s : Bytes) → NoSpace s → normalize_host s ≡ to_lower (trim_right is_dot s)
unfolding normalize_host to_lower trim_right
normalize_host-NoSpace [] h = unfold trim_space trim_left in refl
normalize_host-NoSpace (c ∷ s) h = rw (trim_space-NoSpace (c ∷ s) h)

trim_right_idem : (p : ℕ → Bool) (s : Bytes) → trim_right p (trim_right p s) ≡ trim_right p s
unfolding trim_right
trim_right_idem p [] = refl
trim_right_idem p (c ∷ s) = ground (arith, trim_right_idem p s)

trim_right-lower : (s : Bytes) → trim_right is_dot (map lower s) ≡ map lower (trim_right is_dot s)
unfolding trim_right is_dot lower
trim_right-lower [] = refl
trim_right-lower (c ∷ s) = ground (arith, trim_right-lower s)

map-lower_idem : (s : Bytes) → map lower (map lower s) ≡ map lower s
unfolding lower
map-lower_idem [] = refl
map-lower_idem (c ∷ s) = ground (arith, map-lower_idem s)

map-lower-NoSpace : (s : Bytes) → NoSpace s → NoSpace (map lower s)
unfolding lower is_space
map-lower-NoSpace [] h = tt
map-lower-NoSpace (c ∷ s) h = (ground (arith, h.0), map-lower-NoSpace s h.1)

trim_right-All : (p : ℕ → Bool) (s : Bytes) → NoSpace s → NoSpace (trim_right p s)
unfolding trim_right
trim_right-All p [] h = tt
trim_right-All p (c ∷ s) h = ground (arith, trim_right-All p s h.1)

pub normalize_host-keeps-NoSpace : (s : Bytes) → NoSpace s → NoSpace (normalize_host s)
normalize_host-keeps-NoSpace s h =
    rw (normalize_host-NoSpace s h)
      (unfold to_lower in map-lower-NoSpace (trim_right is_dot s) (trim_right-All is_dot s h))

trim_right-concat_dot : (s : Bytes) → trim_right is_dot (s ++ b'.' ∷ []) ≡ trim_right is_dot s
unfolding trim_right is_dot
trim_right-concat_dot [] = refl
trim_right-concat_dot (c ∷ s) = rw (trim_right-concat_dot s)

pub normalize_host_idem :
    (s : Bytes) → NoSpace s → normalize_host (normalize_host s) ≡ normalize_host s
unfolding to_lower
normalize_host_idem s h =
    normalize_host-NoSpace (normalize_host s) (normalize_host-keeps-NoSpace s h)
    ∙ rw (
      normalize_host-NoSpace s h,
      trim_right-lower (trim_right is_dot s),
      trim_right_idem is_dot s,
      map-lower_idem (trim_right is_dot s),
    )

normalize_host-to_lower : (s : Bytes) → NoSpace s → normalize_host (to_lower s) ≡ normalize_host s
unfolding to_lower
normalize_host-to_lower s h =
    normalize_host-NoSpace (map lower s) (map-lower-NoSpace s h)
    ∙ (rw (trim_right-lower s, map-lower_idem (trim_right is_dot s)))
    ∙ sym (normalize_host-NoSpace s h)

normalize_host-concat_dot :
    (s : Bytes) → NoSpace s → normalize_host (s ++ b'.' ∷ []) ≡ normalize_host s
unfolding is_space
normalize_host-concat_dot s h =
    normalize_host-NoSpace (s ++ b'.' ∷ [])
      (All-append (λ c. is_space c ≡ false) s (b'.' ∷ []) h (refl, tt))
    ∙ ap to_lower (trim_right-concat_dot s)
    ∙ sym (normalize_host-NoSpace s h)

-- On an ASCII name without white space `NormalizeHost` is a canonical form: it is idempotent, and
-- neither the letters' case nor a further trailing dot changes it.
normalize_host-canonical :
    (s : Bytes)
    → NoSpace s
    → (normalize_host (normalize_host s) ≡ normalize_host s)
      × (normalize_host (to_lower s) ≡ normalize_host s)
      × (normalize_host (s ++ b'.' ∷ []) ≡ normalize_host s)
normalize_host-canonical s h =
    (normalize_host_idem s h, normalize_host-to_lower s h, normalize_host-concat_dot s h)
