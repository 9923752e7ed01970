-- ===== src/Router/State/Versions.antt =====
-- The version number keeps a slow rebuild of the caches from undoing a change of the routes.
use spaceship.Base.{◌+◌, ◌%◌, ◌<◌, ◌≢◌, true, false, List, [], ◌∷◌, ◌≡◌, refl, arith, length}
use spaceship.Router.Route.{Lib}
use spaceship.Router.State.{Router, Routes, version_mod, replace, commit}

module _ (lib : Lib) where
  -- Successful changes of the routes, one behind the other.
  pub change : Router lib → List (Routes lib) → Router lib
  change s [] = s
  change s (rs ∷ changes) = change (replace lib s rs) changes

  version-change :
      (s : Router lib) (changes : List (Routes lib))
      → s.version < version_mod
      → (change s changes).version ≡ (s.version + length changes) % version_mod
  unfolding change replace
  version-change s [] h = omega arith
  version-change s (rs ∷ changes) h =
      omega (arith, version-change (replace lib s rs) changes (omega arith))

  -- `GenerateCache` takes a snapshot of the routes and their version, builds, and commits. If in
  -- between the routes were changed, at least once and fewer than 2^64 times, the commit is
  -- refused and they stay as they were changed to; if they were not, the built routes are
  -- installed.
  pub commit-after_change :
      (s : Router lib) (changes : List (Routes lib)) (built : Routes lib)
      → s.version < version_mod
      → length changes < version_mod
      → (changes ≢ [] → commit lib (change s changes) s.version built ≡ (change s changes, false))
        × (changes ≡ []
            → commit lib (change s changes) s.version built ≡ (replace lib s built, true))
  commit-after_change s [] built h k =
      (λ n. absurd (n refl), λ e. unfold change commit in ground arith)
  commit-after_change s (rs ∷ changes) built h k = (
    λ n. unfold commit in ground (arith, version-change s (rs ∷ changes) h),
    λ e. absurd (ground arith),
  )
