-- ===== src/Config/Careful.antt =====
-- Parts of `Apply` that keep what traffic depends on, and runs of them.
use spaceship.Base.{
  Bool, true, false, Result-cases, inl, inr, List, [], ◌∷◌, ◌++◌, ◌≡◌, refl, sym, ap, subst, ◌∙◌,
  All, Result, ok, err, if◌then◌else◌,
}
use spaceship.Config.Stages.{fails}
use spaceship.Config.{Error, Program, Stage, run_all}
use spaceship.Router.Route.{Lib}

-- What traffic depends on stays: the routes with their version and their cache, the two variables of
-- the IPv6 mode, and the idle timeout.
pub record Keeps {lib : Lib} (p q : Program lib) : Type 0 where
  pub router : q.router ≡ p.router
  pub prefer_ipv4 : q.settings.prefer_ipv4 ≡ p.settings.prefer_ipv4
  pub network : q.settings.network ≡ p.settings.network
  pub idle_timeout : q.settings.idle_timeout ≡ p.settings.idle_timeout

pub same_program : {lib : Lib} (p : Program lib) → Keeps p p
same_program p = record { router = refl; prefer_ipv4 = refl; network = refl; idle_timeout = refl }

pub Keeps-trans : {lib : Lib} {p q r : Program lib} → Keeps p q → Keeps q r → Keeps p r
Keeps-trans a b = record {
  router = b.router ∙ a.router;
  prefer_ipv4 = b.prefer_ipv4 ∙ a.prefer_ipv4;
  network = b.network ∙ a.network;
  idle_timeout = b.idle_timeout ∙ a.idle_timeout;
}

-- Parts that keep it, that keep it where they fail, and that do not fail.
abbrev pub Careful : {lib : Lib} → Stage lib → Type 0
Careful {lib} f = (p : Program lib) → Keeps p (f p).0

abbrev pub Guarded : {lib : Lib} → Stage lib → Type 0
Guarded {lib} f = (p : Program lib) (e : Error) → (f p).1 ≡ err e → Keeps p (f p).0

abbrev pub Safe : {lib : Lib} → Stage lib → Type 0
Safe {lib} f = (p : Program lib) → (f p).1 ≡ ok tt

pub run_all-Safe : {lib : Lib} (fs : List (Stage lib)) → All Safe fs → Safe (run_all fs)
unfolding run_all
run_all-Safe [] h p = refl
run_all-Safe (f ∷ fs) (h, hs) p = rw (h p, run_all) (run_all-Safe fs hs (f p).0)

pub run_all-passes :
    {lib : Lib} (f : Stage lib) (fs : List (Stage lib)) (p : Program lib) (u : Unit {0})
    → (f p).1 ≡ ok u
    → run_all (f ∷ fs) p ≡ run_all fs (f p).0
unfolding run_all
run_all-passes f fs p u k = simp (k, run_all)

pub run_all-Guarded :
    {lib : Lib} (fs : List (Stage lib)) (g : Stage lib) (rest : List (Stage lib))
    → All Careful fs
    → Guarded g
    → All Safe rest
    → Guarded (run_all (fs ++ g ∷ rest))
unfolding run_all
run_all-Guarded [] g rest h guarded safe p e fails = elim (Result-cases (g p).1) [
  | inr (x, k) ↦ rw (k, run_all) (guarded p x k)
  | inl (u, k) ↦
      let fine = run_all-Safe rest safe (g p).0 in
      let over = sym (ap (λ r. r.1) (run_all-passes g rest p u k)) ∙ fails in absurd cc
]
run_all-Guarded (f ∷ fs) g rest (h, hs) guarded safe p e fails = elim (Result-cases (f p).1) [
  | inr (x, k) ↦ rw (k, run_all) (h p)
  | inl (u, k) ↦
      let step = run_all-passes f (fs ++ g ∷ rest) p u k in
      let later =
        run_all-Guarded fs g rest hs guarded safe (f p).0 e (sym (ap (λ r. r.1) step) ∙ fails) in
      subst (λ r. Keeps p r.0) (sym step) (Keeps-trans (h p) later)
]

abbrev pub Outcome : Lib → Type 0
Outcome lib = Program lib × Result Error (Unit {0})

pub either :
    {lib : Lib} (p : Program lib) (b : Bool) (x y : Outcome lib)
    → Keeps p x.0
    → Keeps p y.0
    → Keeps p (if b then x else y).0
either p true x y h k = h
either p false x y h k = k
