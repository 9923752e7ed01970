-- ===== src/Router/State/Coherent.antt =====
-- The table never changes an answer: a cached egress is the one that the routes give.
use spaceship.Base.{
  ℕ, inl, inr, Bool, List, [], ◌∷◌, ◌++◌, Option, none, some, ◌≡◌, refl, sym, ◌∙◌, ap, arith, ◌==◌,
  Bytes, same, same_iff, lookup, Bool-cases, Result, ok, err, ◌>>=◌,
}
use spaceship.Router.Egress.{Egress, Error, Transport, get_transport}
use spaceship.Router.Route.{Lib, Route}
use spaceship.Router.State.{
  Router, Routes, normalize_route_key, start, replace, first_match, prepare_routes, set_routes,
  add_to_first_route, add_to_last_route, look_up, get_route, commit,
}
use spaceship.Router.Table.Evict.{egress_at}
use spaceship.Router.Table.Set.{IsValid, new-IsValid, reset-IsValid, set-Sets, get-Gets}
use spaceship.Router.Table.{set, get, reset, new_synced_routes_table, max_cache_size}

module _ (lib : Lib) where
  pub record IsCoherent (s : Router lib) : Type 0 where
    pub valid : IsValid s.table
    pub agree :
        (k : Bytes) (e : Egress)
        → egress_at k s.table.lru_list ≡ some e
        → first_match lib s.routes k ≡ ok e

  pub start-IsCoherent : IsCoherent (start lib)
  unfolding start new_synced_routes_table egress_at lookup
  start-IsCoherent = record {
    valid = unfold new_synced_routes_table in new-IsValid max_cache_size;
    agree = λ k e h. cc;
  }

  pub replace-IsCoherent :
      (s : Router lib) (r : Routes lib) → IsCoherent s → IsCoherent (replace lib s r)
  unfolding replace reset egress_at lookup
  replace-IsCoherent s r c = record { valid = reset-IsValid s.table c.valid; agree = λ k e h. cc }

  -- The outcome without a table.
  unfoldable pub answer : Router lib → Bool → Bytes → Result Error Transport
  answer s proxy_up key = first_match lib s.routes key >>= get_transport proxy_up

  set-agree :
      (s : Router lib) (key : Bytes) (egress : Egress)
      → IsCoherent s
      → first_match lib s.routes key ≡ ok egress
      → IsCoherent (record s { table = set s.table key egress })
  set-agree s key egress c found =
      let sets = set-Sets s.table key egress c.valid in
      record {
        valid = sets.valid;
        agree = λ k e h. elim (Bool-cases (same key k)) [
          | inl at ↦ ground (arith, same_iff key k, sets.stored)
          | inr other ↦ elim (sets.others k other) [
            | inl kept ↦ c.agree k e (sym kept ∙ h)
            | inr gone ↦ absurd (ground arith)
          ]
        ];
      }

  abbrev Answers : Router lib → Bool → Bytes → Router lib × Result Error Transport → Type 0
  Answers s proxy_up key r =
      IsCoherent r.0 × (r.0.routes ≡ s.routes) × (r.1 ≡ answer s proxy_up key)

  look_up-Answers :
      (s : Router lib) (proxy_up : Bool) (dst : Bytes)
      → IsCoherent s
      → Answers s proxy_up (normalize_route_key dst) (look_up lib s proxy_up dst)
  unfolding look_up answer
  look_up-Answers s proxy_up dst c =
      by_match (first_match lib s.routes (normalize_route_key dst)) refl
    where
      by_match :
          (m : Result Error Egress)
          → first_match lib s.routes (normalize_route_key dst) ≡ m
          → Answers s proxy_up (normalize_route_key dst) (look_up lib s proxy_up dst)
      by_match (err e) h = rw (h, look_up, answer) (c, refl, refl)
      by_match (ok e) h =
          rw (h, look_up, answer) (set-agree s (normalize_route_key dst) e c h, refl, refl)

  get-IsCoherent :
      (s : Router lib) (key : Bytes)
      → IsCoherent s
      → IsCoherent (record s { table = (get s.table key).0 })
  get-IsCoherent s key c =
      let gets = get-Gets s.table key c.valid in
      record { valid = gets.valid; agree = λ k e h. c.agree k e (sym (gets.reads k) ∙ h) }

  -- The key that the routes are asked for: on a hit it is the table's key, else that key
  -- normalized again.
  asked : Option Egress → Bytes → Bytes
  asked none key = normalize_route_key key
  asked (some e) key = key

  asked_stable :
      (found : Option Egress) (key : Bytes) → normalize_route_key key ≡ key → asked found key ≡ key
  unfolding asked
  asked_stable none key h = h
  asked_stable (some e) key h = refl

  get_route-Answers :
      (s : Router lib) (proxy_up : Bool) (dst : Bytes)
      → IsCoherent s
      → Answers s proxy_up
          (asked (get s.table (normalize_route_key dst)).1 (normalize_route_key dst))
          (get_route lib s proxy_up dst)
  unfolding get_route answer asked
  get_route-Answers s proxy_up dst c = by_table (get s.table key).1 refl
    where
      key : Bytes
      key = normalize_route_key dst

      by_table :
          (found : Option Egress)
          → (get s.table (normalize_route_key dst)).1 ≡ found
          → Answers s proxy_up
              (asked (get s.table (normalize_route_key dst)).1 (normalize_route_key dst))
              (get_route lib s proxy_up dst)
      by_table (some e) h =
          let gets = get-Gets s.table (normalize_route_key dst) c.valid in
          let hit = c.agree (normalize_route_key dst) e (sym gets.result ∙ h) in
          rw (h, get_route, asked) (get-IsCoherent s (normalize_route_key dst) c, refl, rw hit)
      by_table none h =
          rw (h, get_route, asked)
            (look_up-Answers (record s { table = (get s.table (normalize_route_key dst)).0 })
              proxy_up (normalize_route_key dst) (get-IsCoherent s (normalize_route_key dst) c))

  -- The calls of the package's functions. A commit installs routes built from an earlier snapshot.
  pub data Call : Type 0 where
    set_to : Routes lib → Call
    add_first add_last : Option (Route lib) → Call
    route_for : Bool → Bytes → Call
    commit_of : ℕ → Routes lib → Call

  pub after : Router lib → Call → Router lib
  after s (set_to rs) = (set_routes lib s rs).0
  after s (add_first r) = (add_to_first_route lib s r).0
  after s (add_last r) = (add_to_last_route lib s r).0
  after s (route_for proxy_up dst) = (get_route lib s proxy_up dst).0
  after s (commit_of version rs) = (commit lib s version rs).0

  pub run : Router lib → List Call → Router lib
  run s [] = s
  run s (call ∷ calls) = run (after s call) calls

  -- Either nothing changes, or the routes are replaced.
  on_result :
      (s : Router lib) (m : Result Error (Routes lib)) (f : Routes lib → Routes lib)
      → IsCoherent s
      → IsCoherent (
          let r : Router lib × Result Error (Unit {0}) = elim m [
            | err e ↦ (s, err e)
            | ok prepared ↦ (replace lib s (f prepared), ok tt)
          ] in
          r.0)
  on_result s (err e) f c = c
  on_result s (ok prepared) f c = replace-IsCoherent s (f prepared) c

  commit-IsCoherent :
      (s : Router lib) (version : ℕ) (rs : Routes lib)
      → IsCoherent s
      → IsCoherent (commit lib s version rs).0
  unfolding commit
  commit-IsCoherent s version rs c = elim (Bool-cases (version == s.version)) [
    | inl current ↦ rw (current, commit) (replace-IsCoherent s rs c)
    | inr stale ↦ rw (stale, commit) c
  ]

  after-IsCoherent : (s : Router lib) (call : Call) → IsCoherent s → IsCoherent (after s call)
  unfolding after set_routes add_to_first_route add_to_last_route
  after-IsCoherent s (set_to rs) c = on_result s (prepare_routes lib rs) (λ p. p) c
  after-IsCoherent s (add_first r) c =
      on_result s (prepare_routes lib (r ∷ [])) (λ p. p ++ s.routes) c
  after-IsCoherent s (add_last r) c =
      on_result s (prepare_routes lib (r ∷ [])) (λ p. s.routes ++ p) c
  after-IsCoherent s (route_for proxy_up dst) c = (get_route-Answers s proxy_up dst c).0
  after-IsCoherent s (commit_of version rs) c = commit-IsCoherent s version rs c

  pub run-IsCoherent :
      (s : Router lib) (calls : List Call) → IsCoherent s → IsCoherent (run s calls)
  unfolding run
  run-IsCoherent s [] c = c
  run-IsCoherent s (call ∷ calls) c =
      run-IsCoherent (after s call) calls (after-IsCoherent s call c)

  pub get_route-answer :
      (s : Router lib) (proxy_up : Bool) (dst : Bytes)
      → IsCoherent s
      → normalize_route_key (normalize_route_key dst) ≡ normalize_route_key dst
      → (get_route lib s proxy_up dst).1 ≡ answer s proxy_up (normalize_route_key dst)
  get_route-answer s proxy_up dst c stable =
      let key = normalize_route_key dst in
      (get_route-Answers s proxy_up dst c).2
      ∙ ap (answer s proxy_up) (asked_stable (get s.table key).1 key stable)

  -- After any calls of the package's functions, in any order, `GetRoute` of a destination whose key
  -- normalizes to itself gives the transport of the first route that matches the key, or the
  -- error that the routes give, whatever the table holds; and it leaves the routes as they are.
  pub get_route-transparent :
      (calls : List Call) (proxy_up : Bool) (dst : Bytes)
      → normalize_route_key (normalize_route_key dst) ≡ normalize_route_key dst
      → ((get_route lib (run (start lib) calls) proxy_up dst).1
          ≡ answer (run (start lib) calls) proxy_up (normalize_route_key dst))
        × ((get_route lib (run (start lib) calls) proxy_up dst).0.routes
            ≡ (run (start lib) calls).routes)
  get_route-transparent calls proxy_up dst stable =
      let s = run (start lib) calls in
      let key = normalize_route_key dst in
      let (_, kept, answered) =
        get_route-Answers s proxy_up dst (run-IsCoherent (start lib) calls start-IsCoherent) in
      (answered ∙ ap (answer s proxy_up) (asked_stable (get s.table key).1 key stable), kept)
