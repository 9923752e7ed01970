-- ===== src/Tests/Routing.antt =====
-- The router and the host names at concrete inputs.
use spaceship.Base.{
  ℕ, ◌↔◌, true, false, List, [], ◌∷◌, ◌++◌, map, reverse, none, some, ◌≡◌, refl, arith, Bytes,
  codes, same, lookup, IsMap, ok,
}
use spaceship.Hosts.Normal.{NoSpace}
use spaceship.Hosts.{
  normalize_host, to_lower, is_space, trim_space, trim_left, trim_right, is_dot, lower,
}
use spaceship.Router.Egress.{Egress}
use spaceship.Router.Route.Build.{ShouldMatch, generated-match_iff}
use spaceship.Router.Route.{
  Lib, Route, MatchType, hosts_of, all_sources, cache_of, no_cache, generate_cache, route_match,
}
use spaceship.Router.State.Coherent.{Call, set_to, route_for, run, answer, get_route-transparent}
use spaceship.Router.State.{Router, Routes, start, get_route, normalize_route_key}
use spaceship.Router.Table.Evict.{clear, Evicts, evict-Evicts, evict-second_chance, marks}
use spaceship.Router.Table.Set.{Sets, set-Sets, new-IsValid}
use spaceship.Router.Table.{RoutesTable, Slot, new_synced_routes_table, delete, evict, set}

-- Patterns match only themselves, no text is an address, and there are no files.
abbrev lib : Lib
lib = record {
  Regexp = Bytes;
  Prefix = Bytes;
  Addr = Bytes;
  compile = some;
  match_string = same;
  parse_prefix = some;
  parse_addr = λ _. none;
  contains = same;
  read_lines = λ _. none;
}

abbrev site : Bytes
site = codes "a.b"

abbrev rule : Route lib
rule = record {
  sources = codes "A.b." ∷ [];
  ext = [];
  destination = Egress.proxy;
  match_type = MatchType.domain;
  cache = no_cache lib;
}

abbrev built_rule : Route lib
built_rule = record rule { cache = record (no_cache lib) { domain_map = some (site ∷ []) } }

abbrev calls : List (Call lib)
calls = set_to (some rule ∷ []) ∷ route_for true site ∷ []

site_stable : normalize_route_key (normalize_route_key site) ≡ normalize_route_key site
unfolding normalize_route_key normalize_host trim_space trim_left trim_right is_space is_dot
    to_lower lower
site_stable = refl

get_route-transparent_example :
    ((get_route lib (run lib (start lib) calls) true site).1
      ≡ answer lib (run lib (start lib) calls) true (normalize_route_key site))
    × ((get_route lib (run lib (start lib) calls) true site).0.routes
        ≡ (run lib (start lib) calls).routes)
get_route-transparent_example = get_route-transparent lib calls true site site_stable

built : generate_cache lib rule ≡ ok built_rule
unfolding generate_cache all_sources cache_of hosts_of normalize_host trim_space trim_left
    trim_right is_space is_dot to_lower lower
built = refl

rule_sources : all_sources lib rule ≡ ok (codes "A.b." ∷ [])
unfolding all_sources
rule_sources = refl

generated-match_iff_example :
    (route_match lib built_rule (codes "x.a.b") ≡ true)
    ↔ ShouldMatch lib (codes "A.b." ∷ []) (normalize_host (codes "x.a.b"))
generated-match_iff_example =
    generated-match_iff lib rule built_rule (codes "A.b." ∷ []) (codes "x.a.b") refl rule_sources
      built

abbrev router : Router lib
router = record { routes = []; version = 7; table = new_synced_routes_table 3 }

abbrev change_once : List (Routes lib)
change_once = (some built_rule ∷ []) ∷ []

site-NoSpace : NoSpace site
unfolding is_space
site-NoSpace = (refl, (refl, (refl, tt)))

abbrev cold : Slot
cold = record { egress = Egress.direct; referenced = false }

abbrev hot : Slot
hot = record { egress = Egress.proxy; referenced = true }

abbrev key : ℕ → Bytes
key n = n ∷ []

-- A full table: one entry at the back was read, those before it were not.
abbrev full : RoutesTable
full = record {
  cache = key 1 ∷ key 2 ∷ key 3 ∷ [];
  lru_list = (key 3, cold) ∷ (key 2, cold) ∷ (key 1, hot) ∷ [];
  max_size = 3;
}

full-IsMap : IsMap full.lru_list
unfolding lookup same
full-IsMap = (refl, (refl, (refl, tt)))

full-marks : marks full.lru_list ≡ 1
unfolding marks
full-marks = refl

evict-Evicts_example : (victim : Bytes) × Evicts full (evict 4 full) victim
evict-Evicts_example = evict-Evicts 4 full (omega (arith, full-marks)) (λ e. cc) full-IsMap

evict-second_chance_example :
    evict 2 (record full {
      lru_list = ((key 3, cold) ∷ []) ++ (key 2, cold) ∷ reverse ((key 1, hot) ∷ []);
    })
    ≡ record full {
      cache = delete (key 2) full.cache;
      lru_list = map clear (reverse ((key 1, hot) ∷ [])) ++ (key 3, cold) ∷ [];
    }
evict-second_chance_example =
    evict-second_chance 2 full ((key 3, cold) ∷ []) ((key 1, hot) ∷ []) (key 2) cold refl (refl, tt)
      (omega arith)

abbrev small : RoutesTable
small = new_synced_routes_table 2

set-Sets_example : Sets small site Egress.proxy (set small site Egress.proxy)
set-Sets_example = set-Sets small site Egress.proxy (new-IsValid 2)
