-- ===== src/Config/Users.antt =====
-- `Users` and `UsersMatchMap` of pkg/config/server/user.go. A pointer to a user can be nil, and reading
-- one is a panic, `none`.
use spaceship.Base.{
  Bool, true, false, List, [], ◌∷◌, Option, none, some, Bytes, same, lookup, insert, if◌then◌else◌,
}

pub record User : Type 0 where
  pub uuid : Bytes

abbrev pub Users : Type 0
Users = List (Option User)

-- `Users.Match` ends at the first match.
unfoldable pub match_list : Users → Bytes → Option Bool
match_list [] id = some false
match_list (none ∷ us) id = none
match_list (some u ∷ us) id =
    let rest = match_list us id in if same u.uuid id then some true else rest

-- The keys of the map.
abbrev pub MatchMap : Type 0
MatchMap = List (Bytes × Unit {0})

unfoldable pub add_users : MatchMap → Users → Option MatchMap
add_users m [] = some m
add_users m (none ∷ us) = none
add_users m (some u ∷ us) = add_users (insert u.uuid tt m) us

unfoldable pub new_users_match_map : Users → Option MatchMap
new_users_match_map = add_users []

abbrev pub is_some : Option (Unit {0}) → Bool
is_some none = false
is_some (some _) = true

unfoldable pub match_map : MatchMap → Bytes → Bool
match_map m id = is_some (lookup id m)
