-- ===== src/Rpc/Server/Access.antt =====
-- `extractAndValidateUserID` of internal/transport/rpc/interceptor.go and the interceptors of the
-- server, with the users of the configuration.
use spaceship.Base.{
  Bool, true, false, List, [], ◌∷◌, ◌++◌, map, ap, sym, ◌∙◌, ◌||◌, Option, none, some, ◌≡◌, refl,
  Bytes, same, lookup, insert, lookup-insert, if◌then◌else◌, Result, ok, err, Bool-cases, inl, inr,
  ◌>>=◌,
}
use spaceship.Config.Users.{
  User, match_list, add_users, MatchMap, match_map, is_some, new_users_match_map,
}
use spaceship.Hosts.{is_empty}

pub data AuthError : Type 0 where
  missing_metadata missing_user_id unknown_user : AuthError

-- The values of the key `x-user-id`; no metadata is `none`.
unfoldable pub extract_and_validate_user_id :
    (Bytes → Bool) → Option (List Bytes) → Result AuthError Bytes
extract_and_validate_user_id match_user none = err missing_metadata
extract_and_validate_user_id match_user (some []) = err missing_user_id
extract_and_validate_user_id match_user (some (uid ∷ _)) =
    if is_empty uid
    then err missing_user_id
    else if match_user uid
    then ok uid
    else err unknown_user

-- The interceptors: the handler gets the id and runs behind the check.
unfoldable pub intercept :
    {A : Type 0}
    → (Bytes → Bool)
    → Option (List Bytes)
    → (Bytes → Result AuthError A)
    → Result AuthError A
intercept match_user metadata handler = do
  uid ← extract_and_validate_user_id match_user metadata
  handler uid

-- The client's interceptors append its id to the metadata.
unfoldable pub attach_user : Bytes → List Bytes → List Bytes
attach_user uuid values = values ++ uuid ∷ []

listed : List User → Bytes → Bool
listed [] id = false
listed (u ∷ us) id = let rest = listed us id in same u.uuid id || rest

match_list-listed :
    (us : List User) (id : Bytes) → match_list (map some us) id ≡ some (listed us id)
unfolding match_list listed
match_list-listed [] id = refl
match_list-listed (u ∷ us) id = elim (Bool-cases (same u.uuid id)) [
  | inl e ↦ rw (e, match_list, listed) refl
  | inr e ↦ rw (e, match_list, listed) (match_list-listed us id)
]

match_map-insert :
    (m : MatchMap) (k id : Bytes) → match_map (insert k tt m) id ≡ same k id || match_map m id
unfolding match_map
match_map-insert m k id =
    ap is_some (lookup-insert k id tt m)
    ∙ (elim (Bool-cases (same k id)) [ inl e ↦ rw e refl | inr e ↦ rw e refl ])

or_false : (b : Bool) → b || false ≡ b
or_false true = refl
or_false false = refl

or_assoc : (a b c : Bool) → b || (a || c) ≡ (a || b) || c
or_assoc true true c = refl
or_assoc true false c = refl
or_assoc false b c = refl

add_users-listed :
    (us : List User) (m : MatchMap)
    → (m' : MatchMap) × (add_users m (map some us) ≡ some m')
      × ((id : Bytes) → match_map m' id ≡ listed us id || match_map m id)
unfolding add_users listed
add_users-listed [] m = (m, refl, λ id. refl)
add_users-listed (u ∷ us) m =
    let (m', made, has) = add_users-listed us (insert u.uuid tt m) in
    (
      m',
      made,
      λ id.
          has id
          ∙ ap (λ b. listed us id || b) (match_map-insert m u.uuid id)
          ∙ or_assoc (same u.uuid id) (listed us id) (match_map m id),
    )

-- For users that are not nil the map is made, and matches as the list does; and a call with the
-- client's metadata reaches the handler, with the user's id, exactly if the id is a user's and not
-- empty.
pub intercept-users :
    {A : Type 0} (us : List User)
    → (m : MatchMap) × (new_users_match_map (map some us) ≡ some m)
      × ((id : Bytes) → match_list (map some us) id ≡ some (match_map m id))
      × ((id : Bytes) (handler : Bytes → Result AuthError A)
          → intercept (match_map m) (some (attach_user id [])) handler ≡ (
              if is_empty id
              then err missing_user_id
              else if match_map m id
              then handler id
              else err unknown_user))
unfolding new_users_match_map attach_user intercept extract_and_validate_user_id match_map listed
    lookup
intercept-users us =
    let (m, made, has) = add_users-listed us [] in
    (
      m,
      made,
      λ id. match_list-listed us id ∙ ap some (sym (has id ∙ or_false (listed us id))),
      λ id handler. elim (Bool-cases (is_empty id)) [
        | inl e ↦ rw e refl
        | inr e ↦ elim (Bool-cases (match_map m id)) [
          | inl k ↦ rw (e, k) refl
          | inr k ↦ rw (e, k) refl
        ]
      ],
    )
