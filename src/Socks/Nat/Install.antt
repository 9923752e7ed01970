-- ===== src/Socks/Nat/Install.antt =====
-- What `Install` does: it keeps the table within its limit, and evicts an entry seen least recently.
use spaceship.Base.{
  ℕ, ◌≤◌, ◌<◌, ◌≢◌, ◌⊎◌, inl, inr, true, false, [], ◌∷◌, Option, none, some, ◌≡◌, refl, arith,
  Bytes, same_iff, same_refl, lookup, insert, remove, IsMap, length, ltb, leb, ◌&&◌, lookup-insert,
  lookup-remove, insert-IsMap, remove-IsMap, length-insert_new, length-remove, Bool-cases,
}
use spaceship.Socks.Nat.{Entry, Table, oldest_from, make_room, install, Installed}

-- No entry of the table was seen before `seen`.
abbrev pub NoneOlder : ℕ → Table → Type 0
NoneOlder seen t = (k : Bytes) (e : Entry) → lookup k t ≡ some e → seen ≤ e.last_seen

in_cons :
    (k : Bytes) (e : Entry) (t : Table) (old : Bytes × Entry)
    → lookup k t ≡ none
    → (old ≡ (k, e)) ⊎ (lookup old.0 t ≡ some old.1)
    → lookup old.0 ((k, e) ∷ t) ≡ some old.1
unfolding lookup
in_cons k e t old d h = ground (arith, same_iff k old.0)

later :
    (k : Bytes) (e : Entry) (t : Table) (best old : Bytes × Entry)
    → lookup k t ≡ none
    → (old ≡ best) ⊎ (lookup old.0 t ≡ some old.1)
    → (old ≡ best) ⊎ (lookup old.0 ((k, e) ∷ t) ≡ some old.1)
later k e t best old d (inl h) = inl h
later k e t best old d (inr h) = inr (in_cons k e t old d (inr h))

-- The candidate that the loop ends with: no entry of the rest, nor the first candidate, is older.
record IsLeastSeen (best : Bytes × Entry) (t : Table) (old : Bytes × Entry) : Type 0 where
  found : oldest_from (some best) t ≡ some old
  le_best : old.1.last_seen ≤ best.1.last_seen
  none_older : NoneOlder old.1.last_seen t
  origin : (old ≡ best) ⊎ (lookup old.0 t ≡ some old.1)

oldest_from-IsLeastSeen :
    (best : Bytes × Entry) (t : Table) → IsMap t → (old : Bytes × Entry) × IsLeastSeen best t old
unfolding oldest_from lookup
oldest_from-IsLeastSeen best [] d = (
  best,
  record { found = refl; le_best = omega arith; none_older = λ k e h. cc; origin = inl refl },
)
oldest_from-IsLeastSeen best ((k, e) ∷ t) d = elim (Bool-cases (ltb e.last_seen best.1.last_seen)) [
  | inl older ↦
      let (old, o) = oldest_from-IsLeastSeen (k, e) t d.1 in
      (
        old,
        record {
          found = rw older o.found;
          le_best = ground (arith, o.le_best);
          none_older = λ k' e' h. ground (arith, o.le_best, o.none_older k' e');
          origin = inr (in_cons k e t old d.0 o.origin);
        },
      )
  | inr newer ↦
      let (old, o) = oldest_from-IsLeastSeen best t d.1 in
      (
        old,
        record {
          found = rw newer o.found;
          le_best = o.le_best;
          none_older = λ k' e' h. ground (arith, o.le_best, o.none_older k' e');
          origin = later k e t best old d.0 o.origin;
        },
      )
]

-- What `make_room` leaves: nothing changes, or the entry of one key is gone, and none is older.
pub data Room (t : Table) (limit : ℕ) : Table × Option Entry → Type 0 where
  kept : (limit ≡ 0) ⊎ (length t < limit) → Room t limit (t, none)
  freed :
      (k : Bytes) (old : Entry)
      → limit ≤ length t
      → lookup k t ≡ some old
      → NoneOlder old.last_seen t
      → Room t limit (remove k t, some old)

full-Room :
    (x : Bytes × Entry) (t : Table) (limit : ℕ)
    → limit ≤ length (x ∷ t)
    → IsMap (x ∷ t)
    → (old : Bytes × Entry) × (oldest_from (some x) t ≡ some old)
      × Room (x ∷ t) limit (remove old.0 (x ∷ t), some old.1)
unfolding lookup
full-Room (k, e) t limit h d =
    let (old, o) = oldest_from-IsLeastSeen (k, e) t d.1 in
    (
      old,
      o.found,
      freed old.0 old.1 h (in_cons k e t old d.0 o.origin)
          (λ k' e' found. ground (arith, o.le_best, o.none_older k' e')),
    )

make_room-Room : (t : Table) (limit : ℕ) → IsMap t → Room t limit (make_room t limit)
unfolding make_room oldest_from
make_room-Room [] limit d =
    let fits : (ltb 0 limit && leb limit 0) ≡ false = ground arith in rw fits (kept (ground arith))
make_room-Room (x ∷ t) limit d = elim (Bool-cases (ltb 0 limit && leb limit (length (x ∷ t)))) [
  | inr fits ↦ rw fits (kept (ground arith))
  | inl full ↦
      let (old, found, room) = full-Room x t limit (ground arith) d in rw (full, found) room
]

-- What `Install` does at a new key.
pub record InstallsNew (t : Table) (key : Bytes) (entry : Entry) (limit : ℕ) (r : Installed)
    : Type 0 where
  pub told : (r.installed ≡ true) × (r.actual ≡ entry)
  pub stored : lookup key r.table ≡ some entry
  pub is_map : IsMap r.table
  pub within : 0 < limit → length t ≤ limit → length r.table ≤ limit
  pub others :
      (j : Bytes)
      → j ≢ key
      → (lookup j r.table ≡ lookup j t) ⊎ ((lookup j t ≡ r.evicted) × (lookup j r.table ≡ none))
  pub evicted_oldest : (old : Entry) → r.evicted ≡ some old → NoneOlder old.last_seen t
  pub evicted_full : r.evicted ≢ none → limit ≤ length t

installed_in :
    (t : Table) (key : Bytes) (entry : Entry) (limit : ℕ) (room : Table × Option Entry)
    → IsMap t
    → lookup key t ≡ none
    → Room t limit room
    → InstallsNew t key entry limit (record {
      table = insert key entry room.0;
      actual = entry;
      evicted = room.1;
      installed = true;
    })
installed_in t key entry limit room d absent (kept fits) = record {
  told = (refl, refl);
  stored = rw (lookup-insert key key entry t, same_refl key);
  is_map = insert-IsMap key entry t d;
  within = λ h k. ground (arith, length-insert_new key entry t absent);
  others = λ j ne. inl (ground (arith, lookup-insert key j entry t, same_iff key j));
  evicted_oldest = λ old h. cc;
  evicted_full = λ h. absurd (h refl);
}
installed_in t key entry limit room d absent (freed k old full found none_older) = record {
  told = (refl, refl);
  stored = rw (lookup-insert key key entry (remove k t), same_refl key);
  is_map = insert-IsMap key entry (remove k t) (remove-IsMap k t d);
  within = λ h size. ground (
    arith,
    length-insert_new key entry (remove k t),
    lookup-remove k key t,
    length-remove k t old d found,
  );
  others = λ j ne. ground (
    arith,
    lookup-insert key j entry (remove k t),
    lookup-remove k j t,
    same_iff key j,
    same_iff k j,
  );
  evicted_oldest = λ old' h k' e' found'. ground (arith, none_older k' e');
  evicted_full = λ h. full;
}

-- At a key that the table does not hold, its keys being distinct, `Install` stores the entry under
-- the key and says so. The table stays within a positive limit that it was within. Every other key
-- keeps its entry, but for the one that is evicted; an entry is evicted only from a full table,
-- and none in the table was seen before it.
pub install-InstallsNew :
    (t : Table) (key : Bytes) (entry : Entry) (limit : ℕ)
    → IsMap t
    → lookup key t ≡ none
    → InstallsNew t key entry limit (install t key entry limit)
unfolding install
install-InstallsNew t key entry limit d absent =
    rw (absent, install)
      (installed_in t key entry limit (make_room t limit) d absent (make_room-Room t limit d))
