-- ===== src/Socks/Relay/Installs.antt =====
-- The critical section of `Install` keeps the relay's invariant.
use spaceship.Base.{
  ℕ, inl, inr, false, List, ◌∷◌, Option, none, some, ◌≡◌, refl, sym, ◌∙◌, arith, Bytes, lookup,
  ◌==◌, Bool-cases, Option-cases, same, same_iff,
}
use spaceship.Socks.Nat.Install.{install-InstallsNew, InstallsNew}
use spaceship.Socks.Nat.{Entry, Table, Installed, install}
use spaceship.Socks.Relay.Ids.{serves, serves_at, serves-leave}
use spaceship.Socks.Relay.Steps.{
  Accounts, Places, Inv, left_over, at_stage, closing-close_entry, close_entry-Accounts,
  close_entry-Places,
}
use spaceship.Socks.Relay.{
  Relay, Flow, has, leave, close_entry, close_evicted, install_flow, or_default,
  default_max_nat_entries,
}

abbrev gone_of : Option Entry → List ℕ → List ℕ
gone_of none gone = gone
gone_of (some old) gone = old.id ∷ gone

close_evicted-Accounts :
    (others : ℕ) (r : Relay) (o : Option Entry)
    → Accounts others r
    → Accounts others (close_evicted r o)
unfolding close_evicted
close_evicted-Accounts others r none a = a
close_evicted-Accounts others r (some old) a = close_entry-Accounts others r old a

closing-close_evicted : (r : Relay) (o : Option Entry) → (close_evicted r o).closing ≡ r.closing
unfolding close_evicted
closing-close_evicted r none = refl
closing-close_evicted r (some old) = closing-close_entry r old

close_evicted-Places :
    (gone : List ℕ) (r : Relay) (o : Option Entry)
    → Places (gone_of o gone) r
    → Places gone (close_evicted r o)
unfolding close_evicted
close_evicted-Places gone r none p = p
close_evicted-Places gone r (some old) p = close_entry-Places gone r old p

outside :
    (j : ℕ) (gone : List ℕ) (o : Option Entry) → has j (gone_of o gone) ≡ false → has j gone ≡ false
unfolding has
outside j gone none h = h
outside j gone (some old) h = ground arith

-- Closing an entry leaves the stages alone.
installed_moves :
    (r : Relay) (o : Option Entry) (f : Flow)
    → record (close_evicted r o) { installed = f ∷ (close_evicted r o).installed }
      ≡ close_evicted (record r { installed = f ∷ r.installed }) o
unfolding close_evicted close_entry
installed_moves r none f = refl
installed_moves r (some old) f = elim (Bool-cases (has old.id r.live)) [
  | inl held ↦ simp held
  | inr gone ↦ simp gone
]

new-Places :
    (gone : List ℕ) (r : Relay) (key : Bytes) (entry : Entry) (limit : ℕ) (i : Installed)
    → lookup key r.table ≡ none
    → InstallsNew r.table key entry limit i
    → Places gone r
    → Places (gone_of i.evicted gone) (record r {
      table = i.table;
      dialed = leave (key, entry) r.dialed;
      installed = (key, entry) ∷ r.installed;
    })
unfolding serves serves_at has
new-Places gone r key entry limit i absent n p = record {
  is_map = n.is_map;
  agrees = p.agrees;
  covered = λ j h g. elim (Bool-cases (entry.id == j)) [
    | inl same_id ↦ inr (key, entry, n.stored, ground arith)
    | inr other_id ↦ elim (p.covered j h (outside j gone i.evicted g)) [
      | inl s ↦ inl (serves-leave j (key, entry) r.dialed s (ground arith))
      | inr (k, e, found, id) ↦ elim (n.others k (λ at_key. ground arith)) [
        | inl keeps ↦ inr (k, e, keeps ∙ found, id)
        | inr (ev, lost) ↦ absurd (ground arith)
      ]
    ]
  ];
  after_drain = λ over k e found. elim (Bool-cases (same key k)) [
    | inl at_key ↦ ground (arith, same_iff key k, n.stored)
    | inr elsewhere ↦ elim (n.others k (λ e. ground (arith, same_iff key k))) [
      | inl keeps ↦ ground (arith, p.after_drain over k e (sym keeps ∙ found))
      | inr (ev, lost) ↦ absurd (ground arith)
    ]
  ];
}

-- The table already has the key: the second entry is closed.
known-Places :
    (gone : List ℕ) (r : Relay) (key : Bytes) (entry : Entry)
    → Places gone r
    → Places (entry.id ∷ gone) (record r { dialed = leave (key, entry) r.dialed })
unfolding has
known-Places gone r key entry p = record {
  is_map = p.is_map;
  covered = λ j h g. elim (p.covered j h (ground arith)) [
    | inl s ↦ inl (serves-leave j (key, entry) r.dialed s (ground arith))
    | inr c ↦ inr c
  ];
  agrees = p.agrees;
  after_drain = p.after_drain;
}

install_known :
    (t : Table) (key : Bytes) (entry current : Entry) (limit : ℕ)
    → lookup key t ≡ some current
    → install t key entry limit
      ≡ record { table = t; actual = current; evicted = none; installed = false }
unfolding install
install_known t key entry current limit h = rw (h, install)

pub install-Inv :
    (others : ℕ) (r : Relay) (f : Flow) → Inv others r → Inv others (install_flow r f).0
unfolding install_flow
install-Inv others r (key, entry) v = elim (Option-cases (lookup key r.table)) [
  | inr (current, known) ↦
      let same_table =
        install_known r.table key entry current
          (or_default r.max_nat_entries default_max_nat_entries) known in
      let left = record r { dialed = leave (key, entry) r.dialed } in
      simp same_table (
        unfold close_evicted in
        record {
          accounts = close_entry-Accounts others left entry (record {
            distinct = v.accounts.distinct;
            fresh = v.accounts.fresh;
            agreed = v.accounts.agreed;
            limiter = v.accounts.limiter;
          });
          places = at_stage (close_entry left entry) r.closing (closing-close_entry left entry) (
              close_entry-Places (left_over r.closing) left entry
                (known-Places (left_over r.closing) r key entry v.places));
        })
  | inl absent ↦
      let limit = or_default r.max_nat_entries default_max_nat_entries in
      let i = install r.table key entry limit in
      let n = install-InstallsNew r.table key entry limit v.places.is_map absent in
      let stored = record r { table = i.table; dialed = leave (key, entry) r.dialed } in
      let listed = record stored { installed = (key, entry) ∷ r.installed } in
      let done : Inv others (close_evicted listed i.evicted) = record {
        accounts = close_evicted-Accounts others listed i.evicted (record {
          distinct = v.accounts.distinct;
          fresh = v.accounts.fresh;
          agreed = v.accounts.agreed;
          limiter = v.accounts.limiter;
        });
        places =
            at_stage (close_evicted listed i.evicted) r.closing
              (closing-close_evicted listed i.evicted)
              (close_evicted-Places (left_over r.closing) listed i.evicted
                (new-Places (left_over r.closing) r key entry limit i absent n v.places));
      } in
      simp (n.told.0, installed_moves stored i.evicted (key, entry)) done
]
