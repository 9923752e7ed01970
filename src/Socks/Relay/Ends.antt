-- ===== src/Socks/Relay/Ends.antt =====
-- The second look at `done`, the end of a flow and `Close` keep the relay's invariant.
use spaceship.Base.{
  sym, ◌∙◌, ap, subst, ℕ, ◌≢◌, inl, inr, Bool, true, false, ◌&&◌, List, [], ◌∷◌, some, ◌≡◌, refl,
  arith, Bytes, lookup, IsMap, ◌==◌, if◌then◌else◌, Bool-cases, Option-cases, same, same_iff,
  lookup-remove, remove-IsMap,
}
use spaceship.Socks.Nat.{Entry, Table, delete_if, drain}
use spaceship.Socks.Relay.Ids.{serves_at-leave}
use spaceship.Socks.Relay.Steps.{
  Places, Inv, close_entry-Accounts, close_entry-Places, closing-close_entry, at_stage, left_over,
  ids, is_closing, is_drained,
}
use spaceship.Socks.Relay.{
  Relay, Reply, Flow, has, leave, close_entry, recheck_flow, finish_flow, close_done, drain_table,
  close_next, release_association, Closing, not_closing, closing_done, closing_entries, has_closed,
}

-- `DeleteIf` takes away the entry alone, and only from its key.
delete_if-IsMap : (t : Table) (key : Bytes) (e : Entry) → IsMap t → IsMap (delete_if t key e).0
unfolding delete_if
delete_if-IsMap t key e d = elim (Option-cases (lookup key t)) [
  | inl absent ↦ rw (absent, delete_if) d
  | inr (c, present) ↦ elim (Bool-cases (c.id == e.id)) [
    | inl same_id ↦ rw (present, same_id, delete_if) (remove-IsMap key t d)
    | inr other ↦ rw (present, other, delete_if) d
  ]
]

lookup-delete_if :
    (t : Table) (key k : Bytes) (e x : Entry)
    → lookup k t ≡ some x
    → x.id ≢ e.id
    → lookup k (delete_if t key e).0 ≡ some x
unfolding delete_if
lookup-delete_if t key k e x h n = ground (arith, lookup-remove key k t, same_iff key k)

lookup_of_delete_if :
    (t : Table) (key k : Bytes) (e x : Entry)
    → lookup k (delete_if t key e).0 ≡ some x
    → (lookup k t ≡ some x) × ((same key k && e.id == x.id) ≡ false)
unfolding delete_if
lookup_of_delete_if t key k e x h = ground (arith, lookup-remove key k t, same_iff key k)

-- A goroutine that finds the relay done takes its entry out and closes it.
recheck-Places :
    (gone : List ℕ) (r : Relay) (key : Bytes) (entry : Entry)
    → Places gone r
    → Places (entry.id ∷ gone) (record r {
      installed = leave (key, entry) r.installed;
      table = (delete_if r.table key entry).0;
    })
unfolding has
recheck-Places gone r key entry p = record {
  is_map = delete_if-IsMap r.table key entry p.is_map;
  covered = λ i h g. elim (p.covered i h (ground arith)) [
    | inl s ↦ inl s
    | inr (k, e, found, id) ↦
        inr (k, e, lookup-delete_if r.table key k entry e found (ground arith), id)
  ];
  agrees = p.agrees;
  after_drain = λ over k e found.
      let (before, other) = lookup_of_delete_if r.table key k entry e found in
      serves_at-leave k e.id (key, entry) r.installed (p.after_drain over k e before) other;
}

finish-Places :
    (gone : List ℕ) (r : Relay) (key : Bytes) (entry : Entry)
    → Places gone r
    → Places (entry.id ∷ gone) (record r {
      table = (delete_if r.table key entry).0;
      serving = leave (key, entry) r.serving;
    })
unfolding has
finish-Places gone r key entry p = record {
  is_map = delete_if-IsMap r.table key entry p.is_map;
  covered = λ i h g. elim (p.covered i h (ground arith)) [
    | inl s ↦ inl s
    | inr (k, e, found, id) ↦
        inr (k, e, lookup-delete_if r.table key k entry e found (ground arith), id)
  ];
  agrees = p.agrees;
  after_drain =
      λ over k e found. p.after_drain over k e (lookup_of_delete_if r.table key k entry e found).0;
}

not_drained : (c : Closing) → is_closing c ≡ false → is_drained c ≡ true → ⊥
not_drained not_closing h k = cc
not_drained closing_done h k = cc
not_drained (closing_entries es) h k = cc
not_drained has_closed h k = cc

not_begun : (c : Closing) → is_closing c ≡ false → left_over c ≡ []
not_begun not_closing h = refl
not_begun closing_done h = refl
not_begun (closing_entries es) h = absurd (cc)
not_begun has_closed h = refl

if_relay {ℓ} : (P : Relay → Type ℓ) (b : Bool) (x y : Relay) → P x → P y → P (if b then x else y)
if_relay P true x y t f = t
if_relay P false x y t f = f

if_by {ℓ} :
    (P : Relay → Type ℓ) (b : Bool) (x y : Relay)
    → (b ≡ true → P x)
    → (b ≡ false → P y)
    → P (if b then x else y)
if_by P true x y t f = t refl
if_by P false x y t f = f refl

if_first {ℓ} :
    (P : Relay → Type ℓ) (b : Bool) (x y : Relay × Reply)
    → (b ≡ true → P x.0)
    → (b ≡ false → P y.0)
    → P (if b then x else y).0
if_first P true x y t f = t refl
if_first P false x y t f = f refl

pub recheck-Inv :
    (others : ℕ) (r : Relay) (f : Flow) → Inv others r → Inv others (recheck_flow r f).0
unfolding recheck_flow
recheck-Inv others r (key, entry) v =
    let left = record r {
      installed = leave (key, entry) r.installed;
      table = (delete_if r.table key entry).0;
    } in
    if_first (Inv others) r.done _ _
      (λ over. record {
        accounts = close_entry-Accounts others left entry (record {
          distinct = v.accounts.distinct;
          fresh = v.accounts.fresh;
          agreed = v.accounts.agreed;
          limiter = v.accounts.limiter;
        });
        places = at_stage (close_entry left entry) r.closing (closing-close_entry left entry) (
            close_entry-Places (left_over r.closing) left entry
              (recheck-Places (left_over r.closing) r key entry v.places));
      })
      (λ running. record {
        accounts = record {
          distinct = v.accounts.distinct;
          fresh = v.accounts.fresh;
          agreed = v.accounts.agreed;
          limiter = v.accounts.limiter;
        };
        places = record {
          is_map = v.places.is_map;
          covered = v.places.covered;
          agrees = v.places.agrees;
          after_drain = λ over. absurd (
              let unclosed : is_closing r.closing ≡ false = sym v.places.agrees ∙ running in
              not_drained r.closing unclosed over);
        };
      })

-- Closing first or deleting first comes to the same.
finish_moves :
    (r : Relay) (key : Bytes) (entry : Entry)
    → finish_flow r (key, entry)
      ≡ close_entry
          (record r {
            table = (delete_if r.table key entry).0;
            serving = leave (key, entry) r.serving;
          })
          entry
unfolding finish_flow close_entry
finish_moves r key entry = elim (Bool-cases (has entry.id r.live)) [
  | inl held ↦ simp held
  | inr gone ↦ simp gone
]

pub finish-Inv : (others : ℕ) (r : Relay) (f : Flow) → Inv others r → Inv others (finish_flow r f)
finish-Inv others r (key, entry) v =
    let left = record r {
      table = (delete_if r.table key entry).0;
      serving = leave (key, entry) r.serving;
    } in
    simp (finish_moves r key entry) (record {
      accounts = close_entry-Accounts others left entry (record {
        distinct = v.accounts.distinct;
        fresh = v.accounts.fresh;
        agreed = v.accounts.agreed;
        limiter = v.accounts.limiter;
      });
      places = at_stage (close_entry left entry) r.closing (closing-close_entry left entry) (
          close_entry-Places (left_over r.closing) left entry
            (finish-Places (left_over r.closing) r key entry v.places));
    })

-- The stages of `Close`.
pub close_done-Inv : (others : ℕ) (r : Relay) → Inv others r → Inv others (close_done r)
unfolding close_done
close_done-Inv others r v =
    if_by (Inv others) r.done r (record r { done = true; closing = closing_done }) (λ _. v)
      (λ unclosed.
        let none_left : left_over r.closing ≡ [] =
          not_begun r.closing (sym v.places.agrees ∙ unclosed) in
        let p = subst (λ x. Places x r) none_left v.places in
        record {
          accounts = record {
            distinct = v.accounts.distinct;
            fresh = v.accounts.fresh;
            limiter = v.accounts.limiter;
            agreed = v.accounts.agreed;
          };
          places = record {
            is_map = p.is_map;
            covered = p.covered;
            agrees = refl;
            after_drain = λ h. absurd (cc);
          };
        })

has-drain :
    (t : Table) (k : Bytes) (e : Entry) → lookup k t ≡ some e → has e.id (ids (drain t).1) ≡ true
unfolding drain lookup has
has-drain [] k e h = cc
has-drain ((j, x) ∷ t) k e h = ground (arith, has-drain t k e)

drained-Places :
    (r : Relay)
    → r.closing ≡ closing_done
    → Places [] r
    → Places (ids (drain r.table).1) (drain_table r)
unfolding lookup has drain_table
drained-Places r begun p = record {
  is_map = tt;
  covered = λ i h g. elim (p.covered i h refl) [
    | inl s ↦ inl s
    | inr (k, e, found, id) ↦ absurd (ground (arith, has-drain r.table k e found))
  ];
  agrees = p.agrees ∙ ap is_closing begun;
  after_drain = λ over k e found. cc;
}

pub drain_table-Inv :
    (others : ℕ) (r : Relay) → r.closing ≡ closing_done → Inv others r → Inv others (drain_table r)
unfolding drain_table
drain_table-Inv others r begun v = record {
  accounts = record {
    distinct = v.accounts.distinct;
    fresh = v.accounts.fresh;
    limiter = v.accounts.limiter;
    agreed = v.accounts.agreed;
  };
  places = drained-Places r begun (subst (λ c. Places (left_over c) r) begun v.places);
}

pub close_next-Inv :
    (others : ℕ) (r : Relay) (e : Entry) (es : List Entry)
    → r.closing ≡ closing_entries (e ∷ es)
    → Inv others r
    → Inv others (close_next r e es)
unfolding close_next
close_next-Inv others r e es stage v =
    let a = close_entry-Accounts others r e v.accounts in
    let p = close_entry-Places (ids es) r e (subst (λ c. Places (left_over c) r) stage v.places) in
    let same_stage = closing-close_entry r e ∙ stage in
    record {
      accounts = record {
        distinct = a.distinct;
        fresh = a.fresh;
        limiter = a.limiter;
        agreed = a.agreed;
      };
      places = record {
        is_map = p.is_map;
        covered = p.covered;
        agrees = p.agrees ∙ ap is_closing same_stage;
        after_drain = λ h. p.after_drain (ap is_drained same_stage);
      };
    }

pub release_association-Inv :
    (others : ℕ) (r : Relay)
    → r.closing ≡ closing_entries []
    → Inv others r
    → Inv others (release_association r)
unfolding release_association
release_association-Inv others r stage v =
    let p = subst (λ c. Places (left_over c) r) stage v.places in
    if_relay (Inv others) r.association_held _ _
      (record {
        accounts = record {
          distinct = v.accounts.distinct;
          fresh = v.accounts.fresh;
          limiter = v.accounts.limiter;
          agreed = v.accounts.agreed;
        };
        places = record {
          is_map = p.is_map;
          covered = p.covered;
          agrees = p.agrees ∙ ap is_closing stage;
          after_drain = λ h. p.after_drain (ap is_drained stage);
        };
      })
      (record {
        accounts = record {
          distinct = v.accounts.distinct;
          fresh = v.accounts.fresh;
          limiter = v.accounts.limiter;
          agreed = v.accounts.agreed;
        };
        places = record {
          is_map = p.is_map;
          covered = p.covered;
          agrees = p.agrees ∙ ap is_closing stage;
          after_drain = λ h. p.after_drain (ap is_drained stage);
        };
      })
