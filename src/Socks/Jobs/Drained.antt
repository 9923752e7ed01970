-- ===== src/Socks/Jobs/Drained.antt =====
-- What becomes of the datagrams that a relay reads, in any order of its steps.
use spaceship.Base.{
  ℕ, ◌+◌, ◌<◌, ◌≤◌, ◌==◌, Bool, List, [], ◌∷◌, ◌++◌, append_assoc, append-nil, ◌≡◌, refl, sym, ap,
  subst, ◌∙◌, ◌⊎◌, inl, inr, arith, length, length-append, Bool-cases,
}
use spaceship.Socks.Jobs.{
  Job, udp_job_queue_size, reading, stopped, Run, start_run, dispatch, take_job, Step, reads,
  times_out, stops, takes, handled, leaves, Reach, here, next,
}

-- The first two lists, each in its order, make up the third.
pub data Merges : List Job → List Job → List Job → Type 0 where
  empty : Merges [] [] []
  kept : (j : Job) {k d a : List Job} → Merges k d a → Merges (k ++ j ∷ []) d (a ++ j ∷ [])
  lost : (j : Job) {k d a : List Job} → Merges k d a → Merges k (d ++ j ∷ []) (a ++ j ∷ [])

-- A worker that has left its loop found the channel closed and empty.
abbrev Closed : Run → Type 0
Closed r = (r.gone ≡ 0) ⊎ ((r.jobs ≡ []) × ((failed : Bool) × (r.reader ≡ stopped failed)))

record Inv (workers : ℕ) (r : Run) : Type 0 where
  merges : Merges (r.taken ++ r.jobs) r.dropped r.received
  bounded : length r.jobs ≤ udp_job_queue_size
  staff : r.busy + r.gone ≤ workers
  closed : Closed r

nothing_gone : (r : Run) → r.reader ≡ reading → Closed r → r.gone ≡ 0
nothing_gone r h (inl e) = e
nothing_gone r h (inr (_, (failed, e))) = cc

dispatch-Inv :
    (workers : ℕ) (r : Run) (job : Job)
    → r.reader ≡ reading
    → Inv workers r
    → Inv workers (dispatch r job)
unfolding dispatch
dispatch-Inv workers r job h v = elim (Bool-cases (length r.jobs == udp_job_queue_size)) [
  | inl full ↦
      rw (full, dispatch)
        (record {
          merges = lost job v.merges;
          bounded = v.bounded;
          staff = v.staff;
          closed = v.closed;
        })
  | inr room ↦
      rw (room, dispatch)
        (record {
          merges =
              subst (λ x. Merges x r.dropped (r.received ++ job ∷ []))
                (append_assoc r.taken r.jobs (job ∷ [])) (kept job v.merges);
          bounded =
              (let all = length-append r.jobs (job ∷ []) in let small = v.bounded in ground arith);
          staff = v.staff;
          closed = inl (nothing_gone r h v.closed);
        })
]

take_job-Inv :
    (workers : ℕ) (r : Run) (job : Job) (rest : List Job)
    → r.busy + r.gone < workers
    → r.jobs ≡ job ∷ rest
    → Inv workers r
    → Inv workers (take_job r job rest)
unfolding take_job
take_job-Inv workers r job rest free e v = record {
  merges =
      subst (λ x. Merges x r.dropped r.received)
        (ap (λ x. r.taken ++ x) e ∙ sym (append_assoc r.taken (job ∷ []) rest)) v.merges;
  bounded = (let len = ap (λ x. length x) e in let small = v.bounded in omega arith);
  staff = omega arith;
  closed = elim v.closed [
    | inl k ↦ inl k
    | inr (k, _) ↦ absurd (let no_job : [] ≡ job ∷ rest = sym k ∙ e in cc)
  ];
}

Step-Inv : (workers : ℕ) (r s : Run) → Step workers r s → Inv workers r → Inv workers s
Step-Inv workers r s (reads job h) v = dispatch-Inv workers r job h v
Step-Inv workers r s (times_out h) v = v
Step-Inv workers r s (stops failed h) v = record {
  merges = v.merges;
  bounded = v.bounded;
  staff = v.staff;
  closed = inl (nothing_gone r h v.closed);
}
Step-Inv workers r s (takes job rest free e) v = take_job-Inv workers r job rest free e v
Step-Inv workers r s (handled busy e) v = record {
  merges = v.merges;
  bounded = v.bounded;
  staff = (let all = v.staff in omega arith);
  closed = v.closed;
}
Step-Inv workers r s (leaves failed free e h) v = record {
  merges = v.merges;
  bounded = v.bounded;
  staff = omega arith;
  closed = inr (e, (failed, h));
}

Reach-Inv : (workers : ℕ) (r : Run) → Reach workers start_run r → Inv workers r
unfolding start_run
Reach-Inv workers r here = record {
  merges = empty;
  bounded = omega arith;
  staff = omega arith;
  closed = inl refl;
}
Reach-Inv workers r (next {s = s} p st) = Step-Inv workers s r st (Reach-Inv workers s p)

no_jobs : (workers : ℕ) (r : Run) → 0 < workers → r.gone ≡ workers → Closed r → r.jobs ≡ []
no_jobs workers r some_workers over (inl e) = absurd (omega arith)
no_jobs workers r some_workers over (inr (e, _)) = e

-- In any order of the steps of a relay's reader and its workers: the channel holds 64 datagrams at
-- most, and no more datagrams are handled at a time than there are workers; what the workers took and
-- then what the channel holds, and apart from these what was dropped, each in the order of the reads,
-- make up what was read; and once all workers have left, of which there is one at least, the channel
-- is empty and no datagram is being handled, so that all that was not dropped was taken.
pub run-drains :
    (workers : ℕ) (r : Run)
    → 0 < workers
    → Reach workers start_run r
    → (length r.jobs ≤ udp_job_queue_size)
      × (r.busy ≤ workers)
      × Merges (r.taken ++ r.jobs) r.dropped r.received
      × (r.gone ≡ workers → (r.busy ≡ 0) × Merges r.taken r.dropped r.received)
run-drains workers r some_workers p =
    let v = Reach-Inv workers r p in
    let staff = v.staff in
    (
      v.bounded,
      (omega arith),
      v.merges,
      λ over. (
        (omega arith),
        subst (λ x. Merges x r.dropped r.received)
            (ap (λ x. r.taken ++ x) (no_jobs workers r some_workers over v.closed)
              ∙ append-nil r.taken)
            v.merges,
      ),
    )
