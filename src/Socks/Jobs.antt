-- ===== src/Socks/Jobs.antt =====
-- The datagrams between the reader of a relay and its workers: `Run` and `readLoop` of
-- internal/socks/udp.go, as a step relation.
pub mod Drained
use spaceship.Base.{
  ℕ, ◌+◌, ◌<◌, Bool, true, false, List, [], ◌∷◌, ◌++◌, Bytes, ◌≡◌, length, ◌==◌, if◌then◌else◌,
}
use spaceship.Socks.Packets.{NetAddr}

-- A datagram and its source.
abbrev pub Job : Type 0
Job = Bytes × NetAddr

abbrev pub udp_job_queue_size : ℕ
udp_job_queue_size = 64

-- The reader runs, or has returned; the channel of jobs is closed then.
pub data Reader : Type 0 where
  reading : Reader
  stopped : (failed : Bool) → Reader

-- `jobs` is what the channel holds. A worker waits, handles a datagram, or has left its loop: `busy`
-- and `gone` count these. `received`, `taken` and `dropped` are the datagrams that were read, that
-- workers took, and that were dropped, in this order.
pub record Run : Type 0 where
  pub jobs : List Job
  pub reader : Reader
  pub busy : ℕ
  pub gone : ℕ
  pub received : List Job
  pub taken : List Job
  pub dropped : List Job

unfoldable pub start_run : Run
start_run = record {
  jobs = [];
  reader = reading;
  busy = 0;
  gone = 0;
  received = [];
  taken = [];
  dropped = [];
}

-- A datagram is read: it is dropped where the channel is full.
unfoldable pub dispatch : Run → Job → Run
dispatch r job =
    let heard = record r { received = r.received ++ job ∷ [] } in
    if length r.jobs == udp_job_queue_size
    then record heard { dropped = heard.dropped ++ job ∷ [] }
    else record heard { jobs = heard.jobs ++ job ∷ [] }

unfoldable pub take_job : Run → Job → List Job → Run
take_job r job rest = record r { jobs = rest; busy = r.busy + 1; taken = r.taken ++ job ∷ [] }

-- `workers` is `udpWorkerCount`.
pub data Step (workers : ℕ) (r : Run) : Run → Type 0 where
  reads : (job : Job) → r.reader ≡ reading → Step workers r (dispatch r job)
  times_out : r.reader ≡ reading → Step workers r r
  stops :
      (failed : Bool) → r.reader ≡ reading → Step workers r (record r { reader = stopped failed })
  takes :
      (job : Job) (rest : List Job)
      → r.busy + r.gone < workers
      → r.jobs ≡ job ∷ rest
      → Step workers r (take_job r job rest)
  handled : (busy : ℕ) → r.busy ≡ busy + 1 → Step workers r (record r { busy = busy })
  leaves :
      (failed : Bool)
      → r.busy + r.gone < workers
      → r.jobs ≡ []
      → r.reader ≡ stopped failed
      → Step workers r (record r { gone = r.gone + 1 })

pub data Reach (workers : ℕ) (r : Run) : Run → Type 0 where
  here : Reach workers r r
  next : {s t : Run} → Reach workers r s → Step workers s t → Reach workers r t
