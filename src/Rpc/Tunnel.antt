-- ===== src/Rpc/Tunnel.antt =====
-- The two ends of a stream together: what one end reads is what the other end writes.
pub mod Download
pub mod Upload
pub mod Whole
pub mod Datagrams
use spaceship.Base.{
  ℕ, Bool, List, [], ◌∷◌, ◌++◌, Option, none, some, Bytes, length, take, take-length-append,
  append-nil, ◌≡◌, refl, sym, append_assoc, ap, ◌∙◌, if◌then◌else◌, true, false,
}
use spaceship.Rpc.Client.Forward.{Read, Writer, no_bytes}
use spaceship.Rpc.Messages.{Error}

-- A writer that takes everything.
abbrev pub take_all : Writer
take_all payload = (length payload, none)

-- A read that gives bytes, and one that gives bytes with an error; what is read can be sent.
abbrev pub chunk : Bytes → Read
chunk bytes = record { bytes = bytes; failed = none; send_failed = none }

abbrev pub last_chunk : Bytes → Error → Read
last_chunk bytes e = record { bytes = bytes; failed = some e; send_failed = none }

pub flatten : List Bytes → Bytes
flatten [] = []
flatten (b ∷ bs) = b ++ flatten bs

-- The chunks that have a byte.
pub non_empty : List Bytes → List Bytes
non_empty [] = []
non_empty (b ∷ bs) = let rest = non_empty bs in if no_bytes b then rest else b ∷ rest

pub flatten-non_empty : (bs : List Bytes) → flatten (non_empty bs) ≡ flatten bs
unfolding flatten non_empty
flatten-non_empty [] = refl
flatten-non_empty ([] ∷ bs) = flatten-non_empty bs
flatten-non_empty ((x ∷ b) ∷ bs) = ap (λ r. (x ∷ b) ++ r) (flatten-non_empty bs)

pub take-length : (b : Bytes) → take (length b) b ≡ b
take-length b = ap (take (length b)) (sym (append-nil b)) ∙ take-length-append b []
