-- ===== src/Config/Buffer.antt =====
-- The transport buffer, which a gRPC message has to hold: `Apply` of pkg/config/config.go with the
-- sizes of internal/transport/rpc/options.go.
pub mod Fits
use spaceship.Base.{ℕ, ◌+◌, ◌*◌, ◌-◌, List, [], ◌∷◌, ltb, ◌==◌, if◌then◌else◌}

abbrev pub max_message_size : ℕ
max_message_size = 4 * 1024 * 1024

abbrev pub message_framing_overhead : ℕ
message_framing_overhead = 1024

-- `slices.Sort` and `slices.Compact`.
unfoldable pub insert_size : ℕ → List ℕ → List ℕ
insert_size n [] = n ∷ []
insert_size n (m ∷ ms) = if ltb m n then m ∷ insert_size n ms else n ∷ m ∷ ms

unfoldable pub sort_sizes : List ℕ → List ℕ
unfolding insert_size
sort_sizes [] = []
sort_sizes (n ∷ ns) = insert_size n (sort_sizes ns)

unfoldable pub compact : List ℕ → List ℕ
compact [] = []
compact (n ∷ []) = n ∷ []
compact (n ∷ m ∷ ms) = let rest = compact (m ∷ ms) in if n == m then rest else n ∷ rest

-- The tiers of `payloadBufferPool`; the argument is the size of the transport buffer.
abbrev pub tiers : ℕ → List ℕ
tiers buffer_size =
    256
    ∷ (4 * 1024)
    ∷ (16 * 1024)
    ∷ (32 * 1024)
    ∷ (1024 * 1024)
    ∷ (buffer_size + message_framing_overhead)
    ∷ []

unfoldable pub payload_buffer_pool : ℕ → List ℕ
unfolding sort_sizes compact
payload_buffer_pool buffer_size = compact (sort_sizes (tiers buffer_size))
