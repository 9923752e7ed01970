-- ===== src/Hosts.antt =====
-- `NormalizeHost` of internal/utils/net.go. A host name is its bytes, and ASCII: the space and
-- letter tests are those that `strings.TrimSpace` and `strings.ToLower` make on ASCII bytes.
pub mod Normal
use spaceship.Base.{
  ℕ, ◌+◌, Bool, true, false, ◌&&◌, ◌||◌, List, [], ◌∷◌, map, Bytes, leb, ◌==◌, if◌then◌else◌,
}

unfoldable pub is_space : ℕ → Bool
is_space c = c == 32 || (leb 9 c && leb c 13)

unfoldable pub is_dot : ℕ → Bool
is_dot c = c == b'.'

abbrev pub is_empty : Bytes → Bool
is_empty [] = true
is_empty (_ ∷ _) = false

unfoldable pub trim_left : (ℕ → Bool) → Bytes → Bytes
trim_left p [] = []
trim_left p (c ∷ s) = if p c then trim_left p s else c ∷ s

unfoldable pub trim_right : (ℕ → Bool) → Bytes → Bytes
trim_right p [] = []
trim_right p (c ∷ s) = let rest = trim_right p s in if p c && is_empty rest then [] else c ∷ rest

unfoldable pub trim_space : Bytes → Bytes
trim_space s = trim_right is_space (trim_left is_space s)

unfoldable pub lower : ℕ → ℕ
lower c = if leb b'A' c && leb c b'Z' then c + 32 else c

unfoldable pub to_lower : Bytes → Bytes
to_lower = map lower

unfoldable pub normalize_host : Bytes → Bytes
normalize_host s = let t = trim_space s in if is_empty t then t else to_lower (trim_right is_dot t)
