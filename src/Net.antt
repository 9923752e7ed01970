-- ===== src/Net.antt =====
-- The parts of Go's `net` package that the program's code computes with: IP addresses as byte
-- slices. A nil IP is the empty slice; a nil result of `To4` and `To16` is `none`.
use spaceship.Base.{
  Bool, false, ◌&&◌, ◌||◌, [], ◌∷◌, ◌++◌, Option, none, some, ◌≡◌, arith, Bytes, same, length, take,
  drop, ◌==◌, if◌then◌else◌, length-drop,
}

abbrev pub v4_in_v6_prefix : Bytes
v4_in_v6_prefix = 0 ∷ 0 ∷ 0 ∷ 0 ∷ 0 ∷ 0 ∷ 0 ∷ 0 ∷ 0 ∷ 0 ∷ 255 ∷ 255 ∷ []

unfoldable pub to4 : Bytes → Option Bytes
to4 ip =
    if length ip == 4
    then some ip
    else if length ip == 16 && same (take 12 ip) v4_in_v6_prefix
    then some (drop 12 ip)
    else none

unfoldable pub to16 : Bytes → Option Bytes
to16 ip =
    if length ip == 4
    then some (v4_in_v6_prefix ++ ip)
    else if length ip == 16
    then some ip
    else none

unfoldable pub ip_equal : Bytes → Bytes → Bool
ip_equal ip x =
    if length ip == length x
    then same ip x
    else if length ip == 4 && length x == 16
    then same (take 12 x) v4_in_v6_prefix && same ip (drop 12 x)
    else if length ip == 16 && length x == 4
    then same (take 12 ip) v4_in_v6_prefix && same (drop 12 ip) x
    else false

abbrev pub ipv4_zero : Bytes
ipv4_zero = 0 ∷ 0 ∷ 0 ∷ 0 ∷ []

abbrev pub ipv6_unspecified : Bytes
ipv6_unspecified = 0 ∷ 0 ∷ 0 ∷ 0 ∷ 0 ∷ 0 ∷ 0 ∷ 0 ∷ 0 ∷ 0 ∷ 0 ∷ 0 ∷ 0 ∷ 0 ∷ 0 ∷ 0 ∷ []

unfoldable pub is_unspecified : Bytes → Bool
is_unspecified ip = ip_equal ip ipv4_zero || ip_equal ip ipv6_unspecified

pub length-to4 : (ip : Bytes) {v : Bytes} → to4 ip ≡ some v → length v ≡ 4
unfolding to4
length-to4 ip h = ground (arith, length-drop 12 ip)

pub length-to16 : (ip : Bytes) {v : Bytes} → to16 ip ≡ some v → length v ≡ 16
unfolding to16
length-to16 ip h = ground arith
