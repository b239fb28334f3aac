-- ===== src/Addressing.antt =====
-- addressing.h, and the functions of util.c that compare and hash addresses.
use chrony_nts.Prelude.{
  ℕ, ◌+◌, ◌*◌, ◌/◌, ◌%◌, ◌^◌, ◌≡◌, refl, Bool, true, false, ◌&&◌, List, [], ◌∷◌, ◌==◌, arith, ap,
}

-- `IPAddr`. An IPv6 address is its sixteen bytes; an IPv4 address is a number in host order.
pub data IpAddr : Type 0 where
  inet4 : ℕ → IpAddr
  inet6 : List ℕ → IpAddr
  unspec : IpAddr

-- `NTP_Remote_Address`
pub record RemoteAddress : Type 0 where
  pub ip_addr : IpAddr
  pub port : ℕ

bytes_eq : List ℕ → List ℕ → Bool
bytes_eq [] [] = true
bytes_eq [] (y ∷ ys) = false
bytes_eq (x ∷ xs) [] = false
bytes_eq (x ∷ xs) (y ∷ ys) = x == y && bytes_eq xs ys

-- `UTI_CompareIPs` without a mask returns zero.
unfoldable pub same_ip : IpAddr → IpAddr → Bool
unfolding bytes_eq
same_ip (inet4 a) (inet4 b) = a == b
same_ip (inet6 a) (inet6 b) = bytes_eq a b
same_ip unspec unspec = true
same_ip _ _ = false

-- The bytes of a word in memory, least significant first.
bytes_of_word : ℕ → List ℕ
bytes_of_word a = a % 256 ∷ a / 2 ^ 8 % 256 ∷ a / 2 ^ 16 % 256 ∷ a / 2 ^ 24 % 256 ∷ []

hash_bytes : List ℕ → ℕ → ℕ
hash_bytes [] hash = hash
hash_bytes (b ∷ bs) hash = hash_bytes bs ((71 * hash + b) % 2 ^ 32)

-- `UTI_IPToHash`, on a little-endian machine, with the seed that the first call drew.
unfoldable pub ip_to_hash : ℕ → IpAddr → ℕ
unfolding bytes_of_word hash_bytes
ip_to_hash seed (inet4 a) = (hash_bytes (bytes_of_word a) seed + seed) % 2 ^ 32
ip_to_hash seed (inet6 a) = (hash_bytes a seed + seed) % 2 ^ 32
ip_to_hash seed unspec = 0

bytes_eq_lem : (xs ys : List ℕ) → bytes_eq xs ys ≡ true → xs ≡ ys
unfolding bytes_eq
bytes_eq_lem [] [] e = refl
bytes_eq_lem [] (y ∷ ys) e = cc
bytes_eq_lem (x ∷ xs) [] e = cc
bytes_eq_lem (x ∷ xs) (y ∷ ys) e = ground (arith, bytes_eq_lem xs ys)

bytes_eq_refl : (xs : List ℕ) → bytes_eq xs xs ≡ true
unfolding bytes_eq
bytes_eq_refl [] = refl
bytes_eq_refl (x ∷ xs) = ground (arith, bytes_eq_refl xs)

pub same_ip_refl : (a : IpAddr) → same_ip a a ≡ true
unfolding same_ip
same_ip_refl (inet4 a) = ground arith
same_ip_refl (inet6 a) = bytes_eq_refl a
same_ip_refl unspec = refl

pub same_ip-eq : (a b : IpAddr) → same_ip a b ≡ true → a ≡ b
unfolding same_ip
same_ip-eq (inet4 a) (inet4 b) e = ground arith
same_ip-eq (inet6 a) (inet6 b) e = ap inet6 (bytes_eq_lem a b e)
same_ip-eq unspec unspec e = refl
same_ip-eq _ _ e = cc
