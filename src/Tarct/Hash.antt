-- ===== src/Tarct/Hash.antt =====
-- tarct/src/node.rs: `stable_hash`, the 64-bit FNV-1a hash of a node's id.
use glome_rs.Base.{
  List, String, [], if◌then◌else◌, ltb, mul64, refl, ℕ, ◌%◌, ◌++◌, ◌+◌, ◌/◌, ◌∷◌, ◌≡◌,
}
use Prim.Native.Nat.{bit_xor}
use Prim.Native.Char.{code}

-- The bytes of a character, and of a text, in UTF-8.
utf8_char : ℕ → List ℕ
utf8_char c =
    if ltb c 0x80
    then c ∷ []
    else if ltb c 0x800
    then (0xC0 + c / 64) ∷ (0x80 + c % 64) ∷ []
    else if ltb c 0x10000
    then (0xE0 + c / 4096) ∷ (0x80 + c / 64 % 64) ∷ (0x80 + c % 64) ∷ []
    else (0xF0 + c / 262144) ∷ (0x80 + c / 4096 % 64) ∷ (0x80 + c / 64 % 64) ∷ (0x80 + c % 64) ∷ []

pub as_bytes : String → List ℕ
unfolding utf8_char
as_bytes String.[] = []
as_bytes (String.◌∷◌ c s) = utf8_char (code c) ++ as_bytes s

abbrev pub fnv_offset : ℕ
fnv_offset = 0xcbf29ce484222325

abbrev pub fnv_prime : ℕ
fnv_prime = 0x100000001b3

pub hash_bytes : ℕ → List ℕ → ℕ
hash_bytes hash [] = hash
hash_bytes hash (byte ∷ bytes) = hash_bytes (mul64 (bit_xor hash byte) fnv_prime) bytes

unfoldable pub stable_hash : String → ℕ
unfolding hash_bytes as_bytes
stable_hash input = hash_bytes fnv_offset (as_bytes input)

-- FNV-1a of "a".
stable_hash_a : stable_hash "a" ≡ 0xaf63dc4c8601ec8c
unfolding stable_hash
stable_hash_a = refl
