-- ===== src/UniqueIds/Layout.antt =====
-- The three fields of an id.
use glome_rs.Base.{String, ap, arith, u64_mod, ℕ, ◌%◌, ◌*◌, ◌+◌, ◌/◌, ◌<◌, ◌^◌, ◌≡◌}
use Prim.Native.Nat.{bit_and, bit_or}
use glome_rs.Base.Bits.{shifted, bit_or-shifted, bit_and-ones-lt, bit_and-ones_of_lt}
use glome_rs.UniqueIds.{time_mask, pack, new_gen}

-- The two placements, with the shifts as products.
beside_time : (ts y : ℕ) → y < 2 ^ 22 → bit_or (ts * 2 ^ 22) y ≡ ts * 2 ^ 22 + y
beside_time ts y h =
    let e : shifted 22 ts ≡ ts * 2 ^ 22 = omega arith in
    omega (arith, ap (λ x. bit_or x y) e, bit_or-shifted 22 ts y (omega arith))

beside_fields : (x y : ℕ) → y < 2 ^ 12 → bit_or (x * 2 ^ 12) y ≡ x * 2 ^ 12 + y
beside_fields x y h =
    let e : shifted 12 x ≡ x * 2 ^ 12 = omega arith in
    omega (arith, ap (λ z. bit_or z y) e, bit_or-shifted 12 x y (omega arith))

-- An id whose fields are in range is their sum, each at its place.
pub pack_lem :
    (ts node_hash seq : ℕ)
    → ts < 2 ^ 42
    → node_hash < 2 ^ 10
    → seq < 2 ^ 12
    → pack ts node_hash seq ≡ ts * 2 ^ 22 + node_hash * 2 ^ 12 + seq
unfolding pack
pack_lem ts h q ht hh hq =
    let time : ts * 2 ^ 22 % u64_mod ≡ ts * 2 ^ 22 = omega arith in
    let hash : h * 2 ^ 12 % u64_mod ≡ h * 2 ^ 12 = omega arith in
    let high : ts * 2 ^ 22 + h * 2 ^ 12 ≡ (ts * 2 ^ 10 + h) * 2 ^ 12 = omega arith in
    rw (time, hash, beside_time ts (h * 2 ^ 12) (omega arith), high)
      (beside_fields (ts * 2 ^ 10 + h) q hq)

-- Every id whose fields are in range fits into 64 bits and gives the fields back.
pub unpack-pack :
    (ts node_hash seq : ℕ)
    → ts < 2 ^ 42
    → node_hash < 2 ^ 10
    → seq < 2 ^ 12
    → let id = pack ts node_hash seq in
      (id < u64_mod) × (id / 2 ^ 22 ≡ ts) × (id / 2 ^ 12 % 2 ^ 10 ≡ node_hash) × (id % 2 ^ 12 ≡ seq)
unpack-pack ts h q ht hh hq =
    let e = pack_lem ts h q ht hh hq in
    (omega (arith, e), omega (arith, e), omega (arith, e), omega (arith, e))

-- What `& TIME_MASK` and the mask of the hash leave is in range.
pub masked_time-lt : (n : ℕ) → bit_and n time_mask < 2 ^ 42
masked_time-lt n = bit_and-ones-lt 42 n

pub masked_time : (n : ℕ) → n < 2 ^ 42 → bit_and n time_mask ≡ n
masked_time n h = bit_and-ones_of_lt 42 n h

pub new_gen-lt : (xxh3_64 : String → ℕ) (id : String) → (new_gen xxh3_64 id).node_hash < 2 ^ 10
unfolding new_gen
new_gen-lt xxh3_64 id = bit_and-ones-lt 10 (xxh3_64 id)

-- The count 4096 falls into the place of the node.
pack_carry :
    (ts half : ℕ)
    → ts < 2 ^ 42
    → half < 2 ^ 9
    → pack ts (half * 2) (2 ^ 12) ≡ ts * 2 ^ 22 + half * 2 * 2 ^ 12 + 2 ^ 12
unfolding pack
pack_carry ts half ht hh =
    let time : ts * 2 ^ 22 % u64_mod ≡ ts * 2 ^ 22 = omega arith in
    let low : half * 2 * 2 ^ 12 % u64_mod ≡ half * 2 * 2 ^ 12 = omega arith in
    let thirteen : shifted 13 (ts * 2 ^ 9 + half) ≡ ts * 2 ^ 22 + half * 2 * 2 ^ 12 = omega arith in
    rw (time, low, beside_time ts (half * 2 * 2 ^ 12) (omega arith))
      (omega (
        arith,
        ap (λ z. bit_or z (2 ^ 12)) thirteen,
        bit_or-shifted 13 (ts * 2 ^ 9 + half) (2 ^ 12) (omega arith),
      ))

-- With an even node number, an id whose count has passed 4095 to 4096 is the one that the next node
-- gives in the same millisecond with the count 0.
pub pack_overflow :
    (ts half : ℕ)
    → ts < 2 ^ 42
    → half < 2 ^ 9
    → pack ts (half * 2) (2 ^ 12) ≡ pack ts (half * 2 + 1) 0
pack_overflow ts half ht hh =
    omega
      (arith, pack_carry ts half ht hh, pack_lem ts (half * 2 + 1) 0 ht (omega arith) (omega arith))
