-- ===== src/Buf/Pool.antt =====
-- common/buf/alloc.go: the size classes of the allocator. Which array a pool hands out is left to
-- sync.Pool; what is modelled is its class, that is its capacity `2 ^ (class + 6)`, cut to `size`.
pub mod Classes
use zbproxy_a.Base.{
  ℕ, zero, suc, ◌+◌, ◌-◌, ◌*◌, ◌/◌, ◌%◌, ◌^◌, ltb, ◌==◌, ◌||◌, not, if◌then◌else◌, ◌≡◌, refl,
}

-- `bits.Len32`, on fuel: the number of binary digits.
unfoldable pub len32 : ℕ → ℕ → ℕ
len32 zero n = 0
len32 (suc fuel) n = let shorter = len32 fuel (n / 2) in if n == 0 then 0 else suc shorter

-- `uint16(bits.Len32(uint32(size)) - 1)`
unfoldable pub msb : ℕ → ℕ
unfolding len32
msb size = (len32 32 (size % 2 ^ 32) + 2 ^ 16 - 1) % 2 ^ 16

pub data Got : Type 0 where
  bad_buffer_size invalid_pool_index : Got
  got : ℕ → Got

-- `Get`, with the class of the pool it takes from and the place `m` of the size's highest bit.
unfoldable pub get_at : ℕ → ℕ → Got
get_at m size =
    let index = (if size == 2 ^ m then m else m + 1) - 6 in
    if (size == 0) || ltb 65536 size
    then bad_buffer_size
    else if ltb 64 size
    then (if ltb 10 index then invalid_pool_index else got index)
    else got 0

unfoldable pub get : ℕ → Got
get size = get_at (msb size) size

pub data Stored : Type 0 where
  bad_size panics : Stored
  stored : ℕ → Stored

-- `Put` of a slice of capacity `cap`. `bits` is a uint16, so `bits -= 6` wraps around.
unfoldable pub put_back_at : ℕ → ℕ → Stored
put_back_at m cap =
    let class = (m + 2 ^ 16 - 6) % 2 ^ 16 in
    if (cap == 0) || ltb 65536 cap || not (cap == 2 ^ m)
    then bad_size
    else if ltb 10 class
    then panics
    else stored class

unfoldable pub put_back : ℕ → Stored
put_back cap = put_back_at (msb cap) cap
