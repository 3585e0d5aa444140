-- ===== src/Buf.antt =====
-- common/buf/buffer.go: the byte buffer that every codec writes to and reads from. `content` is the
-- memory behind the slice, up to its capacity, and `size` is the slice's length. Positions are
-- natural numbers, so the methods are modelled at arguments that are not negative. A method that
-- returns an error has changed nothing; a slice out of range is a panic.
pub mod Pool
pub mod Queue
pub mod Zeros
pub mod Slices
use zbproxy_a.Base.{
  ℕ, zero, suc, ◌+◌, ◌-◌, List, [], ◌∷◌, Bool, true, false, ltb, ◌≤◌, leb, ◌==◌, ◌||◌, not,
  if◌then◌else◌, length, take, drop, get_elem?, set, copy_at, Option, some, none, replicate, min,
}

pub data Error : Type 0 where
  eof short_buffer negative_read limit_exceeded bad_length too_big unexpected_eof network
        no_return :
      Error

-- Whether the call does not return, since nothing comes and there is no deadline.
abbrev pub is_hang : Error → Bool
is_hang e = elim e [
  | eof ↦ false
  | short_buffer ↦ false
  | negative_read ↦ false
  | limit_exceeded ↦ false
  | bad_length ↦ false
  | too_big ↦ false
  | unexpected_eof ↦ false
  | network ↦ false
  | no_return ↦ true
]

-- What a call leaves: a result, an error, or a panic.
pub data Result {ℓ} (A : Type ℓ) : Type ℓ where
  ok : A → Result A
  err : Error → Result A
  panic : Result A

abbrev pub then_do {ℓ κ} : {A : Type ℓ} {B : Type κ} → Result A → (A → Result B) → Result B
then_do (ok a) f = f a
then_do (err e) f = err e
then_do panic f = panic

pub record Buffer : Type 0 where
  pub content : List ℕ
  pub size : ℕ
  pub start : ℕ
  pub end : ℕ
  pub managed : Bool
  pub closed : Bool

-- `data[i:j]`, which may reach past the length and up to the capacity.
unfoldable pub slice : List ℕ → ℕ → ℕ → Result (List ℕ)
slice xs i j =
    if leb i j then if leb j (length xs) then ok (take (j - i) (drop i xs)) else panic else panic

unfoldable pub as_data : List ℕ → Buffer
as_data bs = record {
  content = bs;
  size = length bs;
  start = 0;
  end = length bs;
  managed = false;
  closed = false;
}

unfoldable pub with_data : List ℕ → Buffer
with_data bs = record {
  content = bs;
  size = length bs;
  start = 0;
  end = 0;
  managed = false;
  closed = false;
}

abbrev pub len : Buffer → ℕ
len b = b.end - b.start

abbrev pub cap : Buffer → ℕ
cap b = b.size

abbrev pub is_empty : Buffer → Bool
is_empty b = b.end == b.start

abbrev pub is_full : Buffer → Bool
is_full b = b.end == cap b

unfoldable pub bytes : Buffer → Result (List ℕ)
unfolding slice
bytes b = slice b.content b.start b.end

unfoldable pub free_bytes : Buffer → Result (List ℕ)
unfolding slice
free_bytes b = slice b.content b.end (cap b)

unfoldable pub to : ℕ → Buffer → Result (List ℕ)
unfolding slice
to n b = slice b.content b.start (b.start + n)

unfoldable pub advance : ℕ → Buffer → Buffer
advance n b = record b { start = b.start + n }

unfoldable pub truncate : ℕ → Buffer → Buffer
truncate n b = record b { end = b.start + n }

unfoldable pub rewind : ℕ → Buffer → Buffer
rewind n b = record b { start = n }

unfoldable pub reset : ℕ → Buffer → Buffer
reset pos b = record b { start = pos; end = pos }

unfoldable pub full_reset : Buffer → Buffer
full_reset b = record b { start = 0; end = 0 }

unfoldable pub resize : ℕ → ℕ → Buffer → Buffer
resize s e b = record b { start = s; end = s + e }

-- The bytes the caller is to fill lie at the old end; the check is against the capacity.
unfoldable pub extend : ℕ → Buffer → Result (ℕ × Buffer)
extend n b =
    if ltb (length b.content) (b.end + n) then panic else ok (b.end, record b { end = b.end + n })

unfoldable pub extend_header : ℕ → Buffer → Result (ℕ × Buffer)
extend_header n b =
    if ltb b.start n then panic else ok (b.start - n, record b { start = b.start - n })

-- `copy(b.data[b.end:], data)`: as many bytes as the slice has room for.
unfoldable pub put : List ℕ → Buffer → Result (ℕ × Buffer)
put bs b =
    let n = min (length bs) (b.size - b.end) in
    if ltb b.size b.end
    then panic
    else ok (n, record b { content = copy_at b.end (take n bs) b.content; end = b.end + n })

unfoldable pub write : List ℕ → Buffer → Result (ℕ × Buffer)
unfolding put
write bs b = if length bs == 0 then ok (0, b) else if is_full b then err short_buffer else put bs b

unfoldable pub write_byte : ℕ → Buffer → Result Buffer
write_byte d b =
    if is_full b
    then err short_buffer
    else if ltb b.end b.size
    then ok (record b { content = set b.content b.end d; end = b.end + 1 })
    else panic

unfoldable pub write_zero : Buffer → Result Buffer
unfolding write_byte
write_zero b = write_byte 0 b

-- `data[i] = 0` for `k` indices from `i` on.
unfoldable pub zero_from : ℕ → ℕ → ℕ → List ℕ → Result (List ℕ)
zero_from zero i size xs = ok xs
zero_from (suc k) i size xs = elim (ltb i size) [
  | true ↦ zero_from k (i + 1) size (set xs i 0)
  | false ↦ panic
]

-- The loop runs while `i <= b.end+n`.
unfoldable pub write_zero_n : ℕ → Buffer → Result Buffer
unfolding zero_from
write_zero_n n b =
    if ltb (cap b) (b.end + n)
    then err short_buffer
    else then_do (zero_from (suc n) b.end b.size b.content)
        (λ xs. ok (record b { content = xs; end = b.end + n }))

unfoldable pub read_byte : Buffer → Result (ℕ × Buffer)
read_byte b =
    if is_empty b
    then err eof
    else if ltb b.start b.size
    then elim (get_elem? b.content b.start) [
      | some x ↦ ok (x, record b { start = b.start + 1 })
      | none ↦ panic
    ]
    else panic

-- `Read` into a slice of length `n`: the bytes it gives.
unfoldable pub read : ℕ → Buffer → Result (List ℕ × Buffer)
unfolding bytes
read n b =
    if is_empty b
    then err eof
    else then_do (bytes b) (λ xs. ok (take n xs, record b { start = b.start + min n (length xs) }))

unfoldable pub peek : ℕ → Buffer → Result (List ℕ × Buffer)
unfolding to
peek n b =
    if ltb b.end (b.start + n)
    then err short_buffer
    else then_do (to n b) (λ xs. ok (xs, record b { start = b.start + n }))

-- The positions in order, within the slice, and the slice within its memory.
abbrev pub IsValid : Buffer → Type 0
IsValid b = (b.start ≤ b.end) × (b.end ≤ b.size) × (b.size ≤ length b.content)

abbrev pub unread : Buffer → List ℕ
unread b = drop b.start (take b.end b.content)
