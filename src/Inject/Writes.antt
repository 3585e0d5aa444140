-- ===== src/Inject/Writes.antt =====
-- common/buf and common/mcprotocol: what each write of a packet appends to a buffer with room for it.
use zbproxy_a.Base.{
  ℕ, zero, suc, ◌+◌, ◌-◌, ◌%◌, ◌^◌, ◌≤◌, ◌<◌, List, [], ◌∷◌, ◌++◌, length, take, drop, copy_at, set,
  min, ◌≡◌, refl, sym, ap, ◌∙◌, arith, le→ltb, lt→ltb, ==-apart, length-copy_at, take_all,
}
use native.Mathlib.Nat.{mod-eq_of_lt}
use zbproxy_a.Base.Bytes.{put_be}
use zbproxy_a.Buf.{
  Buffer, ok, IsValid, unread, bytes, write, put, write_byte, extend, extend_header,
}
use zbproxy_a.Buf.Slices.{slice_lem}
use zbproxy_a.Buf.Queue.Methods.{copied}
use zbproxy_a.Mc.{write_var_int, append_packet_length, var_int_bytes}
use zbproxy_a.Mc.RoundTrip.{length-var_int_bytes}
use zbproxy_a.Inject.Building.{ignored, ignored_count, put_uint16}

-- The buffer after `xs` were appended to what is unread.
abbrev pub Wrote : Buffer → List ℕ → Buffer → Type 0
Wrote b xs c =
    IsValid c
    × (unread c ≡ unread b ++ xs)
    × (c.start ≡ b.start)
    × (c.end ≡ b.end + length xs)
    × (c.size ≡ b.size)

abbrev appended : List ℕ → Buffer → Buffer
appended xs b = record b { content = copy_at b.end xs b.content; end = b.end + length xs }

appended-Wrote :
    (xs : List ℕ) (b : Buffer) → IsValid b → b.end + length xs ≤ b.size → Wrote b xs (appended xs b)
appended-Wrote xs b (p, q, r) h = (
  (omega (arith, p), h, omega (arith, r, length-copy_at b.end xs b.content)),
  sym (copied b.start b.end (length xs) xs b.content p (omega (arith, r, h)) refl),
  refl,
  refl,
  refl,
)

set_as_copy : (i x : ℕ) (xs : List ℕ) → set xs i x ≡ copy_at i (x ∷ []) xs
set_as_copy zero x [] = refl
set_as_copy (suc i) x [] = refl
set_as_copy zero x (y ∷ ys) = refl
set_as_copy (suc i) x (y ∷ ys) = ap (◌∷◌ y) (set_as_copy i x ys)

pub write_byte-Wrote :
    (x : ℕ) (b : Buffer)
    → IsValid b
    → b.end + 1 ≤ b.size
    → (c : Buffer) × (ignored b (write_byte x b) ≡ ok c) × Wrote b (x ∷ []) c
unfolding write_byte
write_byte-Wrote x b v h = (
  appended (x ∷ []) b,
  rw (==-apart b.end b.size (omega arith), lt→ltb b.end b.size (omega arith))
      (ap (λ xs. ok (record b { content = xs; end = b.end + 1 })) (set_as_copy b.end x b.content)),
  appended-Wrote (x ∷ []) b v h,
)

pub write_var_int-Wrote :
    (a : ℕ) (b : Buffer)
    → a < 2 ^ 32
    → IsValid b
    → b.end + length (var_int_bytes a) ≤ b.size
    → (c : Buffer) × (write_var_int (a % 2 ^ 32) b ≡ ok c) × Wrote b (var_int_bytes a) c
unfolding write_var_int extend
write_var_int-Wrote a b small v h =
    let e = length-var_int_bytes a small in
    (
      appended (var_int_bytes a) b,
      rw
          (
            mod-eq_of_lt small,
            sym e,
            le→ltb (length b.content) (b.end + length (var_int_bytes a)) (omega (arith, h, v.2)),
            le→ltb (length (var_int_bytes a)) (length (var_int_bytes a)) (omega arith),
          )
          refl,
      appended-Wrote (var_int_bytes a) b v h,
    )

pub write-Wrote :
    (xs : List ℕ) (b : Buffer)
    → 0 < length xs
    → IsValid b
    → b.end + length xs ≤ b.size
    → (c : Buffer) × (ignored_count b (write xs b) ≡ ok c) × Wrote b xs c
unfolding write put
write-Wrote xs b pos v h = (
  appended xs b,
  rw
      (
        ==-apart (length xs) 0 (omega (arith, pos)),
        ==-apart b.end b.size (omega (arith, pos, h)),
        put,
        le→ltb b.size b.end (v.1),
        min_all (length xs) (b.size - b.end) (omega (arith, h)),
        take_all (length xs) xs (omega arith),
      )
      refl,
  appended-Wrote xs b v h,
)
  where
    min_all : (m n : ℕ) → m ≤ n → min m n ≡ m
    min_all m n k = omega arith

pub put_uint16-Wrote :
    (n : ℕ) (b : Buffer)
    → IsValid b
    → b.end + 2 ≤ b.size
    → (c : Buffer) × (put_uint16 n b ≡ ok c) × Wrote b (put_be 2 n) c
unfolding put_uint16 extend
put_uint16-Wrote n b v h = (
  appended (put_be 2 n) b,
  rw (le→ltb (length b.content) (b.end + 2) (omega (arith, h, v.2))) refl,
  appended-Wrote (put_be 2 n) b v h,
)

-- Bytes that are copied over the free room before the unread ones.
drop_copy_before :
    (i e : ℕ) (src xs : List ℕ)
    → i + length src ≤ e
    → e ≤ length xs
    → drop i (take e (copy_at i src xs)) ≡ src ++ drop (i + length src) (take e xs)
drop_copy_before zero e [] xs h k = ap (λ n. drop n (take e xs)) {x = 0} {y = 0 + 0} (omega arith)
drop_copy_before zero zero (x ∷ src) xs h k = absurd (omega arith)
drop_copy_before zero (suc e) (x ∷ src) [] h k = absurd (omega arith)
drop_copy_before zero (suc e) (x ∷ src) (y ∷ xs) h k = ap (◌∷◌ x) (
    drop_copy_before zero e src xs (omega arith) (omega arith)
    ∙ ap (λ n. src ++ drop n (take (suc e) (y ∷ xs))) {x = suc (0 + length src)} (omega arith))
drop_copy_before (suc i) zero src xs h k = absurd (omega arith)
drop_copy_before (suc i) (suc e) src [] h k = absurd (omega arith)
drop_copy_before (suc i) (suc e) src (y ∷ xs) h k =
    drop_copy_before i e src xs (omega arith) (omega arith)
    ∙ ap (λ n. src ++ drop n (take (suc e) (y ∷ xs))) {x = suc (i + length src)} (omega arith)

pub append_packet_length-unread :
    (l : ℕ) (b : Buffer)
    → IsValid b
    → l < 2 ^ 32
    → length (var_int_bytes l) ≤ b.start
    → (c : Buffer) × (append_packet_length l b ≡ ok c)
      × IsValid c
      × (unread c ≡ var_int_bytes l ++ unread b)
unfolding append_packet_length extend_header
append_packet_length-unread l b (p, q, r) small room =
    let n = length (var_int_bytes l) in
    let e = length-var_int_bytes l small in
    (
      record b { content = copy_at (b.start - n) (var_int_bytes l) b.content; start = b.start - n },
      rw (mod-eq_of_lt small, sym e, le→ltb b.start n room, le→ltb n n (omega arith)) refl,
      (
        omega (arith, p),
        q,
        omega (arith, r, length-copy_at (b.start - n) (var_int_bytes l) b.content),
      ),
      drop_copy_before (b.start - n) b.end (var_int_bytes l) b.content (omega (arith, room, p))
            (omega (arith, q, r))
          ∙ ap (λ k. var_int_bytes l ++ drop k (take b.end b.content)) (omega (arith, room)),
    )

pub bytes-unread : (b : Buffer) → IsValid b → bytes b ≡ ok (unread b)
unfolding bytes
bytes-unread b (p, q, r) = slice_lem b.content b.start b.end p (omega (arith, q, r))
