-- ===== src/Buf/Queue.antt =====
-- common/buf/buffer.go read as a queue: the methods that write take room behind the unread bytes, the
-- methods that read take the unread bytes from the front.
pub mod Methods
pub mod Refine
use zbproxy_a.Base.{
  ℕ, zero, suc, ◌+◌, ◌-◌, ◌≤◌, ◌<◌, min, List, [], ◌∷◌, ◌++◌, ltb, leb, ◌==◌, if◌then◌else◌, length,
  take, drop, get_elem?, Option, none, some, ◌≡◌, refl, arith, true, false,
}
use zbproxy_a.Buf.{
  Error, eof, short_buffer, Result, ok, err, panic, Buffer, IsValid, write, write_byte, read,
  read_byte, peek, unread,
}

pub data Op : Type 0 where
  writing : List ℕ → Op
  writing_byte : ℕ → Op
  reading : ℕ → Op
  reading_byte : Op
  peeking : ℕ → Op

-- What the caller sees of one call.
pub data Answer : Type 0 where
  wrote : ℕ → Answer
  gave : List ℕ → Answer
  failed : Error → Answer
  crashed : Answer

pub record Queue : Type 0 where
  pub contents : List ℕ
  pub room : ℕ

abbrev pub view : Buffer → Queue
view b = record { contents = unread b; room = b.size - b.end }

unfoldable pub outcome {ℓ} :
    {A : Type ℓ} → (A → Answer) → Buffer → Result (A × Buffer) → Answer × Buffer
outcome f b (ok (a, c)) = (f a, c)
outcome f b (err e) = (failed e, b)
outcome f b panic = (crashed, b)

unfoldable pub outcome_byte : Buffer → Result Buffer → Answer × Buffer
outcome_byte b (ok c) = (wrote 1, c)
outcome_byte b (err e) = (failed e, b)
outcome_byte b panic = (crashed, b)

unfoldable pub apply : Op → Buffer → Answer × Buffer
apply (writing bs) b = outcome wrote b (write bs b)
apply (writing_byte d) b = outcome_byte b (write_byte d b)
apply (reading n) b = outcome gave b (read n b)
apply reading_byte b = outcome (λ x. gave (x ∷ [])) b (read_byte b)
apply (peeking n) b = outcome gave b (peek n b)

-- The same calls on a bounded queue of bytes.
unfoldable pub give : ℕ → Queue → Answer × Queue
give n q = (gave (take n q.contents), record q { contents = drop n q.contents })

unfoldable pub append : List ℕ → Queue → Answer × Queue
append xs q = (wrote (length xs), record { contents = q.contents ++ xs; room = q.room - length xs })

unfoldable pub specify : Op → Queue → Answer × Queue
specify (writing bs) q =
    if length bs == 0
    then (wrote 0, q)
    else if q.room == 0
    then (failed short_buffer, q)
    else append (take q.room bs) q
specify (writing_byte d) q = if q.room == 0 then (failed short_buffer, q) else append (d ∷ []) q
specify (reading n) q = if length q.contents == 0 then (failed eof, q) else give n q
specify reading_byte q = if length q.contents == 0 then (failed eof, q) else give 1 q
specify (peeking n) q = if ltb (length q.contents) n then (failed short_buffer, q) else give n q
