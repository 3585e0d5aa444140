-- ===== src/Buf/Queue/Refine.antt =====
-- common/buf/buffer.go: sequences of calls, on a buffer and on the bounded queue.
use zbproxy_a.Base.{
  ℕ, ◌+◌, ◌-◌, List, [], ◌∷◌, ltb, ◌==◌, length, ◌≡◌, refl, ap, ap₂, ◌∙◌, sym, arith, true, inl,
  inr, ltb→le, ==→ne, Bool-cases,
}
use zbproxy_a.Buf.{
  err, eof, short_buffer, Buffer, IsValid, unread, write, write_byte, read, read_byte, peek,
}
use zbproxy_a.Buf.Queue.{
  Answer, Queue, Op, view, apply, specify, writing, writing_byte, reading, reading_byte, peeking,
  outcome, outcome_byte,
}
use zbproxy_a.Buf.Queue.Methods.{
  Agrees, put_lem, write_byte_lem, read_lem, read_byte_lem, peek_lem, length-unread,
}

-- The answers to a sequence of calls.
unfoldable pub answers : List Op → Buffer → List Answer
unfolding apply
answers [] b = []
answers (op ∷ ops) b = (apply op b).0 ∷ answers ops (apply op b).1

unfoldable pub specify_all : List Op → Queue → List Answer
unfolding specify
specify_all [] q = []
specify_all (op ∷ ops) q = (specify op q).0 ∷ specify_all ops (specify op q).1

full_eq : (b : Buffer) → IsValid b → (b.end == b.size) ≡ (b.size - b.end == 0)
full_eq b (p, q, r) = ground arith

empty_eq : (b : Buffer) → IsValid b → (b.end == b.start) ≡ (length (unread b) == 0)
empty_eq b (p, q, r) = rw (length-unread b (p, q, r)) ground arith

short_eq : (b : Buffer) (n : ℕ) → IsValid b → ltb b.end (b.start + n) ≡ ltb (length (unread b)) n
short_eq b n (p, q, r) = rw (length-unread b (p, q, r)) ground arith

write_byte_full :
    (d : ℕ) (b : Buffer) → (b.end == b.size) ≡ true → write_byte d b ≡ err short_buffer
unfolding write_byte
write_byte_full d b e = rw e refl

read_empty : (n : ℕ) (b : Buffer) → (b.end == b.start) ≡ true → read n b ≡ err eof
unfolding read
read_empty n b e = rw e refl

read_byte_empty : (b : Buffer) → (b.end == b.start) ≡ true → read_byte b ≡ err eof
unfolding read_byte
read_byte_empty b e = rw e refl

peek_short : (n : ℕ) (b : Buffer) → ltb b.end (b.start + n) ≡ true → peek n b ≡ err short_buffer
unfolding peek
peek_short n b e = rw e refl

write-Agrees :
    (bs : List ℕ) (b : Buffer)
    → IsValid b
    → Agrees (specify (writing bs) (view b)) (apply (writing bs) b)
unfolding apply specify write outcome
write-Agrees bs b v = elim (Bool-cases (length bs == 0)) [
  | inl e ↦ rw e (refl, refl, refl, v)
  | inr e ↦ elim (Bool-cases (b.size - b.end == 0)) [
    | inl f ↦ rw (e, full_eq b v, f) (refl, refl, refl, v)
    | inr f ↦ rw (e, full_eq b v, f) (put_lem bs b v)
  ]
]

write_byte-Agrees :
    (d : ℕ) (b : Buffer)
    → IsValid b
    → Agrees (specify (writing_byte d) (view b)) (apply (writing_byte d) b)
unfolding apply specify outcome_byte
write_byte-Agrees d b v = elim (Bool-cases (b.size - b.end == 0)) [
  | inl f ↦ rw (f, write_byte_full d b (full_eq b v ∙ f)) (refl, refl, refl, v)
  | inr f ↦ rw f (write_byte_lem d b v (==→ne (b.size - b.end) 0 f))
]

read-Agrees :
    (n : ℕ) (b : Buffer) → IsValid b → Agrees (specify (reading n) (view b)) (apply (reading n) b)
unfolding apply specify outcome
read-Agrees n b v = elim (Bool-cases (length (unread b) == 0)) [
  | inl f ↦ rw (f, read_empty n b (empty_eq b v ∙ f)) (refl, refl, refl, v)
  | inr f ↦ rw f (read_lem n b v (==→ne (length (unread b)) 0 f))
]

read_byte-Agrees :
    (b : Buffer) → IsValid b → Agrees (specify reading_byte (view b)) (apply reading_byte b)
unfolding apply specify outcome
read_byte-Agrees b v = elim (Bool-cases (length (unread b) == 0)) [
  | inl f ↦ rw (f, read_byte_empty b (empty_eq b v ∙ f)) (refl, refl, refl, v)
  | inr f ↦ rw f (read_byte_lem b v (==→ne (length (unread b)) 0 f))
]

peek-Agrees :
    (n : ℕ) (b : Buffer) → IsValid b → Agrees (specify (peeking n) (view b)) (apply (peeking n) b)
unfolding apply specify outcome
peek-Agrees n b v = elim (Bool-cases (ltb (length (unread b)) n)) [
  | inl f ↦ rw (f, peek_short n b (short_eq b n v ∙ f)) (refl, refl, refl, v)
  | inr f ↦ rw f (peek_lem n b v (ltb→le (length (unread b)) n f))
]

apply-Agrees : (op : Op) (b : Buffer) → IsValid b → Agrees (specify op (view b)) (apply op b)
apply-Agrees (writing bs) b v = write-Agrees bs b v
apply-Agrees (writing_byte d) b v = write_byte-Agrees d b v
apply-Agrees (reading n) b v = read-Agrees n b v
apply-Agrees reading_byte b v = read_byte-Agrees b v
apply-Agrees (peeking n) b v = peek-Agrees n b v

-- Whatever the sequence of calls of Write, WriteByte, Read, ReadByte and Peek on a buffer whose
-- positions are in order, every call answers what the bounded queue of the unread bytes and the free
-- room answers: the bytes come out as they went in, and no call panics.
pub answers-specify_all :
    (ops : List Op) (b : Buffer) → IsValid b → answers ops b ≡ specify_all ops (view b)
unfolding answers specify_all
answers-specify_all [] b v = refl
answers-specify_all (op ∷ ops) b v =
    let (e, f, g, w) = apply-Agrees op b v in
    ap₂ (◌∷◌) (sym e) (
      answers-specify_all ops (apply op b).1 w
      ∙ ap (specify_all ops) (ap₂ (λ c r. record { contents = c; room = r }) (sym f) (sym g)))
