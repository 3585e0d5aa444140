-- ===== src/Mc/Strings.antt =====
-- common/mcprotocol/packet.go: `ReadLimitedString` on a string behind its length.
use zbproxy_a.Base.{
  ℕ, ◌+◌, ◌-◌, ◌^◌, ◌<◌, ◌≤◌, ◌≡◌, refl, ap, sym, ◌∙◌, List, ◌++◌, arith, length, take, drop,
  length-append, take-append, drop-append, le→ltb, ==-apart, lt→leb,
}
use zbproxy_a.Buf.{Buffer, ok, IsValid, unread, advance, peek, to}
use zbproxy_a.Buf.Slices.{take_as, drop-take, take-take, drop-drop, slice_lem}
use zbproxy_a.Buf.Queue.Methods.{length-unread}
use zbproxy_a.Mc.{read_limited_string, var_int_bytes}
use zbproxy_a.Mc.RoundTrip.{read_var_int-var_int_bytes}

pub advance-IsValid :
    (k : ℕ) (b : Buffer) → IsValid b → k ≤ length (unread b) → IsValid (advance k b)
unfolding advance
advance-IsValid k b (p, q, r) h = (omega (arith, length-unread b (p, q, r)), q, r)

pub unread-advance : (k : ℕ) (b : Buffer) → unread (advance k b) ≡ drop k (unread b)
unfolding advance
unread-advance k b = sym (drop-drop b.start k (take b.end b.content))

pub peek-take :
    (n : ℕ) (b : Buffer)
    → IsValid b
    → n ≤ length (unread b)
    → peek n b ≡ ok (take n (unread b), advance n b)
unfolding peek to advance
peek-take n b (p, q, r) h =
    let size = length-unread b (p, q, r) in
    rw
      (
        le→ltb b.end (b.start + n) (omega (arith, size)),
        slice_lem b.content b.start (b.start + n) (omega arith) (omega (arith, size)),
      )
      (ap (λ xs. ok (xs, record b { start = b.start + n }))
        (drop-take b.start (b.start + n) b.content
          ∙ take_as (omega arith) (drop b.start b.content)
          ∙ sym (take-take n (b.end - b.start) (drop b.start b.content) (omega (arith, size)))
          ∙ ap (take n) (sym (drop-take b.start b.end b.content))))

-- A string of at least one byte and fewer than 2 ^ 31, within the limit, that stands on a valid buffer
-- behind the VarInt of its length is read as it is, whatever follows it; its bytes and those of its
-- length are taken.
pub read_limited_string-var_int_bytes :
    (limit : ℕ) (s : List ℕ) (b : Buffer) (rest : List ℕ)
    → 0 < length s
    → length s ≤ limit
    → length s < 2 ^ 31
    → IsValid b
    → unread b ≡ var_int_bytes (length s) ++ (s ++ rest)
    → read_limited_string limit b
      ≡ ok (s, advance (length s) (advance (length (var_int_bytes (length s))) b))
unfolding read_limited_string
read_limited_string-var_int_bytes limit s b rest some fits small v e =
    let k = length (var_int_bytes (length s)) in
    let size : length (unread b) ≡ k + (length s + length rest) =
      ap length e
      ∙ omega (arith, length-append (var_int_bytes (length s)) (s ++ rest), length-append s rest) in
    let after : unread (advance k b) ≡ s ++ rest =
      unread-advance k b
      ∙ ap (drop k) e
      ∙ drop-append k (var_int_bytes (length s)) (s ++ rest) refl in
    let valid = advance-IsValid k b v (omega (arith, size)) in
    rw
      (
        read_var_int-var_int_bytes (length s) b (s ++ rest) (omega arith) v e,
        lt→leb (2 ^ 31) (length s) small,
        le→ltb limit (length s) fits,
        ==-apart (length s) 0 (λ z. absurd (omega (arith, some, z))),
      )
      (peek-take (length s) (advance k b) valid
          (omega (arith, ap length after, length-append s rest))
        ∙ ap (λ xs. ok (xs, advance (length s) (advance k b)))
            (ap (take (length s)) after ∙ take-append (length s) s rest refl))
