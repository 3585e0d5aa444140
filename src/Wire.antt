-- ===== src/Wire.antt =====
-- The part of Go's `net.Conn` and `io.ReadFull` that the inbound side reads with: the bytes still to
-- come, how they end, and the read deadline.
use zbproxy_a.Base.{ℕ, List, leb, if◌then◌else◌, length, take, drop, Option, none, some, []}

-- After its last byte the other side closes the stream, the connection breaks, or nothing comes.
pub data Ending : Type 0 where
  closes breaks stalls : Ending

pub record Conn : Type 0 where
  pub incoming : List ℕ
  pub ending : Ending
  pub deadline : Option ℕ

-- `ended` is io.EOF and io.ErrUnexpectedEOF, `failed` any other error, the deadline's among them.
pub data Read : Type 0 where
  got : List ℕ → Conn → Read
  ended failed : Conn → Read
  hangs : Read

unfoldable pub set_read_deadline : Option ℕ → Conn → Conn
set_read_deadline d c = record c { deadline = d }

unfoldable pub read_full : ℕ → Conn → Read
read_full n c =
    let after = record c { incoming = [] } in
    if leb n (length c.incoming)
    then got (take n c.incoming) (record c { incoming = drop n c.incoming })
    else elim c.ending [
      | closes ↦ ended after
      | breaks ↦ failed after
      | stalls ↦ elim c.deadline [ some d ↦ failed after | none ↦ hangs ]
    ]
