-- ===== src/Net.antt =====
-- The part of Go's `net` and `io` that the program uses on a stream connection.
-- A connection is what its peer sends until the stream ends, what it was sent, how many more
-- bytes the network takes before writes fail, and whether it was closed here.
pub mod Laws
pub mod Wire
use rathole_pro.Prelude.{
  ℕ, ◌+◌, ◌-◌, ◌≡◌, Bool, true, false, List, [], ◌∷◌, ◌++◌, leb, ◌==◌, if◌then◌else◌, length, take,
  drop, replicate,
}
use rathole_pro.Prelude.Exec.{Err, eof, unexpected_eof, closed_conn, short_write, ok, err, Exec}

pub record Conn : Type 0 where
  pub incoming : List ℕ
  pub outgoing : List ℕ
  pub room : ℕ
  pub closed : Bool

-- The error of a read that got these bytes only.
abbrev pub short_read : List ℕ → Err
short_read [] = eof
short_read (_ ∷ _) = unexpected_eof

-- `io.ReadFull(conn, make([]byte, n))`: all `n` bytes, or an error that says if any came.
unfoldable pub read_full : ℕ → Exec Conn (List ℕ)
read_full n c =
    if n == 0
    then (ok [], c)
    else if c.closed
    then (err closed_conn, c)
    else if leb n (length c.incoming)
    then (ok (take n c.incoming), record c { incoming = drop n c.incoming })
    else (err (short_read c.incoming), record c { incoming = [] })

-- The buffer after `io.ReadFull` with its error ignored: what came, and zeros behind it.
unfoldable pub read_padded : ℕ → Exec Conn (List ℕ)
read_padded n c = if c.closed then (ok (replicate n 0), c) else (
  ok (take n c.incoming ++ replicate (n - length c.incoming) 0),
  record c { incoming = drop n c.incoming },
)

-- `conn.Write(b)`: the number of bytes sent, or an error after what still fitted.
unfoldable pub write : List ℕ → Exec Conn ℕ
write b c =
    if c.closed
    then (err closed_conn, c)
    else if leb (length b) c.room
    then (ok (length b), record c { outgoing = c.outgoing ++ b; room = c.room - length b })
    else (err short_write, record c { outgoing = c.outgoing ++ take c.room b; room = 0 })

unfoldable pub close : Exec Conn (Unit {0})
close c = (ok tt, record c { closed = true })
