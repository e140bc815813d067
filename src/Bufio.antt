-- ===== src/Bufio.antt =====
-- The part of Go's `bufio` that the program uses: a reader that takes more from a connection than
-- it has been asked for. What it has taken stays with it, and is gone from the connection.
-- `ahead i` says how many bytes behind the line the connection gives with it at call number `i`;
-- the buffer has 4096 bytes.
pub mod Heads
pub mod Exact
use rathole_pro.Prelude.{
  ℕ, ◌+◌, ◌-◌, ◌≡◌, refl, Bool, true, false, List, [], ◌∷◌, ◌++◌, append_assoc, Option, none, some,
  leb, min, if◌then◌else◌, length, length-append, take, drop, take-append-drop, arith,
}
use rathole_pro.Prelude.Text.{cut, cut_lem, Lacks}
use rathole_pro.Prelude.Exec.{eof, closed_conn, ok, err, Exec}
use rathole_pro.Net.{Conn}

pub record Reader : Type 0 where
  pub conn : Conn
  pub buffered : List ℕ
  pub ahead : ℕ → ℕ
  pub calls : ℕ

abbrev pub new_reader : Conn → (ℕ → ℕ) → Reader
new_reader conn ahead = record { conn = conn; buffered = []; ahead = ahead; calls = 0 }

abbrev pub buffer_size : ℕ
buffer_size = 4096

-- How many of the bytes behind a line of this length are in the buffer after it.
abbrev pub look_ahead : Reader → ℕ → ℕ
look_ahead r size =
    if leb size (length r.buffered)
    then length r.buffered - size
    else min (buffer_size - 1) (r.ahead r.calls)

-- What is not read yet.
abbrev pub unread : Reader → List ℕ
unread r = r.buffered ++ r.conn.incoming

-- `ReadString('\n')` and `ReadBytes('\n')`: a line with its end. A line that does not end is
-- dropped, with the error of the connection.
unfoldable pub read_line : Exec Reader (List ℕ)
read_line r =
    let visible = if r.conn.closed then r.buffered else unread r in
    elim (cut b'\n' visible) [
      | none ↦ (
        err (if r.conn.closed then closed_conn else eof),
        record r {
          conn = record r.conn { incoming = if r.conn.closed then r.conn.incoming else [] };
          buffered = [];
          calls = r.calls + 1;
        },
      )
      | some (front, back) ↦
          let line = front ++ b'\n' ∷ [] in
          let kept = look_ahead r (length line) in
          (
            ok line,
            record r {
              conn = record r.conn {
                incoming = if r.conn.closed then r.conn.incoming else drop kept back;
              };
              buffered = take kept back;
              calls = r.calls + 1;
            },
          )
    ]

-- `s` has read what stood in front of `rest`, and changed nothing else.
pub record ReadsUpTo (r s : Reader) (rest : List ℕ) : Type 0 where
  pub left : unread s ≡ rest
  pub same_conn : s.conn ≡ record r.conn { incoming = s.conn.incoming }

pub read_line_ok :
    (line rest : List ℕ) (r : Reader)
    → Lacks b'\n' line
    → r.conn.closed ≡ false
    → unread r ≡ line ++ b'\n' ∷ rest
    → ((read_line r).0 ≡ ok (line ++ b'\n' ∷ [])) × ReadsUpTo r (read_line r).1 rest
unfolding read_line
read_line_ok line rest r h open_conn e = ground (
  arith,
  cut_lem b'\n' line rest h,
  take-append-drop (look_ahead r (length (line ++ b'\n' ∷ []))) rest,
)
