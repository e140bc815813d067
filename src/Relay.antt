-- ===== src/Relay.antt =====
-- go-core/relay/relay.go: two copies between two connections, until both have ended.
-- `io.Copy` is the standard library's: it reads what has come, in pieces of any size, and writes
-- each piece, until the source has ended or a read or a write fails. The two copies and the
-- network run in any order, so a run is a list of events.
pub mod Order
pub mod Ends
pub mod Tunnel
pub mod Closing
pub mod Returns
use rathole_pro.Prelude.{
  ℕ, ◌≡◌, Bool, true, false, not, ◌&&◌, ◌||◌, List, [], ◌∷◌, ◌++◌, if◌then◌else◌, take, drop,
}
use rathole_pro.Net.{Conn}

-- What has come and was not read, whether the peer has ended its side, what was written, whether
-- this end is a `*net.TCPConn`, and what was called on it.
pub record End : Type 0 where
  pub incoming : List ℕ
  pub eof : Bool
  pub outgoing : List ℕ
  pub is_tcp : Bool
  pub write_closed : Bool
  pub closed : Bool

-- A TCP connection, and a stream of yamux, as the copies see them.
abbrev pub end_of : Bool → Conn → End
end_of is_tcp c = record {
  incoming = c.incoming;
  eof = false;
  outgoing = c.outgoing;
  is_tcp = is_tcp;
  write_closed = false;
  closed = c.closed;
}

-- The copy into `a` is `io.Copy(a, b)`.
pub data Copy : Type 0 where
  into_a into_b : Copy

pub record Relaying : Type 0 where
  pub a : End
  pub b : End
  pub into_a_done : Bool
  pub into_b_done : Bool

abbrev pub start_relay : End → End → Relaying
start_relay a b = record { a = a; b = b; into_a_done = false; into_b_done = false }

pub data Event : Type 0 where
  -- Bytes come to the source of a copy, or its end does.
  arrives : Copy → List ℕ → Event
  ends : Copy → Event
  -- A copy moves a piece, sees the end of its source, or stops at an error; what it had read and
  -- not written then counts as not read.
  moves : Copy → ℕ → Event
  finishes : Copy → Event
  fails : Copy → Event

abbrev pub source : Copy → Relaying → End
source into_a r = r.b
source into_b r = r.a

abbrev pub target : Copy → Relaying → End
target into_a r = r.a
target into_b r = r.b

abbrev with_source : Copy → (End → End) → Relaying → Relaying
with_source into_a f r = record r { b = f r.b }
with_source into_b f r = record r { a = f r.a }

abbrev with_target : Copy → (End → End) → Relaying → Relaying
with_target into_a f r = record r { a = f r.a }
with_target into_b f r = record r { b = f r.b }

abbrev pub copy_done : Copy → Relaying → Bool
copy_done into_a r = r.into_a_done
copy_done into_b r = r.into_b_done

abbrev set_done : Copy → Relaying → Relaying
set_done into_a r = record r { into_a_done = true }
set_done into_b r = record r { into_b_done = true }

abbrev pub is_nil : List ℕ → Bool
is_nil [] = true
is_nil (_ ∷ _) = false

abbrev arrive : List ℕ → End → End
arrive bytes e = if e.eof then e else record e { incoming = e.incoming ++ bytes }

-- One piece of at most `n` bytes.
unfoldable pub move : Copy → ℕ → Relaying → Relaying
move c n r =
    let piece = take n (source c r).incoming in
    with_target c (λ e. record e { outgoing = e.outgoing ++ piece })
      (with_source c (λ e. record e { incoming = drop n e.incoming }) r)

-- `CloseWrite`, which only a TCP connection has here.
unfoldable pub close_write : End → End
close_write e = if e.is_tcp then record e { write_closed = true } else e

unfoldable pub close_end : End → End
close_end e = record e { closed = true }

-- The end of a copy: half-close its target, and after the second one close both connections.
unfoldable pub end_copy : Copy → Relaying → Relaying
end_copy c r =
    let s = set_done c (with_target c close_write r) in
    if s.into_a_done && s.into_b_done then record s { a = close_end s.a; b = close_end s.b } else s

-- Whether a read of the source or a write to the target fails at once, since it was closed here.
abbrev pub is_cut : Copy → Relaying → Bool
is_cut c r = (source c r).closed || (target c r).closed

unfoldable pub relay_step : Event → Relaying → Relaying
relay_step (arrives c bytes) r = with_source c (arrive bytes) r
relay_step (ends c) r = with_source c (λ e. record e { eof = true }) r
relay_step (moves c n) r = if copy_done c r || is_cut c r then r else move c n r
relay_step (finishes c) r =
    if not (copy_done c r || (source c r).closed)
      && (source c r).eof
      && is_nil (source c r).incoming
    then end_copy c r
    else r
relay_step (fails c) r = if copy_done c r then r else end_copy c r

unfoldable pub relay : List Event → Relaying → Relaying
relay [] r = r
relay (e ∷ es) r = relay es (relay_step e r)
