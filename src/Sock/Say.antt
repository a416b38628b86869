-- ===== src/Sock/Say.antt =====
-- `finish &= sendbin(fd, bin, len, 0, g_ape)`, the statement by which messages are put together.
use ape_server.Prelude.{Bool, ◌&&◌, ◌≡◌, [], ◌++◌, append_assoc, append-nil, sym, ◌∙◌, false}
use ape_server.Prelude.Text.{CString}
use ape_server.Sock.{Socket, sendbin}
use ape_server.Sock.Stream.{IsSocket, stream, sendbin-Sent}

-- the socket, and the variable `finish`
pub record Out : Type 0 where
  pub socket : Socket
  pub finish : Bool

unfoldable pub say : CString → Out → Out
say b o = let (s, ok) = sendbin b false o.socket in record { socket = s; finish = o.finish && ok }

-- The socket is valid, and what was said since `o` is `b`.
pub record Said (o : Out) (b : CString) (o' : Out) : Type 0 where
  pub valid : IsSocket o'.socket
  pub bytes : stream o'.socket ≡ stream o.socket ++ b

pub say-Said : (b : CString) (o : Out) → IsSocket o.socket → Said o b (say b o)
unfolding say
say-Said b o v =
    let t = sendbin-Sent b false o.socket v in record { valid = t.valid; bytes = t.bytes }

pub Said-refl : (o : Out) → IsSocket o.socket → Said o [] o
Said-refl o v = record { valid = v; bytes = sym (append-nil (stream o.socket)) }

pub Said-trans :
    {o o' o'' : Out} {b c : CString} → Said o b o' → Said o' c o'' → Said o (b ++ c) o''
Said-trans {o} {b} {c} s t = record {
  valid = t.valid;
  bytes = t.bytes ∙ rw s.bytes (append_assoc (stream o.socket) b c);
}
