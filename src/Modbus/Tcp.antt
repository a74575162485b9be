-- ===== src/Modbus/Tcp.antt =====
-- The socket calls of the Modbus client. What lwIP answers to a call is an argument.
use smartmeterreader.Prelude.{
  ℕ, zero, suc, Bool, true, false, ◌==◌, if◌then◌else◌, List, [], ◌∷◌, Option, none, some,
}
use smartmeterreader.Prelude.Int.{ℤ, pos, negsuc}

pub data ModbusResult : Type 0 where
  ok busy fatal : ModbusResult

-- The values of `errno` that the program tells apart.
pub data Errno : Type 0 where
  eagain ewouldblock eintr einprogress : Errno
  other : ℕ → Errno

-- What a call of `read` or `write` returns, with `errno` and, of a `read`, the bytes put into its buffer.
pub record IoResult : Type 0 where
  pub bytes : ℤ
  pub errno : Errno
  pub received : List ℕ

unfoldable pub linux_is_try_again_error : Errno → Bool
linux_is_try_again_error eagain = true
linux_is_try_again_error ewouldblock = true
linux_is_try_again_error eintr = true
linux_is_try_again_error _ = false

-- The result and `*act_len`.
unfoldable pub linux_map_rc : Errno → ℤ → Bool → ModbusResult × ℕ
unfolding linux_is_try_again_error
linux_map_rc error (pos zero) is_read = (if is_read then fatal else ok, 0)
linux_map_rc error (pos (suc n)) is_read = (ok, suc n)
linux_map_rc error (negsuc n) is_read = (if linux_is_try_again_error error then busy else fatal, 0)

unfoldable pub tcp_read : ℕ → IoResult → ModbusResult × ℕ
unfolding linux_map_rc
tcp_read length io = if length == 0 then (ok, 0) else linux_map_rc io.errno io.bytes true

unfoldable pub tcp_write : ℕ → IoResult → ModbusResult × ℕ
unfolding linux_map_rc
tcp_write length io = if length == 0 then (ok, 0) else linux_map_rc io.errno io.bytes false

-- The answers to `inet_pton`, `socket` and `connect`; a descriptor is `none` if it is negative.
pub record OpenResult : Type 0 where
  pub pton_rc : ℤ
  pub socket_fd : Option ℕ
  pub connect_failed : Bool
  pub errno : Errno

abbrev pub in_progress : Errno → Bool
in_progress einprogress = true
in_progress _ = false

-- Behind `socket`: the descriptor that `tcp_open` returns, and the one that it closes itself.
unfoldable pub connect_socket : OpenResult → ℕ → Option ℕ × List ℕ
connect_socket r fd =
    if r.connect_failed
    then if in_progress r.errno then (some fd, []) else (none, fd ∷ [])
    else (some fd, [])

unfoldable pub open_socket : OpenResult → ℤ → Option ℕ → Option ℕ × List ℕ
unfolding connect_socket
open_socket r (pos (suc zero)) (some fd) = connect_socket r fd
open_socket r _ _ = (none, [])

unfoldable pub tcp_open : OpenResult → Option ℕ × List ℕ
unfolding open_socket
tcp_open r = open_socket r r.pton_rc r.socket_fd

-- The descriptors that `tcp_close` closes.
unfoldable pub tcp_close : Option ℕ → List ℕ
tcp_close none = []
tcp_close (some fd) = fd ∷ []

-- `poll_rc` is the answer of `poll`.
unfoldable pub tcp_connect : Option ℕ → ℤ → ModbusResult
tcp_connect none poll_rc = fatal
tcp_connect (some fd) (pos zero) = busy
tcp_connect (some fd) (pos (suc zero)) = ok
tcp_connect (some fd) _ = fatal
