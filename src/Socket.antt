-- ===== src/Socket.antt =====
-- Blocking socket input and output, as the loops of src/tcp_server.c, src/dsp_worker.c and
-- src/client/tcp_client.c see it.
pub mod Reading
pub mod Writing
pub mod Consumption
pub mod Waiting
use sdr_server.Prelude.{
  ℕ, zero, suc, ◌-◌, Bool, List, [], ◌∷◌, ◌++◌, leb, if◌then◌else◌, length, take, drop,
}

-- What one `recv` finds: bytes (none of them: the peer has closed), the read timeout, a signal,
-- or another error. The end of a list of these is a closed socket.
pub data Recv : Type 0 where
  chunk : List ℕ → Recv
  would_block interrupted broken : Recv

-- `read_struct` returns 0, `-errno` below -1 at the timeout, or -1.
pub data Read : Type 0 where
  done : List ℕ → Read
  timed_out lost : Read

-- The first number is `left`, the list the bytes that are already in the structure.
unfoldable pub read_struct : ℕ → List ℕ → List Recv → Read × List Recv
read_struct zero got s = (done got, s)
read_struct (suc l) got [] = (lost, [])
read_struct (suc l) got (would_block ∷ s) = (timed_out, s)
read_struct (suc l) got (interrupted ∷ s) = read_struct (suc l) got s
read_struct (suc l) got (broken ∷ s) = (lost, s)
read_struct (suc l) got (chunk [] ∷ s) = (lost, s)
read_struct (suc l) got (chunk (b ∷ bs) ∷ s) =
    let rest = read_struct (suc l - length (b ∷ bs)) (got ++ b ∷ bs) s in
    if leb (length (b ∷ bs)) (suc l)
    then rest
    else (done (got ++ take (suc l) (b ∷ bs)), chunk (drop (suc l) (b ∷ bs)) ∷ s)

-- What one `write` of the bytes that are left does: it takes at most a number of them, or fails.
pub data Write : Type 0 where
  wrote : ℕ → Write
  failed : Write

-- `blocked`: the outcomes ran out before the bytes did, and the caller waits in `write`.
pub data Sent : Type 0 where
  sent write_failed blocked : Sent

-- The loop around `write`: the bytes that went out, and how it ended.
unfoldable pub write_all : List ℕ → List Write → List ℕ × Sent
write_all [] ws = ([], sent)
write_all (b ∷ bs) [] = ([], blocked)
write_all (b ∷ bs) (failed ∷ ws) = ([], write_failed)
write_all (b ∷ bs) (wrote k ∷ ws) =
    let (out, end) = write_all (drop k (b ∷ bs)) ws in (take k (b ∷ bs) ++ out, end)
