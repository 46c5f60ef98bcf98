-- ===== src/Logger/Rotation.antt =====
-- src/logger.c: how large the log file and its old generation become.
use sdr_server.Prelude.{ℕ, ◌+◌, ◌≤◌, ◌<◌, ◌≡◌, ◌⊎◌, Bool, true, List, [], ◌∷◌, All, arith, Option}
use sdr_server.Logger.{Log, fits, log_init, maybe_rotate, Entry, bytes, write_entry, log_all}

-- `before` is what the file had when the program started, `old` what its old generation had, and
-- `longest` the length of an entry at most.
pub record IsBounded (before old longest : ℕ) (l : Log) : Type 0 where
  pub whole : l.is_whole ≡ true
  pub room : 0 < l.max_bytes
  pub below : l.is_open ≡ true → l.written < l.max_bytes
  pub counted : l.is_open ≡ true → l.size ≤ before + l.written
  pub kept : (l.old_size ≡ old) ⊎ (l.old_size < before + l.max_bytes + longest)

abbrev pub IsShort : ℕ → Entry → Type 0
IsShort longest e = bytes e.prefix + bytes e.message + 1 ≤ longest

write_entry-IsBounded :
    (before old longest : ℕ) (e : Entry) (l : Log)
    → IsShort longest e
    → IsBounded before old longest l
    → IsBounded before old longest (write_entry e l)
unfolding write_entry maybe_rotate
write_entry-IsBounded before old longest e l h b = ground arith

log_init-IsBounded :
    (path : Option ℕ) (opens : Bool) (max_bytes before old longest : ℕ)
    → fits path ≡ true
    → IsBounded before old longest (log_init path opens max_bytes before old)
unfolding log_init
log_init-IsBounded path opens max_bytes before old longest w = ground arith

entries-IsBounded :
    (before old longest : ℕ) (es : List Entry) (l : Log)
    → All (IsShort longest) es
    → IsBounded before old longest l
    → IsBounded before old longest (log_all es l)
unfolding log_all
entries-IsBounded before old longest [] l h b = b
entries-IsBounded before old longest (e ∷ es) l (h, hs) b =
    entries-IsBounded before old longest es (write_entry e l) hs
      (write_entry-IsBounded before old longest e l h b)

-- Whatever is logged, and whatever rename and fopen answer, if the path is no longer than the 511
-- bytes that are kept of it: while the file is open, fewer bytes
-- than the limit have been counted since it was opened or rotated, it has no more than those and
-- what it had at the start, and an old generation that a rotation made is shorter than what the
-- file had at the start, the limit and the longest entry together.
pub log_all-IsBounded :
    (path : Option ℕ) (opens : Bool) (max_bytes before old longest : ℕ) (es : List Entry)
    → fits path ≡ true
    → All (IsShort longest) es
    → IsBounded before old longest (log_all es (log_init path opens max_bytes before old))
log_all-IsBounded path opens max_bytes before old longest es w h =
    entries-IsBounded before old longest es (log_init path opens max_bytes before old) h
      (log_init-IsBounded path opens max_bytes before old longest w)
