-- ===== src/Logger.antt =====
-- src/logger.c: the log file that is rotated by size. The system's log and the text of an entry
-- are left out; an entry is the lengths that fprintf and vfprintf return.
pub mod Rotation
use sdr_server.Prelude.{
  ℕ, suc, ◌+◌, ◌*◌, Bool, true, false, not, ◌||◌, Option, none, some, List, [], ◌∷◌, ltb, leb, ◌==◌,
  if◌then◌else◌,
}

abbrev pub log_max_bytes_default : ℕ
log_max_bytes_default = 5 * 1024 * 1024

-- The static variables, and the sizes on disk of the file and of its old generation.
pub record Log : Type 0 where
  pub is_open : Bool
  pub max_bytes : ℕ
  pub written : ℕ
  pub size : ℕ
  pub old_size : ℕ
  pub is_whole : Bool

-- What `s_path` holds of a path: 511 bytes.
abbrev pub kept_of_path : ℕ
kept_of_path = 511

-- `path` is its length; `is_whole` says that `s_path` names the file that is open. The file is opened to append; what it has is not counted.
abbrev pub has_file : Option ℕ → Bool → Bool
has_file none opens = false
has_file (some n) opens = opens

abbrev pub fits : Option ℕ → Bool
fits none = true
fits (some n) = leb n kept_of_path

unfoldable pub log_init : (path : Option ℕ) (opens : Bool) → (max_bytes size old_size : ℕ) → Log
log_init path opens max_bytes size old_size = record {
  is_open = has_file path opens;
  max_bytes = if max_bytes == 0 then log_max_bytes_default else max_bytes;
  written = 0;
  size = size;
  old_size = old_size;
  is_whole = fits path;
}

-- What rename and fopen answer in a rotation, and the size of the file that `s_path` names if it is
-- another one. A file that is opened to write is emptied; it is then the one that `s_path` names.
pub record Rotated : Type 0 where
  pub renames : Bool
  pub reopens : Bool
  pub other : ℕ

unfoldable pub maybe_rotate : Rotated → Log → Log
maybe_rotate a l = if not l.is_open || ltb l.written l.max_bytes then l else record l {
  is_open = a.reopens;
  written = 0;
  size = if a.reopens then 0 else if a.renames then (if l.is_whole then 0 else l.size) else l.size;
  old_size = if a.renames then (if l.is_whole then l.size else a.other) else l.old_size;
  is_whole = true;
}

-- The bytes of the prefix and of the message; `none` for a call that fails.
pub record Entry : Type 0 where
  pub prefix : Option ℕ
  pub message : Option ℕ
  pub answers : Rotated

abbrev pub bytes : Option ℕ → ℕ
bytes none = 0
bytes (some n) = n

unfoldable pub write_entry : Entry → Log → Log
unfolding maybe_rotate
write_entry e l =
    if l.is_open
    then maybe_rotate e.answers (record l {
      written = l.written + bytes e.prefix + bytes e.message + 1;
      size = l.size + bytes e.prefix + bytes e.message + 1;
    })
    else l

unfoldable pub log_all : List Entry → Log → Log
unfolding write_entry
log_all [] l = l
log_all (e ∷ es) l = log_all es (write_entry e l)
