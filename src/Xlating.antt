-- ===== src/Xlating.antt =====
-- src/xlating.c: the filter that shifts a client's frequency to zero, filters and decimates. This
-- file has what its variants share: the history kept between two calls, the loop over the
-- positions of the working buffer and the copy that follows. A variant is a `Kernel`.
pub mod Reference
pub mod Loop
pub mod Buffer
pub mod Refine
pub mod Stream
pub mod Taps
pub mod Input
pub mod Cf32
pub mod Simd
pub mod Optimized
pub mod Cs16
pub mod Reverse
pub mod Create
use sdr_server.Prelude.{
  ◌>>=◌, ◌<◌, ℕ, zero, suc, ◌+◌, ◌-◌, ◌*◌, ◌/◌, Bool, true, false, Option, none, some, List, [],
  ◌∷◌, ◌++◌, ltb, leb, if◌then◌else◌, length, take, drop,
}

-- What a variant does at one position of the buffer with the current phase (`none`: it reads past
-- a buffer's end), how the phase goes on, and what becomes of it after the loop.
pub record Kernel (A B P : Type 0) : Type 0 where
  pub output_at : List A → ℕ → P → Option B
  pub turn : P → P
  pub renormalise : P → P

-- The fields of `xlating_t` that change or bound the loops. A filter is used with samples of one
-- kind, so it has one working buffer here, of `working_buffer_len_samples` samples.
pub record Xlating (A P : Type 0) : Type 0 where
  pub decimation : ℕ
  pub taps_len : ℕ
  pub working_buffer : List A
  pub history_offset : ℕ
  pub output_len_samples : ℕ
  pub phase : P

-- Samples stored from an index on; `none` if they do not fit the buffer.
abbrev pub write_at : {A : Type 0} → ℕ → List A → List A → Option (List A)
write_at i xs buf =
    if leb (i + length xs) (length buf)
    then some (take i buf ++ (xs ++ drop (i + length xs) buf))
    else none

-- `for (; current_index < max_index; current_index += decimation, produced++)`. The output buffer
-- has `room` samples.
unfoldable pub loop :
    {A B P : Type 0}
    → Kernel A B P
    → List A
    → (decimation room max_index : ℕ) → (fuel current_index produced : ℕ) → P
    → Option (List B × ℕ × P)
loop k buf decimation room max_index zero current_index produced phase = none
loop k buf decimation room max_index (suc fuel) current_index produced phase =
    let next =
      if ltb produced room
      then (k.output_at buf current_index phase >>= λ y.
          loop k buf decimation room max_index fuel (current_index + decimation) (produced + 1)
            (k.turn phase)
          >>= λ (ys, last, phase'). some (y ∷ ys, last, phase'))
      else none in
    if ltb current_index max_index then next else some ([], current_index, phase)

-- "preserve history for the next execution". A history of negative length is a copy of almost
-- 2 ^ 64 samples: `none`.
unfoldable pub preserve_history : {A : Type 0} → ℕ → ℕ → List A → Option (List A)
preserve_history working_len current_index buf =
    if ltb working_len current_index
    then none
    else if ltb 0 current_index
    then write_at 0 (take (working_len - current_index) (drop current_index buf)) buf
    else some buf

-- The guard "input might not have enough data to produce output sample", and the loop.
unfoldable pub positions :
    {A B P : Type 0} → Kernel A B P → Xlating A P → ℕ → Option (List B × ℕ × P)
positions k f working_len =
    if ltb (f.taps_len - 1) working_len
    then (loop k f.working_buffer f.decimation f.output_len_samples (working_len - (f.taps_len - 1))
          (suc working_len) 0 0 f.phase
        >>= λ (ys, last, phase). some (ys, last, k.renormalise phase))
    else some ([], 0, f.phase)

-- `process_native_cf32` and its siblings: the input stands in the buffer behind the history.
unfoldable pub process :
    {A B P : Type 0} → Kernel A B P → ℕ → Xlating A P → Option (List B × Xlating A P)
process k input_len f =
    let working_len = f.history_offset + input_len in
    positions k f working_len >>= λ (ys, current_index, phase).
    preserve_history working_len current_index f.working_buffer >>= λ buf. some (
      ys,
      record f {
        working_buffer = buf;
        history_offset = working_len - current_index;
        phase = phase;
      },
    )

-- An entry point: the converted input is stored behind the history, and processed.
unfoldable pub feed :
    {A B P : Type 0} → Kernel A B P → List A → Xlating A P → Option (List B × Xlating A P)
feed k input f = write_at f.history_offset input f.working_buffer >>= λ buf.
    process k (length input) (record f { working_buffer = buf })
