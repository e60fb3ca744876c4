-- ===== src/Ipc/Framing.antt =====
-- The length-prefixed frames of src/ipc.rs. The socket's bytes are a list: `write_frame` appends to
-- them, `read_frame` takes a frame from their front.
use agent_mqtt_chat.Base.{
  ℕ, zero, suc, ◌+◌, ◌*◌, ◌/◌, ◌%◌, ◌^◌, ◌≤◌, ◌<◌, Bytes, ltb, false, List, [], ◌∷◌, ◌++◌, length,
  take, drop, All, Result, ok, err, ◌>>=◌, ◌≡◌, refl, ap, sym, ◌∙◌, if◌then◌else◌, length-append,
  arith,
}

-- Why no frame is read.
pub data FrameError : Type 0 where
  unexpected_end : FrameError
  invalid_data : ℕ → FrameError

-- `u32::to_le_bytes`
abbrev pub to_le_bytes : ℕ → Bytes
to_le_bytes n = n % 256 ∷ n / 2 ^ 8 % 256 ∷ n / 2 ^ 16 % 256 ∷ n / 2 ^ 24 % 256 ∷ []

-- Write a length-prefixed frame; the length is cast to 32 bits.
unfoldable pub write_frame : Bytes → Bytes → Bytes
write_frame stream bytes = stream ++ (to_le_bytes (length bytes % 2 ^ 32) ++ bytes)

-- Maximum accepted frame size (16 MiB).
abbrev pub max_frame_len : ℕ
max_frame_len = 16 * 1024 * 1024

-- The frame's bytes behind its length.
abbrev pub read_body : ℕ → Bytes → Result FrameError (Bytes × Bytes)
read_body n rest =
    if ltb max_frame_len n
    then err (invalid_data n)
    else if ltb (length rest) n
    then err unexpected_end
    else ok (take n rest, drop n rest)

-- The frame, and what is left of the stream.
unfoldable pub read_frame : Bytes → Result FrameError (Bytes × Bytes)
read_frame (a ∷ b ∷ c ∷ d ∷ rest) = read_body (a + b * 2 ^ 8 + c * 2 ^ 16 + d * 2 ^ 24) rest
read_frame _ = err unexpected_end

le_bytes_lem :
    (n : ℕ)
    → n < 2 ^ 32
    → n % 256 + n / 2 ^ 8 % 256 * 2 ^ 8 + n / 2 ^ 16 % 256 * 2 ^ 16 + n / 2 ^ 24 % 256 * 2 ^ 24 ≡ n
le_bytes_lem n h = omega arith

take-append : (xs ys : Bytes) → take (length xs) (xs ++ ys) ≡ xs
take-append [] ys = refl
take-append (x ∷ xs) ys = ap (λ (s : Bytes). x ∷ s) (take-append xs ys)

drop-append : (xs ys : Bytes) → drop (length xs) (xs ++ ys) ≡ ys
drop-append [] ys = refl
drop-append (x ∷ xs) ys = drop-append xs ys

append_nil : (xs : Bytes) → xs ++ [] ≡ xs
append_nil [] = refl
append_nil (x ∷ xs) = ap (λ (s : Bytes). x ∷ s) (append_nil xs)

append_assoc : (xs ys zs : Bytes) → (xs ++ ys) ++ zs ≡ xs ++ (ys ++ zs)
append_assoc [] ys zs = refl
append_assoc (x ∷ xs) ys zs = ap (λ (s : Bytes). x ∷ s) (append_assoc xs ys zs)

read_body-append :
    (bytes rest : Bytes)
    → read_body (length bytes) (bytes ++ rest) ≡ (
        if ltb max_frame_len (length bytes)
        then err (invalid_data (length bytes))
        else ok (bytes, rest))
read_body-append bytes rest =
    rw (take-append bytes rest, drop-append bytes rest)
      (ground (arith, length-append {0} bytes rest))

-- A frame of less than 2^32 bytes that is written on a socket is read from it as it was, and leaves what
-- follows it; if it is longer than the maximum, the reader refuses it by its length prefix. The prefix of
-- a longer frame wraps around.
pub read_frame-write_frame :
    (bytes rest : Bytes)
    → length bytes < 2 ^ 32
    → read_frame (write_frame [] bytes ++ rest) ≡ (
        if ltb max_frame_len (length bytes)
        then err (invalid_data (length bytes))
        else ok (bytes, rest))
unfolding read_frame write_frame
read_frame-write_frame bytes rest h =
    let n = length bytes in
    let small : n % 2 ^ 32 ≡ n = omega arith in
    rw (small, le_bytes_lem n h) (read_body-append bytes rest)

-- A session of frames, one behind the other.
unfoldable pub write_frames : Bytes → List Bytes → Bytes
write_frames stream [] = stream
write_frames stream (d ∷ ds) = write_frames (write_frame stream d) ds

unfoldable pub read_frames : ℕ → Bytes → Result FrameError (List Bytes × Bytes)
read_frames zero stream = ok ([], stream)
read_frames (suc n) stream = do
  (d, rest) ← read_frame stream
  (ds, end) ← read_frames n rest
  ok (d ∷ ds, end)

write_frames-append :
    (stream : Bytes) (ds : List Bytes) → write_frames stream ds ≡ stream ++ write_frames [] ds
unfolding write_frames write_frame
write_frames-append stream [] = sym (append_nil stream)
write_frames-append stream (d ∷ ds) =
    let frame = to_le_bytes (length d % 2 ^ 32) ++ d in
    let whole : write_frames (stream ++ frame) ds ≡ (stream ++ frame) ++ write_frames [] ds =
      write_frames-append (stream ++ frame) ds in
    let alone : write_frames frame ds ≡ frame ++ write_frames [] ds =
      write_frames-append frame ds in
    whole
    ∙ append_assoc stream frame (write_frames [] ds)
    ∙ ap (λ (s : Bytes). stream ++ s) (sym alone)

-- Frames within the maximum, written one behind the other, are read back one by one as they were,
-- and nothing is left: the prefixes keep them apart.
pub read_frames-write_frames :
    (ds : List Bytes)
    → All (λ d. length d ≤ max_frame_len) ds
    → read_frames (length ds) (write_frames [] ds) ≡ ok (ds, [])
unfolding read_frames write_frames
read_frames-write_frames [] h = refl
read_frames-write_frames (d ∷ ds) h =
    let small : ltb max_frame_len (length d) ≡ false = ground (arith, h.0) in
    let one = read_frame-write_frame d (write_frames [] ds) (omega (arith, h.0)) in
    let read_one : read_frame (write_frame [] d ++ write_frames [] ds)
        ≡ ok (d, write_frames [] ds) =
      rw small at one in
    rw (write_frames-append (write_frame [] d) ds, read_one, read_frames-write_frames ds h.1) refl
