-- ===== src/Slice.antt =====
-- `&data[start..end]`, which panics where `start` is past `end` or `end` past the bytes.
use s3prism.Base.{
  ℕ, ◌+◌, ◌-◌, ◌≡◌, ◌≤◌, ◌<◌, ◌&&◌, ◌++◌, Text, length, take, drop, leb, if◌then◌else◌, Result, ok,
  err, ap, ◌∙◌, length-take, length-drop, arith, le→leb, take-append_length, drop-append_length,
  length-append,
}
use s3prism.Fault.{Fault, panicked}

unfoldable pub slice : Text → ℕ → ℕ → Result Fault Text
slice bytes start end =
    if leb start end && leb end (length bytes)
    then ok (take (end - start) (drop start bytes))
    else err panicked

-- The bytes between two others.
pub slice_middle :
    (before middle after : Text) (end : ℕ)
    → end ≡ length before + length middle
    → slice (before ++ (middle ++ after)) (length before) end ≡ ok middle
unfolding slice
slice_middle before middle after end e =
    let size = length-append before (middle ++ after) in
    let size' = length-append middle after in
    let count : end - length before ≡ length middle = omega arith in
    rw (le→leb (length before) end (omega arith)) (
      rw (le→leb end (length (before ++ (middle ++ after))) (omega arith))
        (rw (drop-append_length before (middle ++ after), count, take-append_length middle after)))

pub slice_reversed :
    (bytes : Text) (start end : ℕ) → end < start → slice bytes start end ≡ err panicked
unfolding slice
slice_reversed bytes start end h = ground arith

pub slice_at :
    (bytes before middle after : Text) (start end : ℕ)
    → bytes ≡ before ++ (middle ++ after)
    → start ≡ length before
    → end ≡ start + length middle
    → slice bytes start end ≡ ok middle
slice_at bytes before middle after start end e at e' =
    ap (λ b. slice b start end) e
    ∙ ap (λ s. slice (before ++ (middle ++ after)) s end) at
    ∙ slice_middle before middle after end (omega arith)

-- A slice inside the bytes succeeds, with as many bytes as there are between the two ends.
pub slice-length :
    (bytes : Text) (start end : ℕ)
    → start ≤ end
    → end ≤ length bytes
    → (s : Text) × (slice bytes start end ≡ ok s) × (length s ≡ end - start)
unfolding slice
slice-length bytes start end h k = (
  take (end - start) (drop start bytes),
  rw (le→leb start end h) (rw (le→leb end (length bytes) k)),
  omega (arith, length-take (end - start) (drop start bytes), length-drop start bytes),
)
