-- ===== src/Session/Buffer.antt =====
-- `consumeBuffer`, `compactBuffer` and the readable part of `m_buffer`: a vector with a read head
-- that is compacted lazily, against the plain byte queue that it stands for.
use titan_share.Prelude.{
  ℕ, ◌+◌, ◌-◌, ◌≤◌, ltb, ◌==◌, ◌≡◌, ap, sym, ◌∙◌, if◌then◌else◌, length, drop, drop-drop,
  length-drop, Bytes, arith,
}
use titan_share.Session.State.{Session}

-- `bufSize()` and the bytes at `bufData()`.
unfoldable pub buf_size : Session → ℕ
buf_size s = length s.buffer - s.buffer_offset

unfoldable pub buf_data : Session → Bytes
buf_data s = drop s.buffer_offset s.buffer

-- The bytes are moved to the front, and the vector keeps only those.
unfoldable pub compact_buffer : Session → Session
unfolding buf_data
compact_buffer s =
    if s.buffer_offset == 0 then s else record s { buffer = buf_data s; buffer_offset = 0 }

unfoldable pub consume_buffer : ℕ → Session → Session
unfolding compact_buffer
consume_buffer n s =
    let s' = record s { buffer_offset = s.buffer_offset + n } in
    if ltb 262144 s'.buffer_offset then compact_buffer s' else s'

-- The read head is within the vector.
abbrev pub InRange : Session → Type 0
InRange s = s.buffer_offset ≤ length s.buffer

pub length-buf_data : (s : Session) → length (buf_data s) ≡ buf_size s
unfolding buf_data buf_size
length-buf_data s = length-drop s.buffer_offset s.buffer

-- Compaction leaves the queue as it is.
pub buf_data-compact_buffer : (s : Session) → buf_data (compact_buffer s) ≡ buf_data s
unfolding compact_buffer buf_data
buf_data-compact_buffer s = ground arith

pub compact_buffer-InRange : (s : Session) → InRange s → InRange (compact_buffer s)
unfolding compact_buffer
compact_buffer-InRange s h = ground arith

-- Consuming `n` bytes drops `n` bytes of the queue, compacted or not.
pub buf_data-consume_buffer :
    (n : ℕ) (s : Session) → buf_data (consume_buffer n s) ≡ drop n (buf_data s)
unfolding consume_buffer buf_data
buf_data-consume_buffer n s = ground (arith, drop-drop s.buffer_offset n s.buffer)

pub consume_buffer-InRange :
    (n : ℕ) (s : Session) → InRange s → n ≤ buf_size s → InRange (consume_buffer n s)
unfolding consume_buffer buf_size
consume_buffer-InRange n s h k = ground arith

pub buf_size-consume_buffer : (n : ℕ) (s : Session) → buf_size (consume_buffer n s) ≡ buf_size s - n
buf_size-consume_buffer n s =
    sym (length-buf_data (consume_buffer n s))
    ∙ ap length (buf_data-consume_buffer n s)
    ∙ length-drop n (buf_data s)
    ∙ ap (λ k. k - n) (length-buf_data s)

-- Consuming leaves all but the vector and the read head alone.
pub consume_buffer_keeps :
    (n : ℕ) (s : Session)
    → ((consume_buffer n s).stage ≡ s.stage)
      × ((consume_buffer n s).closed ≡ s.closed)
      × ((consume_buffer n s).expected_bytes ≡ s.expected_bytes)
      × ((consume_buffer n s).received_bytes ≡ s.received_bytes)
unfolding consume_buffer
consume_buffer_keeps n s = ground arith
