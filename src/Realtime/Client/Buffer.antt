-- ===== src/Realtime/Client/Buffer.antt =====
-- The bound on the send buffer, and what becomes of a frame.
use sobhemessenger.Common.{
  ℕ, ◌≤◌, ◌≡◌, ◌⊎◌, Bool, true, none, [], ◌∷◌, ◌++◌, arith, Bytes, is_some, length, length-append,
}
use sobhemessenger.Realtime.Client.{Client, enqueue, close, send_buffer_size}

-- `enqueue` keeps the buffer within its 256 frames, never undoes or replaces a close code, and
-- either appends the frame or leaves a closed connection: no frame is lost on an open one.
pub enqueue_never_loses :
    (chosen : Bool) (frame : Bytes) (c : Client)
    → length c.send ≤ send_buffer_size
    → let c' = enqueue chosen frame c in
      (length c'.send ≤ send_buffer_size)
      × ((c'.close_code ≡ c.close_code) ⊎ (c.close_code ≡ none))
      × ((c'.send ≡ c.send ++ frame ∷ []) ⊎ ((c'.send ≡ c.send) × (is_some c'.close_code ≡ true)))
unfolding enqueue
enqueue_never_loses chosen frame c h = ground (arith, length-append c.send (frame ∷ []))

-- Only the first `close` takes effect.
pub close_once : (a b : ℕ) (c : Client) → close b (close a c) ≡ close a c
unfolding close
close_once a b c = ground arith
