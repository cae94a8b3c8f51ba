-- ===== src/Counter.antt =====
-- core/header_counter.py: the counter of a header key. Methods return their result or exception
-- and the new counter. The text of messages and `__repr__` are left out.
pub mod Nonces
use desperate.Prelude.{ℕ, ◌+◌, ◌-◌, ◌++◌, ltb, if◌then◌else◌, replicate}
use desperate.Prelude.Int.{ℤ, pos, negsuc}
use desperate.Outcome.{Result, ok, err, value_error, negative_counter, header_counter_error, ◌>>=◌}
use desperate.Codec.Words.{Bytes, pack_u64}
use desperate.Codec.Hex.{Text}
use desperate.Constants.{nonce_len, max_header_messages}

pub record HeaderCounter : Type 0 where
  pub session_id : Text
  pub counter : ℕ

-- HeaderCounter(session_id, initial)
unfoldable pub create : Text → ℤ → Result HeaderCounter
create session_id (negsuc n) = err (value_error negative_counter)
create session_id (pos initial) =
    if ltb max_header_messages initial
    then err header_counter_error
    else ok (record { session_id = session_id; counter = initial })

-- the counter as 8 little-endian bytes, padded
unfoldable pub counter_to_nonce : ℕ → Result Bytes
counter_to_nonce counter = do word ← pack_u64 counter; ok (word ++ replicate (nonce_len - 8) 0)

unfoldable pub next_nonce : HeaderCounter → Result Bytes × HeaderCounter
next_nonce c =
    let next_val = c.counter + 1 in
    if ltb max_header_messages next_val
    then (err header_counter_error, c)
    else (counter_to_nonce next_val, record c { counter = next_val })

unfoldable pub reset : HeaderCounter → HeaderCounter
reset c = record c { counter = 0 }
