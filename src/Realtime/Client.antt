-- ===== src/Realtime/Client.antt =====
-- backend/internal/realtime/client.go: the send buffer of a connection and its closing.
-- The socket itself is gorilla's. `send` is the channel's buffer, written here and drained by the
-- write pump; `close_code` is the code that the first call of `close` put on the wire, and the
-- `closed` channel is closed exactly when it is there.
pub mod Buffer
use sobhemessenger.Common.{
  ℕ, Bool, ◌&&◌, Option, none, some, List, [], ◌∷◌, ◌++◌, Uuid, Bytes, ltb, is_some, length,
  if◌then◌else◌,
}

abbrev pub send_buffer_size : ℕ
send_buffer_size = 256

abbrev pub close_server_shutdown : ℕ
close_server_shutdown = 4000

abbrev pub close_slow_consumer : ℕ
close_slow_consumer = 4004

pub record Client : Type 0 where
  pub user_id : Uuid
  pub chat_subscriptions : List Uuid
  pub send : List Bytes
  pub close_code : Option ℕ

unfoldable pub new_client : Uuid → Client
new_client u = record { user_id = u; chat_subscriptions = []; send = []; close_code = none }

-- `closeOnce.Do`: the first code stands.
unfoldable pub close : ℕ → Client → Client
close code c = elim c.close_code [ none ↦ record c { close_code = some code } | some first ↦ c ]

-- The `select` of `enqueue`. Where the buffer has room and the connection is closed, two cases are
-- ready and Go takes either: `chosen` says whether it takes the send.
unfoldable pub enqueue : Bool → Bytes → Client → Client
unfolding close
enqueue chosen frame c =
    let room = ltb (length c.send) send_buffer_size in
    let closed = is_some c.close_code in
    let sent = record c { send = c.send ++ frame ∷ [] } in
    if room && closed
    then (if chosen then sent else c)
    else if room
    then sent
    else if closed
    then c
    else close close_slow_consumer c
