-- ===== src/Realtime.antt =====
-- backend/internal/realtime: the WebSocket layer. `Client` is the outbound half of one connection
-- (client.go), `Hub` the registry of the connections that a node holds (hub.go).
pub mod Client
pub mod Hub
mod Tests
