-- ===== src/Adapter.antt =====
-- ngsi_adapter/lib/adapter.js: the HTTP and UDP server, and its requests to ContextBroker. What a handler does
-- outside the program is returned as a list of effects, in order.
pub mod Effect
pub mod Update
pub mod Callback
pub mod Listener
pub mod Udp
pub mod Endpoints
pub mod Exchange
pub mod Server
pub mod Main
pub mod Program
