-- ===== src/Http.antt =====
-- src/main.cpp: the HTTP server. Http/Text is how it takes texts apart, Http/Request its parser, Http/Routes the
-- dispatch and the handlers, Http/Response the text of an answer, and Http/Connection what it does with a
-- connection. The others are about these.
pub mod Text
pub mod Request
pub mod Routes
pub mod Response
pub mod Connection
pub mod Auth
pub mod Bounds
pub mod Lines
pub mod Client
pub mod Encoding
pub mod Fields
pub mod RoundTrip
pub mod Search
pub mod Arrival
pub mod Delivery
pub mod Effects
pub mod Machine
