-- ===== src/Stream.antt =====
-- The byte streams of a connection: request and response with their operators >> and <<, over the
-- buffers stack_request and stack_response.
pub mod Scalar
pub mod Response
pub mod Request
pub mod RoundTrip
