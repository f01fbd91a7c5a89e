-- ===== src/Http.antt =====
-- src/http, above the parser of src/http/http_parser.c.
pub mod HttpMessage
pub mod HttpSession
pub mod HttpServer
mod Tests
