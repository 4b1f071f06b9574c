-- ===== src/Gate.antt =====
-- gate/: the HTTP gateway between its server and the modules. What the server passes on is a
-- `RequestView`, and a `std::string` is the list of its bytes.
pub mod Handler
pub mod Router
pub mod Paths
pub mod Validator
pub mod CaptureTime
pub mod Images
mod Tests
use mould_system_backend.Common.{ℕ, ℤ, Bool, true, false, Bytes, [], ◌∷◌, Option}

-- gate/http/request_view.hpp. A header that is not in the map has `none`.
pub record RequestView : Type 0 where
  pub request_id : Bytes
  pub method : Bytes
  pub path : Bytes
  pub body : Bytes
  pub headers : Bytes → Option Bytes
  pub client_ip : Bytes
  pub content_type : Bytes
  pub content_length : ℤ
  pub arrival_timestamp_ms : ℤ

pub record HandlerResult : Type 0 where
  pub success : Bool
  pub http_status_code : ℕ
  pub error_message : Bytes
  pub request_id : Bytes
  pub resource_id : Bytes

-- A handler may change the view that it is given, and the rest of the program, `W`.
abbrev pub HandlerFn : Type 0 → Type 0
HandlerFn W = RequestView → W → HandlerResult × RequestView × W
