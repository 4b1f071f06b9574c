-- ===== src/Gate/Handler.antt =====
-- gate/handler/ihandler.hpp: the stages that every request goes through.
use mould_system_backend.Common.{ℕ, Bool, true, false, Bytes, [], ◌≡◌, ◌↔◌, arith, if◌then◌else◌}
use mould_system_backend.Gate.{RequestView, HandlerResult, HandlerFn}

-- `ctx` is of a type that the handler chooses.
pub record ParseResult (C : Type 0) : Type 0 where
  pub ok : Bool
  pub status_code : ℕ
  pub error_msg : Bytes
  pub ctx : C

pub record ProcessResult (C : Type 0) : Type 0 where
  pub ok : Bool
  pub status_code : ℕ
  pub error_msg : Bytes
  pub request_id : Bytes
  pub resource_id : Bytes
  pub ctx : C

-- The hooks of a subclass. The last does not see the view.
pub record IHandler (W C : Type 0) : Type 0 where
  pub do_parse : RequestView → W → ParseResult C × RequestView × W
  pub do_process : ParseResult C → W → ProcessResult C × W
  pub post_process : ProcessResult C → W → W

abbrev failure : ℕ → Bytes → Bytes → HandlerResult
failure status message id = record {
  success = false;
  http_status_code = status;
  error_message = message;
  request_id = id;
  resource_id = [];
}

unfoldable pub handle : {W C : Type 0} → IHandler W C → HandlerFn W
handle h view w =
    let (parsed, view, w) = h.do_parse view w in
    if parsed.ok
    then (let (processed, w) = h.do_process parsed w in
        if processed.ok
        then (
          record {
            success = true;
            http_status_code = 200;
            error_message = [];
            request_id = processed.request_id;
            resource_id = processed.resource_id;
          },
          view,
          h.post_process processed w,
        )
        else (failure processed.status_code processed.error_msg view.request_id, view, w))
    else (failure parsed.status_code parsed.error_msg view.request_id, view, w)

-- A request succeeds exactly when both stages do. Only then is there a later stage, which has no
-- part in the answer; a stage that fails leaves the program as it was after that stage, and gives
-- its own status to the request that the view names.
pub handle_lem :
    {W C : Type 0} (h : IHandler W C) (view : RequestView) (w : W)
    → let (parsed, seen, w1) = h.do_parse view w in
      let (processed, w2) = h.do_process parsed w1 in
      let (result, last, w3) = handle h view w in
      ((result.success ≡ true) ↔ ((parsed.ok ≡ true) × (processed.ok ≡ true)))
      × (last ≡ seen)
      × (result.success ≡ true
          → (result.http_status_code ≡ 200) × (w3 ≡ h.post_process processed w2))
      × (parsed.ok ≡ false
          → (result.http_status_code ≡ parsed.status_code)
            × (result.request_id ≡ seen.request_id)
            × (w3 ≡ w1))
      × (parsed.ok ≡ true
          → processed.ok ≡ false
          → (result.http_status_code ≡ processed.status_code)
            × (result.request_id ≡ seen.request_id)
            × (w3 ≡ w2))
unfolding handle
handle_lem h view w = ground arith
