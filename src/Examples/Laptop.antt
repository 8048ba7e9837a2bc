-- ===== src/Examples/Laptop.antt =====
-- The theorems about the extension on the laptop.
use remotetab.Prelude.{ℕ, String, true, none, some, [], ◌≡◌, ◌⊎◌}
use remotetab.Protocol.Errors.{ParseResult, ok}
use remotetab.Protocol.Control.{ControlFrame, pointer_move}
use remotetab.Extension.SessionState.{remote_active}
use remotetab.Extension.InputService.{InputService, handle_frame, returned}
use remotetab.Extension.InputService.Gate.{IsDelivery, handle_frame-IsDelivery}

abbrev armed_service : InputService
armed_service = record {
  guard = some (record { last_seq = 4 });
  session_id = some "session";
  attached = true;
  laptop_seq = 1;
}

abbrev any_move : String → ParseResult (ControlFrame ℕ)
any_move raw = ok (record { session_id = "session"; seq = 5; ts = 0; message = pointer_move 3 4 })

handle_frame-IsDelivery_example :
    let h =
      handle_frame any_move none returned armed_service "session" "{}" remote_active (some 7) in
    (h.calls ≡ []) ⊎ IsDelivery any_move armed_service "session" "{}" remote_active (some 7) h
handle_frame-IsDelivery_example =
    handle_frame-IsDelivery any_move none returned armed_service "session" "{}" remote_active
      (some 7)
