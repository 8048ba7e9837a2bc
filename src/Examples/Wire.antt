-- ===== src/Examples/Wire.antt =====
-- The theorem about the control channel from end to end, with a toy format of frames.
use remotetab.Prelude.{
  ℕ, zero, suc, String, Bool, true, false, ◌&&◌, some, List, [], ◌∷◌, ◌≡◌, refl, sym, ap, arith,
  map, ◌==◌, str_eq, eq_iff,
}
use remotetab.Protocol.Errors.{ok}
use remotetab.Protocol.Sequence.{SequenceGuard}
use remotetab.Protocol.Control.{ControlMessage, ControlFrame, viewport_request}
use remotetab.Protocol.Control.Wire.{Wire, IsLawful}
use remotetab.Protocol.Control.Sender.{ControlSender, SenderCall, asks_viewport, inserts}
use remotetab.Protocol.Control.Delivery.{emissions, receptions, receptions-emissions}
use remotetab.Prelude.{none, among}
use remotetab.Protocol.Messages.{SessionAccepted, session_accepted, signaling_frame}
use remotetab.Crypto.PeerAuth.Handshake.{verified}
use remotetab.MobileWeb.Receiver.{ReceiverOptions, ReceiverSession, new_receiver, socket_open}
use remotetab.MobileWeb.Receiver.Events.{
  ReceiverEvent, received, lost, fetched, opens_control, judged, asks, asks_and_hands,
}
use remotetab.MobileWeb.Receiver.Run.{handle, run}
use remotetab.MobileWeb.Receiver.Quiet.{encoded}
use remotetab.MobileWeb.Receiver.Quiet.Handled.{starts}
use remotetab.MobileWeb.Receiver.Verified.{was_verified, run-verified}
use remotetab.MobileWeb.Receiver.Epochs.{Numbered, run-Numbered}

-- A number as so many strokes, and back.
abbrev strokes : ℕ → String
strokes zero = String.[]
strokes (suc n) = String.◌∷◌ "x" (strokes n)

abbrev count : String → ℕ
count String.[] = 0
count (String.◌∷◌ c s) = suc (count s)

count-strokes : (n : ℕ) → count (strokes n) ≡ n
count-strokes zero = refl
count-strokes (suc n) = ap suc (count-strokes n)

abbrev request : ℕ → ControlFrame ℕ
request n = record { session_id = "s"; seq = n; ts = 0; message = viewport_request }

abbrev is_request : ControlMessage ℕ → Bool
is_request viewport_request = true
is_request _ = false

-- A format for requests of the viewport at time 0.
abbrev wire : Wire ℕ ℕ
wire = record {
  byte_size = λ text. 0;
  parse = λ text. some (count text);
  stringify = λ frame. strokes frame.seq;
  schema = λ n. ok (request n);
  is_valid = λ frame. str_eq frame.session_id "s" && frame.ts == 0 && is_request frame.message;
}

all_true : (a b c : Bool) → (a && b && c) ≡ true → (a ≡ true) × (b ≡ true) × (c ≡ true)
all_true true true true e = (refl, refl, refl)
all_true true true false e = absurd (cc)
all_true true false c e = absurd (cc)
all_true false b c e = absurd (cc)

is_request_unique : (m : ControlMessage ℕ) → is_request m ≡ true → viewport_request ≡ m
is_request_unique viewport_request e = refl
is_request_unique _ e = absurd (cc)

request_unique :
    (id : String) (n ts : ℕ) (m : ControlMessage ℕ)
    → (str_eq id "s" && ts == 0 && is_request m) ≡ true
    → request n ≡ record { session_id = id; seq = n; ts = ts; message = m }
request_unique id n ts m v =
    let (i, t, r) = all_true (str_eq id "s") (ts == 0) (is_request m) v in
    let i' : "s" ≡ id = sym ((eq_iff id "s").0 i) in
    let t' : 0 ≡ ts = ground arith in cc (i', t', is_request_unique m r)

wire-IsLawful : IsLawful wire
wire-IsLawful = record {
  survives = λ frame v. (
    frame.seq,
    ap some (count-strokes frame.seq),
    ap ok (request_unique frame.session_id frame.seq frame.ts frame.message v),
  );
}

abbrev sender : ControlSender
sender = record { session_id = "s"; seq = 4 }

abbrev guard : SequenceGuard
guard = record { last_seq = 4 }

abbrev calls : List (ℕ × SenderCall ℕ)
calls = (0, asks_viewport) ∷ (0, inserts "no request") ∷ (0, asks_viewport) ∷ []

receptions-emissions_example :
    receptions wire guard "s" (emissions wire sender calls)
    ≡ map (λ e. ok e.0) (emissions wire sender calls)
receptions-emissions_example =
    receptions-emissions wire wire-IsLawful (λ frame v. refl) sender guard calls refl (omega arith)

abbrev receiver_options : ReceiverOptions
receiver_options = record {
  device_id = "phone";
  display_name = "Phone";
  desktop_device_id = "laptop";
  ice_servers = "stun" ∷ [];
  turn_ice_servers = true;
  reconnect_ttl_ms = 60_000;
}

-- A receiver whose socket is open.
abbrev connected : ReceiverSession
connected = record new_receiver {
  socket = some 0;
  attached = 0 ∷ [];
  ready_state = socket_open;
  fresh = 1;
}

abbrev acceptance : SessionAccepted
acceptance = record { session_id = "s"; desktop_device_id = "laptop"; phone_device_id = "phone" }

-- Frames are asked for before and behind the loss of the socket.
abbrev session_events : List (ReceiverEvent ℕ)
session_events =
    fetched none
    ∷ opens_control 1
    ∷ asks_and_hands 0 asks_viewport
    ∷ judged verified
    ∷ asks 0 asks_viewport
    ∷ lost 0 5
    ∷ asks 0 asks_viewport
    ∷ []

run-Numbered_example : Numbered "s" 0 (
    encoded
      (run wire receiver_options
        (handle wire receiver_options connected
          (received 0 (some (signaling_frame (session_accepted acceptance) none)))).0
        session_events).1)
unfolding signaling_frame among starts
run-Numbered_example =
    run-Numbered wire (λ frame v. refl) receiver_options connected 0 acceptance
      (signaling_frame (session_accepted acceptance) none) session_events refl refl
      (refl, (refl, (refl, (refl, (refl, (refl, (refl, tt)))))))

abbrev verified_events : List (ReceiverEvent ℕ)
verified_events = fetched none ∷ opens_control 1 ∷ judged verified ∷ []

run-verified_example : was_verified verified_events ≡ true
unfolding signaling_frame among run
run-verified_example =
    run-verified wire receiver_options connected 0 acceptance
      (signaling_frame (session_accepted acceptance) none) verified_events refl refl refl
