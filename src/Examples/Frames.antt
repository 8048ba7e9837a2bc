-- ===== src/Examples/Frames.antt =====
-- A desktop and a phone that talk to a signaling service, for the examples.
use remotetab.Prelude.{ℕ, none, some, List, [], ◌∷◌, true}
use remotetab.Protocol.Messages.{
  Frame, SignalingMessage, desktop, phone, hello, pair_create, pair_join, session_request,
  session_accepted, AuthProof,
}
use remotetab.Signaling.Router.{Context, open_mode}
use remotetab.Signaling.System.{Event, opens, frames, closes}

-- At a time, with the ids that it would draw. Every key is its own fingerprint, and every
-- signature verifies.
abbrev pub at_time : ℕ → Context
at_time now_ms = record {
  now_ms = now_ms;
  auth_mode = open_mode;
  is_production = true;
  new_pair_id = "pair";
  new_request_id = "request";
  new_nonce = "nonce";
  utf8 = λ s. [];
  fingerprint_of = λ s. some s;
  verify = λ key bytes signature. true;
}

abbrev pub at_time_fresh : ℕ → Context
at_time_fresh now_ms = record (at_time now_ms) { new_pair_id = "other" }

abbrev pub say : SignalingMessage → Frame
say m = record { id = none; reply_to = none; message = m }

abbrev pub desktop_hello : Frame
desktop_hello = say (hello (record { role = desktop; device_id = "laptop"; display_name = none }))

abbrev pub phone_hello : Frame
phone_hello = say (hello (record { role = phone; device_id = "phone"; display_name = none }))

abbrev pub ask_window : Frame
ask_window = say (
    pair_create (record {
      ttl_seconds = 60;
      public_key_spki = "laptop-key";
      public_key_fingerprint = "laptop-key";
      display_name = none;
    }))

abbrev pub join_window : Frame
join_window = say (
    pair_join (record {
      pair_id = "pair";
      device_id = "phone";
      display_name = none;
      public_key_spki = "phone-key";
      public_key_fingerprint = "phone-key";
      pairing_proof = "proof";
    }))

abbrev pub request_session : Frame
request_session =
    say (session_request (record { device_id = "phone"; desktop_device_id = "laptop" }))

abbrev pub accept_session : Frame
accept_session = say (
    session_accepted
      (record { session_id = "session"; desktop_device_id = "laptop"; phone_device_id = "phone" }))

abbrev pub prove : AuthProof
prove = record {
  signature = "signature";
  public_key_spki = "phone-key";
  public_key_fingerprint = "phone-key";
  display_name = none;
}

-- A window that closes with its desktop.
abbrev pub window_closed : List Event
window_closed =
    opens "c1" 0
    ∷ frames (at_time 1) "c1" desktop_hello
    ∷ frames (at_time 4) "c1" ask_window
    ∷ closes "c1"
    ∷ []

-- A session has been opened.
abbrev pub session_opened : List Event
session_opened =
    opens "c1" 0
    ∷ frames (at_time 1) "c1" desktop_hello
    ∷ opens "c2" 2
    ∷ frames (at_time 3) "c2" phone_hello
    ∷ frames (at_time 4) "c2" request_session
    ∷ frames (at_time 5) "c1" accept_session
    ∷ []
