-- ===== src/Lib.antt =====
-- RemoteTab: a phone controls one browser tab of a laptop. The phone's web app (apps/mobile-web) and
-- the laptop's extension (apps/extension) find each other through a signaling service
-- (apps/signaling), prove their identities to each other and then exchange control frames over a
-- WebRTC data channel. The messages and their checks are in packages/protocol, the signed
-- transcripts in packages/crypto. This library models the parts that decide who may do what.
--
-- Parts and files:
-- Protocol: packages/protocol/src. Errors has errors.ts and the result type of frame.ts, Messages
--   has signaling.ts, Sequence has SequenceGuard of frame.ts (`check`), Control has control.ts
--   (`accept_control_frame` is acceptControlFrame; Control/Wire has the decoder and encoder of its
--   frames, Control/Sender the class ControlSender). The messages are data types with one constructor
--   for each message type, as they are after validation.
-- Crypto: packages/crypto/src. Transcript has encodeTranscript of transcript.ts, with its buffer and
--   loop; PeerAuth has the transcripts of challenge.ts and peer-handshake.ts,
--   PeerAuth/Handshake has the class PeerAuthHandshake, cut at its awaits. Base64url has b64.ts, Random
--   has timingSafeEqual of random.ts, PairingProof has pairing.ts, PairingPayload has
--   pairing-payload.ts, with its patterns and the search for the token in Tokens.
-- Signaling: apps/signaling/src. Registry, Pairings and Sessions have registry.ts, Devices has
--   device-registry.ts, RateLimit has rate-limit.ts. Router has router.ts: its state is the record
--   `Router`, each handler is a function from a `Context`, a state, a connection and a frame to an
--   `Outcome`, which is the state after the call, the frames sent and the result. Router/Identity has
--   onHello, onAuthProof and authFailure, Router/Pair has onPairCreate, onPairJoin and
--   decidePairing, Router/Meet has the handlers of session and signal frames, Router/Close has
--   handleConnClosed, Router/Dispatch has dispatch and handleFrame, and
--   the other modules below Router have the proofs. System has the events of
--   server.ts, one after the other, as `step` and `run`. Turn has turn.ts, Http has the HTTP routes of
--   server.ts for devices and TURN credentials.
-- Extension: apps/extension/src. SessionState has session-state.ts, Backoff has backoff.ts,
--   InputService has input-service.ts (`handle_frame` is handleFrame), PairedDevices has
--   paired-devices.ts, PairingManager has pairing-manager.ts, with onPairJoin cut at its awaits.
--   Teardown has teardown.ts, cut at the await of each step; SignalingClient has signaling-client.ts,
--   where `handle` is one event of a socket, a timer or a caller and gives the client and its acts.
-- MobileWeb: apps/mobile-web/src/lib. Keyboard has keyboard.ts, InputSender has input-sender.ts and
--   Gesture has gesture.ts, where coordinates are whole parts of a unit and `distance` is compared by
--   its square. Receiver has receiver-session.ts: its state and life cycle, Receiver/Events what comes
--   to it from the service and the peer connection, Receiver/Run its encoders and `handle`, one event.
--   TouchBridge has touch-bridge.ts, which joins Gesture and InputSender, and
--   KeyboardBridge has keyboard-bridge.ts: what the events of a text field queue, in order. Pairing has
--   the desktops, the join and the check of pairing.ts, Pairing/Session its class PairingSession,
--   where `handle` is one event, and Pairing/Joined puts the phone's join and the laptop's
--   PairingManager at the two ends of one pairing.
-- Json: a value of unknown type, as JSON.parse makes it.
-- Store: a JavaScript Map with string keys, as the list of its entries in insertion order.
-- Prelude: shared names, tests and list lemmas. Examples: the theorems at concrete inputs.
--
-- The parts interact by calls: the server's events call the router, which calls the registries; the
-- input service calls acceptControlFrame, which calls the sequence guard. On the phone, gestures and
-- keys become calls of the input sender, which has its frames encoded by a ControlSender as they go
-- out; Control/Delivery puts that sender and the laptop's guard at the two ends of one channel.
--
-- What comes from outside is an argument: the clock, random ids and nonces, the configuration, the
-- decoders (JSON and schemas), the text encoder, key fingerprints, the check of signatures and the
-- answer of the debugger adapter. An encoder of the input sender can throw, which ends the call.
-- The sweeper's close of a socket runs its close handler at once or not, which is the runtime's
-- choice. onPairJoin, the handshake, the teardown, the signaling client, the receiver session and
-- the phone's pairing session are cut at their awaits; elsewhere a call that awaits is one step:
-- calls that interleave with the awaits of onAuthProof or handleFrame are not modelled. Loops over
-- lists are structural recursion; the loop of splitTextChunks has as much fuel as there are code
-- units, and each round takes one at least, and the loop that pads base64 has three rounds, as many
-- as pads can be missing. Numbers are natural numbers: times in milliseconds, sequence numbers with
-- the bound 2 ^ 53 - 1 written out; the length prefix of a transcript field is four bytes, with the
-- wrap-around written out.
--
-- Not modelled: the user interface, the Chrome, WebRTC and WebCrypto calls, storage, the health routes
-- and the check of origins of the server, logging, the schemas of single fields, the extension's
-- background worker, the storage of the phone's keys and the arithmetic of the video rectangle.
pub mod Prelude
pub mod Store
pub mod Json
pub mod Protocol
pub mod Crypto
pub mod Signaling
pub mod Extension
pub mod Examples
pub mod MobileWeb
