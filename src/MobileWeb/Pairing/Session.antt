-- ===== src/MobileWeb/Pairing/Session.antt =====
-- `PairingSession` of apps/mobile-web/src/lib/pairing.ts, cut at its awaits. Sockets are numbered as
-- they are made; those whose handlers are set and the calls that wait are part of the state. A frame
-- comes as it is read, or as none where reading it throws. `closable` is whether the socket is still
-- connecting or open when `stop()` asks.
use Prim.Native.String
use remotetab.Prelude.{
  ℕ, ◌+◌, String, Bool, true, false, Option, none, some, List, [], ◌∷◌, ◌++◌, str_eq, nth, among,
  without, replace, ◌then_call◌, if◌then◌else◌,
}
use remotetab.Protocol.Messages.{PairJoin}
use remotetab.Crypto.PairingPayload.{PairingPayload}
use remotetab.Crypto.PairingProof.{ProofCodecs}
use remotetab.MobileWeb.Pairing.{
  AcceptedDesktop, PairedDesktop, PairingResult, PhoneKeyIdentity, build_pair_join, changed, failed,
  forget_desktop, store_desktop, succeeded, validate_computed,
}

-- A call that waits: for the phone's keys, the join, the fingerprint of an accepted desktop, the
-- list of desktops, the end of `storeDesktop`, or the list of desktops in `forgetDesktop`.
pub data Flight : Type 0 where
  greeting : (socket : ℕ) → Flight
  joining : (socket : ℕ) → Flight
  hashing : AcceptedDesktop → Flight
  storing : PairedDesktop → (listed : List PairedDesktop) → Flight
  stored : PairedDesktop → Flight
  forgetting : (device_id : String) → (listed : List PairedDesktop) → Flight

pub data PairFrame : Type 0 where
  hello_ok : PairFrame
  pair_accepted : AcceptedDesktop → PairFrame
  pair_refused : (code : Option String) → PairFrame
  other_frame : PairFrame

pub data PairAct : Type 0 where
  opens : (socket : ℕ) → (url : String) → PairAct
  greets : (socket : ℕ) → PhoneKeyIdentity → PairAct
  joins : (socket : ℕ) → PairJoin → PairAct
  closes : (socket : ℕ) → PairAct
  settles : PairingResult → PairAct

pub record PairingSession : Type 0 where
  pub socket : Option ℕ
  pub settled : Bool
  -- Outside the object: the sockets with handlers, the calls that wait, the stored desktops.
  pub attached : List ℕ
  pub waiting : List (Option Flight)
  pub desktops : List PairedDesktop
  pub fresh : ℕ

-- `fingerprintFromSpkiB64` is none where it throws.
pub record PairingContext : Type 0 where
  pub url : String
  pub payload : PairingPayload
  pub phone : PhoneKeyIdentity
  pub codecs : ProofCodecs
  pub fingerprint_of : String → Option String

unfoldable pub wait : Flight → PairingSession → PairingSession × List PairAct
wait f s = (record s { waiting = s.waiting ++ some f ∷ [] }, [])

-- `start()`.
unfoldable pub start : PairingContext → PairingSession → PairingSession × List PairAct
start ctx s = (
  record s { socket = some s.fresh; attached = s.fresh ∷ s.attached; fresh = s.fresh + 1 },
  opens s.fresh
        (if str_eq ctx.payload.signaling_origin "" then ctx.url else ctx.payload.signaling_origin)
      ∷ [],
)

-- `stop()`, by what `this.socket` is.
unfoldable pub detach :
    (closable : Bool) → Option ℕ → PairingSession → PairingSession × List PairAct
unfolding without
detach closable none s = (s, [])
detach closable (some n) s = (
  record s { socket = none; attached = without n s.attached },
  if closable then closes n ∷ [] else [],
)

-- `stop()`.
unfoldable pub stop : (closable : Bool) → PairingSession → PairingSession × List PairAct
unfolding detach
stop closable s = detach closable s.socket s

-- `settle(result)`.
unfoldable pub settle :
    (closable : Bool) → PairingResult → PairingSession → PairingSession × List PairAct
unfolding stop
settle closable result s =
    if s.settled
    then (s, [])
    else stop closable (record s { settled = true }) then_call (λ t. (t, settles result ∷ []))

-- The reason behind the code of a refusal.
unfoldable pub reason_of : Option String → String
reason_of none = "Pairing failed (error)."
reason_of (some code) =
    if str_eq code "PAIR_EXPIRED"
    then "The pairing window expired. Generate a new code on the laptop."
    else if str_eq code "PAIR_ALREADY_USED"
    then "That code was already used. Generate a new one."
    else String.◌++◌ "Pairing failed (" (String.◌++◌ code ").")

-- `socket.onmessage`, up to its first await.
unfoldable pub on_message :
    PairingContext
    → (closable : Bool) → ℕ
    → Option PairFrame
    → PairingSession
    → PairingSession × List PairAct
unfolding wait settle reason_of
on_message ctx closable n none s = (s, [])
on_message ctx closable n (some hello_ok) s = wait (joining n) s
on_message ctx closable n (some (pair_accepted accepted)) s =
    if str_eq accepted.public_key_fingerprint ctx.payload.desktop_fingerprint
    then wait (hashing accepted) s
    else settle closable (failed changed) s
on_message ctx closable n (some (pair_refused code)) s = settle closable (failed (reason_of code)) s
on_message ctx closable n (some other_frame) s = (s, [])

-- The verdict on an accepted desktop: it is refused, or the stored list is read.
unfoldable pub on_verdict :
    (closable : Bool) → PairingResult → PairingSession → PairingSession × List PairAct
unfolding settle wait
on_verdict closable (failed reason) s = settle closable (failed reason) s
on_verdict closable (succeeded d) s = wait (storing d s.desktops) s

unfoldable pub send_join : ℕ → Option PairJoin → PairingSession → PairingSession × List PairAct
send_join n none s = (s, [])
send_join n (some join) s = (s, joins n join ∷ [])

-- The rest of a check, by what the hash comes to.
unfoldable pub on_hash :
    PairingContext
    → (closable : Bool) → ℕ
    → AcceptedDesktop
    → Option String
    → PairingSession
    → PairingSession × List PairAct
unfolding validate_computed on_verdict
on_hash ctx closable now_ms accepted none s = (s, [])
on_hash ctx closable now_ms accepted (some computed) s =
    on_verdict closable (validate_computed ctx.payload accepted now_ms computed) s

-- What a call does behind its await. `written` is whether the storage takes the list.
unfoldable pub resume_flight :
    PairingContext
    → (closable written : Bool) → ℕ
    → Flight
    → PairingSession
    → PairingSession × List PairAct
unfolding build_pair_join send_join on_hash store_desktop forget_desktop wait settle
resume_flight ctx closable written now_ms (greeting n) s = (s, greets n ctx.phone ∷ [])
resume_flight ctx closable written now_ms (joining n) s =
    send_join n (build_pair_join ctx.codecs ctx.phone ctx.payload) s
resume_flight ctx closable written now_ms (hashing accepted) s =
    on_hash ctx closable now_ms accepted (ctx.fingerprint_of accepted.public_key_spki) s
resume_flight ctx closable written now_ms (storing d listed) s =
    if written then wait (stored d) (record s { desktops = store_desktop d listed }) else (s, [])
resume_flight ctx closable written now_ms (stored d) s = settle closable (succeeded d) s
resume_flight ctx closable written now_ms (forgetting id listed) s =
    (if written then record s { desktops = forget_desktop id listed } else s, [])

pub data PairEvent : Type 0 where
  starts stops : PairEvent
  opened : (socket : ℕ) → PairEvent
  received : (socket : ℕ) → Option PairFrame → PairEvent
  errs : (socket : ℕ) → PairEvent
  resumes : (place now_ms : ℕ) → (written : Bool) → PairEvent
  forgets : (device_id : String) → PairEvent

abbrev pub flight_at : ℕ → List (Option Flight) → Option Flight
flight_at place fs = elim (nth place fs) [ some (some f) ↦ some f | _ ↦ none ]

-- The call at a place goes on, if one waits there.
unfoldable pub resume_at :
    PairingContext
    → (closable written : Bool) → ℕ
    → ℕ
    → Option Flight
    → PairingSession
    → PairingSession × List PairAct
unfolding resume_flight
resume_at ctx closable written now_ms place none s = (s, [])
resume_at ctx closable written now_ms place (some f) s =
    resume_flight ctx closable written now_ms f
      (record s { waiting = replace place none s.waiting })

-- An event: what comes from a socket without handlers, or to no call that waits, does nothing. The
-- list of desktops is read where `storeDesktop` and `forgetDesktop` are called, and written behind
-- their awaits.
unfoldable pub handle :
    PairingContext → PairingSession → (closable : Bool) → PairEvent → PairingSession × List PairAct
unfolding start stop wait on_message settle resume_at among
handle ctx s closable starts = start ctx s
handle ctx s closable stops = stop closable s
handle ctx s closable (opened n) = if among n s.attached then wait (greeting n) s else (s, [])
handle ctx s closable (received n frame) =
    if among n s.attached then on_message ctx closable n frame s else (s, [])
handle ctx s closable (errs n) =
    if among n s.attached
    then settle closable (failed "Could not reach the signaling server.") s
    else (s, [])
handle ctx s closable (resumes place now_ms written) =
    resume_at ctx closable written now_ms place (flight_at place s.waiting) s
handle ctx s closable (forgets id) = wait (forgetting id s.desktops) s

-- Events one after the other.
unfoldable pub run :
    PairingContext → PairingSession → List (Bool × PairEvent) → PairingSession × List PairAct
unfolding handle
run ctx s [] = (s, [])
run ctx s ((closable, e) ∷ es) = handle ctx s closable e then_call (λ t. run ctx t es)

-- A new session, with the desktops that are stored.
unfoldable pub new_session : List PairedDesktop → PairingSession
new_session desktops = record {
  socket = none;
  settled = false;
  attached = [];
  waiting = [];
  desktops = desktops;
  fresh = 0;
}
