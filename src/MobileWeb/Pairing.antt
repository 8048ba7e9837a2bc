-- ===== src/MobileWeb/Pairing.antt =====
-- apps/mobile-web/src/lib/pairing.ts: the stored desktops, what the phone sends to join, and
-- the check of an accepted desktop.
pub mod Session
pub mod Sound
pub mod Anchored
pub mod Settled
pub mod Joined
use Prim.Native.String
use remotetab.Prelude.{
  ℕ, ◌+◌, String, Bool, true, false, not, Option, none, some, List, [], ◌∷◌, ◌++◌, str_eq, nth,
  among, without, replace, ◌then_call◌, if◌then◌else◌,
}
use remotetab.Protocol.Messages.{PairJoin}
use remotetab.Crypto.Base64url.{bytes_to_base64url}
use remotetab.Crypto.PairingPayload.{PairingPayload}
use remotetab.Crypto.PairingProof.{PairingTranscript, ProofCodecs, pairing_proof}

pub record PhoneKeyIdentity : Type 0 where
  pub device_id : String
  pub display_name : String
  pub public_key_spki : String
  pub fingerprint : String

pub record PairedDesktop : Type 0 where
  pub device_id : String
  pub display_name : Option String
  pub public_key_spki : String
  pub fingerprint : String
  pub paired_at_ms : ℕ

pub record AcceptedDesktop : Type 0 where
  pub device_id : String
  pub display_name : Option String
  pub public_key_spki : String
  pub public_key_fingerprint : String

pub data PairingResult : Type 0 where
  succeeded : PairedDesktop → PairingResult
  failed : (reason : String) → PairingResult

-- `list.filter((d) => d.deviceId !== deviceId)`.
unfoldable pub forget_desktop : String → List PairedDesktop → List PairedDesktop
forget_desktop id [] = []
forget_desktop id (d ∷ ds) =
    let rest = forget_desktop id ds in if str_eq d.device_id id then rest else d ∷ rest

-- `getPairedDesktop(deviceId)`.
unfoldable pub get_paired_desktop : String → List PairedDesktop → Option PairedDesktop
get_paired_desktop id [] = none
get_paired_desktop id (d ∷ ds) = if str_eq d.device_id id then some d else get_paired_desktop id ds

-- `storeDesktop(desktop)`, on the list that it has read.
unfoldable pub store_desktop : PairedDesktop → List PairedDesktop → List PairedDesktop
unfolding forget_desktop
store_desktop d ds = forget_desktop d.device_id ds ++ d ∷ []

-- What the phone's proof covers.
unfoldable pub phone_transcript : PhoneKeyIdentity → PairingPayload → PairingTranscript
phone_transcript phone p = record {
  protocol_version = "1";
  desktop_device_id = p.desktop_device_id;
  phone_device_id = phone.device_id;
  desktop_fingerprint = p.desktop_fingerprint;
  phone_fingerprint = phone.fingerprint;
  expires_at_ms = p.expires_at_ms;
  nonce = p.nonce;
}

-- The join with a proof; none where the proof cannot be made.
unfoldable pub made_join : ProofCodecs → PhoneKeyIdentity → PairingPayload → List ℕ → PairJoin
unfolding bytes_to_base64url
made_join c phone p mac = record {
  pair_id = p.pair_id;
  device_id = phone.device_id;
  display_name = some phone.display_name;
  public_key_spki = phone.public_key_spki;
  public_key_fingerprint = phone.fingerprint;
  pairing_proof = bytes_to_base64url c.btoa mac;
}

unfoldable pub join_with :
    ProofCodecs → PhoneKeyIdentity → PairingPayload → Option (List ℕ) → Option PairJoin
unfolding made_join
join_with c phone p none = none
join_with c phone p (some mac) = some (made_join c phone p mac)

-- `buildPairJoin(payload)`, with the id of the pairing.
unfoldable pub build_pair_join : ProofCodecs → PhoneKeyIdentity → PairingPayload → Option PairJoin
unfolding phone_transcript join_with
build_pair_join c phone p =
    join_with c phone p (pairing_proof c p.secret (phone_transcript phone p))

abbrev pub changed : String
changed = "The laptop identity changed since the QR was shown. Pair again."

abbrev pub mismatched : String
mismatched = "The laptop key does not match its claimed fingerprint. Pairing aborted."

abbrev pub substituted : String
substituted = "The laptop key does not match the QR code. Pairing aborted."

-- `validateAcceptedDesktop(payload, accepted)` behind its await, with the computed fingerprint.
unfoldable pub validate_computed : PairingPayload → AcceptedDesktop → ℕ → String → PairingResult
validate_computed p accepted now_ms computed =
    if not (str_eq computed accepted.public_key_fingerprint)
    then failed mismatched
    else if not (str_eq accepted.public_key_spki p.desktop_spki)
    then failed substituted
    else succeeded (record {
      device_id = accepted.device_id;
      display_name = accepted.display_name;
      public_key_spki = p.desktop_spki;
      fingerprint = p.desktop_fingerprint;
      paired_at_ms = now_ms;
    })
