-- ===== src/Examples/Pairing.antt =====
-- The theorems about the laptop's pairing manager.
use remotetab.Prelude.{
  nth, replace, String, none, some, List, [], ◌∷◌, ◌≡◌, refl, length, All, str_eq,
}
use remotetab.Protocol.Messages.{PairJoin}
use remotetab.Extension.PairedDevices.{upsert, remove}
use remotetab.Extension.PairingManager.{
  PairingManager, PairingDeps, create, on_pair_created, start_join, resume, resume_hash,
  resume_verify,
}
use remotetab.Extension.PairingManager.Proof.{
  PairingEvent, creates, confirms, joins, resumes, IsEarned, run, fresh_pairing, step,
}
use remotetab.Extension.PairingManager.Earned.{run-IsEarned}

-- A key is its own fingerprint, and a proof is the secret.
abbrev laptop : PairingDeps
laptop = record {
  identity = record {
    device_id = "laptop";
    public_key_spki = "laptop-key";
    fingerprint = "laptop-key";
    display_name = "Laptop";
  };
  fingerprint_of = λ key. some key;
  verify = λ secret covered proof. str_eq secret proof;
}

abbrev join_of : String → PairJoin
join_of device = record {
  pair_id = "pair";
  device_id = device;
  display_name = none;
  public_key_spki = "phone-key";
  public_key_fingerprint = "phone-key";
  pairing_proof = "secret";
}

-- Two phones know the secret, and their joins are checked at the same time.
abbrev two_joins : List PairingEvent
two_joins =
    creates 0 300 "draft" "nonce" "secret"
    ∷ confirms "pair" 300000
    ∷ joins 1 (join_of "first")
    ∷ joins 2 (join_of "second")
    ∷ resumes 0
    ∷ resumes 1
    ∷ resumes 0
    ∷ resumes 1
    ∷ []

run-IsEarned_example :
    let m = (run laptop fresh_pairing two_joins).manager in All (IsEarned laptop m) m.devices
run-IsEarned_example = run-IsEarned laptop two_joins

-- The one secret lets both in.
two_joins_test : length (run laptop fresh_pairing two_joins).manager.devices ≡ 2
unfolding run step create on_pair_created start_join resume resume_hash resume_verify upsert remove
    nth replace
two_joins_test = refl

abbrev offered : PairingManager
offered = record {
  payloads =
      λ a. record { pair_id = "pair"; expires_at_ms = 9; nonce = "nonce"; secret = "secret" };
  made = 1;
  pending = some 0;
  devices = [];
}
