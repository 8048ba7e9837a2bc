-- ===== src/Examples/Handshake.antt =====
-- The theorem about the peer handshake, and a late proof.
use remotetab.Prelude.{List, [], ◌∷◌, ◌≡◌, refl, All, str_eq, nth, replace}
use remotetab.Protocol.Messages.{desktop}
use remotetab.Crypto.PeerAuth.Handshake.{
  Peer, HandshakeEvent, verified, starts, challenged, proved, times_out, resumes, run, step,
  new_handshake, start, maybe_prove, on_challenge, on_proof, settle, resume, resume_sign,
  resume_verify, maybe_settle,
}
use remotetab.Crypto.PeerAuth.Handshake.Verified.{IsAnswered, run-IsAnswered}

abbrev laptop : Peer
laptop = record {
  deps = record {
    role = desktop;
    protocol_version = "1";
    session_id = "session";
    my_device_id = "laptop";
    peer_device_id = "phone";
    my_fingerprint = "laptop-key";
    peer_fingerprint = "phone-key";
    utf8 = λ s. [];
  };
  verify = λ covered sig. str_eq sig "good";
}

-- The time is over while the proof is being checked.
abbrev late_proof : List HandshakeEvent
late_proof = starts "mine" ∷ challenged "theirs" ∷ proved "good" ∷ times_out ∷ resumes 0 ∷ []

run-IsAnswered_example :
    let h = run laptop new_handshake late_proof in
    All (λ o. o ≡ verified → IsAnswered laptop h.challenges) h.outcomes
run-IsAnswered_example = run-IsAnswered laptop late_proof

-- The peer is called verified all the same.
late_proof_test : (run laptop new_handshake late_proof).outcomes ≡ verified ∷ []
unfolding run step start maybe_prove on_challenge on_proof settle resume resume_sign resume_verify
    maybe_settle nth replace
late_proof_test = refl
