-- ===== src/Examples/Channels.antt =====
-- The theorems about the control channel's sequence and the transcripts.
use Prim.Native.Char.{code}
use text.Mathlib.TextEquality.{Char-path}
use remotetab.Prelude.{ℕ, map, some, String, List, [], ◌∷◌, ◌≡◌, refl, sym, arith}
use remotetab.Protocol.Messages.{desktop, phone}
use remotetab.Crypto.Transcript.{encode_transcript}
use remotetab.Crypto.Transcript.Injective.{
  Short, encode_transcript_injective, encode_transcript-prefixed, prefixed,
}
use remotetab.Crypto.PeerAuth.{HandshakeDeps, transcript_fields}
use remotetab.Crypto.PeerAuth.Fields.{mirrored, transcript-mirrored, transcript_injective}

-- An encoder that tells texts apart: the numbers of the characters.
abbrev numbers : String → List ℕ
numbers String.[] = []
numbers (String.◌∷◌ c s) = code c ∷ numbers s

numbers_injective : (s t : String) → numbers s ≡ numbers t → s ≡ t
numbers_injective String.[] String.[] e = refl
numbers_injective String.[] (String.◌∷◌ d t) e = cc
numbers_injective (String.◌∷◌ c s) String.[] e = cc
numbers_injective (String.◌∷◌ c s) (String.◌∷◌ d t) e =
    cc (Char-path c d (cc), numbers_injective s t (cc))

encode_transcript-prefixed_example :
    encode_transcript numbers ("ab" ∷ "c" ∷ []) ≡ some (prefixed (map numbers ("ab" ∷ "c" ∷ [])))
encode_transcript-prefixed_example = encode_transcript-prefixed numbers "ab" ("c" ∷ [])

encode_transcript_injective_example : ◌≡◌ {A = List String} ("ab" ∷ "c" ∷ []) ("ab" ∷ "c" ∷ [])
encode_transcript_injective_example =
    encode_transcript_injective numbers numbers_injective ("ab" ∷ "c" ∷ []) ("ab" ∷ "c" ∷ [])
      (omega arith, (omega arith, tt)) (omega arith, (omega arith, tt)) refl

abbrev laptop_side : HandshakeDeps
laptop_side = record {
  role = desktop;
  protocol_version = "1";
  session_id = "session";
  my_device_id = "laptop";
  peer_device_id = "phone";
  my_fingerprint = "laptop-key";
  peer_fingerprint = "phone-key";
  utf8 = numbers;
}

transcript_injective_example :
    (◌≡◌ {A = String} "session" "session")
    × (phone ≡ phone)
    × (◌≡◌ {A = String} "nonce" "nonce")
    × (◌≡◌ {A = String} "laptop" "laptop")
    × (◌≡◌ {A = String} "phone" "phone")
unfolding transcript_fields
transcript_injective_example =
    let short : Short (map numbers (transcript_fields laptop_side phone "nonce")) = (
      omega arith,
      (
        omega arith,
        (
          omega arith,
          (
            omega arith,
            (omega arith, (omega arith, (omega arith, (omega arith, (omega arith, tt))))),
          ),
        ),
      ),
    ) in
    transcript_injective laptop_side (mirrored laptop_side) phone phone "nonce" "nonce"
      numbers_injective refl short short (sym (transcript-mirrored laptop_side phone "nonce"))
