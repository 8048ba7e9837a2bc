-- ===== src/Crypto/PairingPayload/RoundTrip.antt =====
-- What is encoded and scanned is the payload again.
use Prim.Native.Char.{Char, char, code}
use Prim.Native.String
use text.Mathlib.TextLemmas.{nil-append, cons-append}
use remotetab.Prelude.{
  ◌↔◌, sym, ◌≡◌, refl, ◌∙◌, ap, String, Bool, true, false, ◌||◌, some, arith, ◌==◌, Option-cases,
  inl, inr,
}
use remotetab.Crypto.Base64url.{
  bytes_to_base64url, plus, dash, slash, underscore, replaced, replace_char,
}
use remotetab.Crypto.Base64url.RoundTrip.{
  IsBase64, IsBytes, IsStandard, is_standard_char, to_url, bytes_to_base64url-to_url,
  base64url_to_bytes-bytes_to_base64url, to_url_char, code-replaced,
}
use remotetab.Crypto.PairingPayload.Guards.{IsReadable, read_payload-ok, read_payload-IsReadable}
use remotetab.Crypto.Tokens.{
  is_url_char, is_space, trim_start, trim_end, has_hash, index_of_marker, token_of, behind,
}
use remotetab.Crypto.PairingPayload.{
  PairingPayload, ok, Codecs, payload_json, encode_pairing_payload, read_payload, read_token,
  decode_pairing_payload,
}

abbrev is_token_char : Char → Bool
is_token_char c = is_url_char c || code c == b':'

abbrev pub IsToken : String → Type 0
IsToken String.[] = Unit
IsToken (String.◌∷◌ c s) = (is_token_char c ≡ true) × IsToken s

token_space : (c : Char) → is_token_char c ≡ true → is_space c ≡ false
token_space c h = ground arith

trim_start-token : (s : String) → IsToken s → trim_start s ≡ s
unfolding trim_start
trim_start-token String.[] h = refl
trim_start-token (String.◌∷◌ c s) (k, h) = rw (token_space c k) refl

trim_end-token : (s : String) → IsToken s → trim_end s ≡ s
unfolding trim_end
trim_end-token String.[] h = refl
trim_end-token (String.◌∷◌ c s) (k, h) = rw (token_space c k, trim_end-token s h) refl

has_hash-token : (s : String) → IsToken s → has_hash s ≡ false
unfolding has_hash
has_hash-token String.[] h = refl
has_hash-token (String.◌∷◌ c s) (k, h) = ground (arith, has_hash-token s h)

-- A token is found as it is.
token_of-token : (s : String) → IsToken s → token_of s ≡ s
unfolding token_of
token_of-token s h =
    let trimmed : trim_end (trim_start s) ≡ s = rw (trim_start-token s h) (trim_end-token s h) in
    rw (token_of, trimmed)
      (elim (Option-cases (index_of_marker s)) [
        | inl e ↦ rw e trimmed
        | inr (n, e) ↦ rw (e, trimmed, has_hash-token s h) refl
      ])

to_url_char-token : (c : Char) → is_standard_char c ≡ true → is_token_char (to_url_char c) ≡ true
to_url_char-token c h =
    rw (code-replaced slash underscore (replaced plus dash c), code-replaced plus dash c)
      (ground arith)

to_url-IsToken : (s : String) → IsStandard s → IsToken (to_url s)
unfolding replace_char
to_url-IsToken String.[] h = tt
to_url-IsToken (String.◌∷◌ c s) (k, h) = (to_url_char-token c k, to_url-IsToken s h)

prefixed :
    (s : String)
    → String.◌++◌ "RT1:" s
      ≡ String.◌∷◌
          (char b'R' tt)
          (String.◌∷◌ (char b'T' tt) (String.◌∷◌ (char b'1' tt) (String.◌∷◌ (char b':' tt) s)))
prefixed s =
    cons-append (char b'R' tt) "T1:" s
    ∙ ap (String.◌∷◌ (char b'R' tt)) (
        cons-append (char b'T' tt) "1:" s
        ∙ ap (String.◌∷◌ (char b'T' tt)) (
            cons-append (char b'1' tt) ":" s
            ∙ ap (String.◌∷◌ (char b'1' tt))
                (cons-append (char b':' tt) "" s ∙ ap (String.◌∷◌ (char b':' tt)) (nil-append s))))

behind-prefixed : (s : String) → behind "RT1:" (String.◌++◌ "RT1:" s) ≡ some s
unfolding behind
behind-prefixed s = rw (prefixed s) refl

prefixed-IsToken : (s : String) → IsToken s → IsToken (String.◌++◌ "RT1:" s)
prefixed-IsToken s h = rw (prefixed s) (refl, (refl, (refl, (refl, h))))

-- What the runtime promises of one payload: its text is encoded in bytes and read back, and its JSON
-- is read back; and base64 is as RFC 4648 says.
pub record IsRuntime (c : Codecs) (p : PairingPayload) : Type 0 where
  pub base64 : IsBase64 c.btoa c.atob
  pub small : IsBytes (c.utf8_encode (c.stringify (payload_json p)))
  pub text :
      c.utf8_decode (c.utf8_encode (c.stringify (payload_json p))) ≡ c.stringify (payload_json p)
  pub json : c.parse (c.stringify (payload_json p)) ≡ some (payload_json p)

-- The scanner gets through to the object that was encoded.
pub decode-encode :
    (c : Codecs) (p : PairingPayload)
    → IsRuntime c p
    → decode_pairing_payload c (encode_pairing_payload c p) ≡ read_payload (payload_json p)
unfolding decode_pairing_payload encode_pairing_payload read_token
decode-encode c p r =
    let bytes = c.utf8_encode (c.stringify (payload_json p)) in
    let body : String = bytes_to_base64url c.btoa bytes in
    let token : IsToken body =
      rw (bytes_to_base64url-to_url c.btoa c.atob bytes r.small r.base64)
        (to_url-IsToken (r.base64.body bytes) (r.base64.standard bytes r.small)) in
    rw
      (
        token_of-token (String.◌++◌ "RT1:" body) (prefixed-IsToken body token),
        read_token,
        behind-prefixed body,
        base64url_to_bytes-bytes_to_base64url c.btoa c.atob bytes r.small r.base64,
        r.text,
        r.json,
      )
      refl

-- A payload is read back as it is exactly if the guards let all of it pass; if the runtime encodes
-- its text in bytes and reads JSON and text back as they were written, and base64 is as RFC 4648
-- says.
pub decode-encode_iff :
    (c : Codecs) (p : PairingPayload)
    → IsRuntime c p
    → (decode_pairing_payload c (encode_pairing_payload c p) ≡ ok p) ↔ IsReadable p
decode-encode_iff c p r = (
  λ e. read_payload-ok (payload_json p) p (sym (decode-encode c p r) ∙ e),
  λ h. decode-encode c p r ∙ read_payload-IsReadable p h,
)
