-- ===== src/Crypto/Base64url/RoundTrip.antt =====
-- What is encoded is decoded to the same bytes.
use Prim.Native.Char.{Char, code}
use Prim.Native.String
use text.Mathlib.TextEquality.{Char-path}
use text.Mathlib.TextLemmas.{nil-append, cons-append, length-append, append-nil, append_assoc}
use remotetab.Prelude.{
  ◌&&◌, ◌||◌, leb, ℕ, zero, suc, ◌+◌, ◌%◌, ◌<◌, ◌≤◌, ◌≡◌, refl, ap, ◌∙◌, String, Bool, true, false,
  Option, some, List, All, arith, ◌==◌, Bool-cases, inl, inr, if◌then◌else◌,
}
use remotetab.Crypto.Base64url.{
  replaced, plus, slash, dash, underscore, equals, replace_char, strip_padding, bytes_to_base64url,
  pad_loop, base64url_to_bytes,
}

-- A text of the standard alphabet, with no padding.
abbrev pub is_standard_char : Char → Bool
is_standard_char c =
    (leb b'A' (code c) && leb (code c) b'Z')
    || (leb b'a' (code c) && leb (code c) b'z')
    || (leb b'0' (code c) && leb (code c) b'9')
    || code c == b'+'
    || code c == b'/'

abbrev pub IsStandard : String → Type 0
IsStandard String.[] = Unit
IsStandard (String.◌∷◌ c s) = (is_standard_char c ≡ true) × IsStandard s

unfoldable pub padding : ℕ → String
padding zero = String.[]
padding (suc n) = String.◌∷◌ equals (padding n)

-- `btoa` is asked for units that are bytes only, and throws on any other.
abbrev pub IsBytes : List ℕ → Type 0
IsBytes = All (λ b. b < 256)

-- RFC 4648, of bytes: full blocks of four, padded at the end; and decoding is the inverse.
pub record IsBase64 (btoa : List ℕ → String) (atob : String → Option (List ℕ)) : Type 0 where
  pub body : List ℕ → String
  pub pads : List ℕ → ℕ
  pub standard : (bytes : List ℕ) → IsBytes bytes → IsStandard (body bytes)
  pub encoded :
      (bytes : List ℕ)
      → IsBytes bytes
      → btoa bytes ≡ String.◌++◌ (body bytes) (padding (pads bytes))
  pub full : (bytes : List ℕ) → IsBytes bytes → (String.count (body bytes) + pads bytes) % 4 ≡ 0
  pub few : (bytes : List ℕ) → IsBytes bytes → pads bytes < 4
  pub inverse : (bytes : List ℕ) → IsBytes bytes → atob (btoa bytes) ≡ some bytes

-- The alphabet of the URL form.
abbrev pub to_url : String → String
to_url s = replace_char slash underscore (replace_char plus dash s)

abbrev from_url : String → String
from_url s = replace_char underscore slash (replace_char dash plus s)

replace_char-append :
    (old new : Char) (s t : String)
    → replace_char old new (String.◌++◌ s t)
      ≡ String.◌++◌ (replace_char old new s) (replace_char old new t)
unfolding replace_char
replace_char-append old new String.[] t = simp nil-append refl
replace_char-append old new (String.◌∷◌ c s) t =
    simp cons-append (ap (String.◌∷◌ (replaced old new c)) (replace_char-append old new s t))

to_url-padding : (n : ℕ) → to_url (padding n) ≡ padding n
unfolding replace_char padding
to_url-padding zero = refl
to_url-padding (suc n) = ap (String.◌∷◌ equals) (to_url-padding n)

strip-padding : (n : ℕ) → strip_padding (padding n) ≡ String.[]
unfolding strip_padding padding
strip-padding zero = refl
strip-padding (suc n) = rw (strip-padding n) refl

abbrev pub to_url_char : Char → Char
to_url_char c = replaced slash underscore (replaced plus dash c)

pub code-replaced :
    (old new c : Char)
    → code (replaced old new c) ≡ (if code c == code old then code new else code c)
code-replaced old new c = elim (Bool-cases (code c == code old)) [
  | inl e ↦ rw e refl
  | inr e ↦ rw e refl
]

to_url_char-equals :
    (c : Char) → is_standard_char c ≡ true → (code (to_url_char c) == code equals) ≡ false
to_url_char-equals c h =
    rw (code-replaced slash underscore (replaced plus dash c), code-replaced plus dash c)
      (ground arith)

from_url-to_url_char :
    (c : Char)
    → is_standard_char c ≡ true
    → replaced underscore slash (replaced dash plus (to_url_char c)) ≡ c
from_url-to_url_char c h = Char-path _ _ (
    rw
      (
        code-replaced underscore slash (replaced dash plus (to_url_char c)),
        code-replaced dash plus (to_url_char c),
        code-replaced slash underscore (replaced plus dash c),
        code-replaced plus dash c,
      )
      (ground arith))

strip-to_url :
    (s : String) (n : ℕ)
    → IsStandard s
    → strip_padding (String.◌++◌ (to_url s) (padding n)) ≡ to_url s
unfolding strip_padding replace_char
strip-to_url String.[] n h = simp nil-append (strip-padding n)
strip-to_url (String.◌∷◌ c s) n (k, h) =
    simp cons-append (rw (strip-to_url s n h, to_url_char-equals c k) refl)

from_url-to_url : (s : String) → IsStandard s → from_url (to_url s) ≡ s
unfolding replace_char
from_url-to_url String.[] h = refl
from_url-to_url (String.◌∷◌ c s) (k, h) =
    rw (from_url-to_url_char c k) (ap (String.◌∷◌ c) (from_url-to_url s h))

-- The loop adds the padding that was stripped.
pad_loop_full : (fuel : ℕ) (s : String) → String.count s % 4 ≡ 0 → pad_loop fuel s ≡ s
unfolding pad_loop
pad_loop_full zero s h = refl
pad_loop_full (suc fuel) s h = rw h refl

pad_loop-padding :
    (fuel n : ℕ) (s : String)
    → n ≤ fuel
    → n < 4
    → (String.count s + n) % 4 ≡ 0
    → pad_loop fuel s ≡ String.◌++◌ s (padding n)
unfolding pad_loop padding
pad_loop-padding fuel zero s l k h = rw (append-nil s) (pad_loop_full fuel s (omega arith))
pad_loop-padding zero (suc n) s l k h = absurd (omega arith)
pad_loop-padding (suc fuel) (suc n) s l k h =
    let one : String = String.◌∷◌ equals String.[] in
    let longer : String.count (String.◌++◌ s one) ≡ String.count s + 1 = length-append s one in
    let more =
      pad_loop-padding fuel n (String.◌++◌ s one) (omega arith) (omega arith) (omega arith) in
    let unpadded : (String.count s % 4 == 0) ≡ false = ground arith in
    rw unpadded (
      more
      ∙ append_assoc s one (padding n)
      ∙ ap (String.◌++◌ s) (
          cons-append equals String.[] (padding n)
          ∙ ap (String.◌∷◌ equals) (nil-append (padding n))))

-- The encoded text is the body in the other alphabet.
pub bytes_to_base64url-to_url :
    (btoa : List ℕ → String) (atob : String → Option (List ℕ)) (bytes : List ℕ)
    → IsBytes bytes
    → (law : IsBase64 btoa atob) → bytes_to_base64url btoa bytes ≡ to_url (law.body bytes)
unfolding bytes_to_base64url
bytes_to_base64url-to_url btoa atob bytes small law =
    let body = law.body bytes in
    let n = law.pads bytes in
    rw
      (
        law.encoded bytes small,
        replace_char-append plus dash body (padding n),
        replace_char-append slash underscore (replace_char plus dash body)
            (replace_char plus dash (padding n)),
        to_url-padding n,
      )
      (strip-to_url body n (law.standard bytes small))

-- Whatever the bytes (numbers below 256), what `bytesToBase64url` makes of them `base64urlToBytes` reads as the same
-- bytes, if `btoa` and `atob` do as RFC 4648 says.
pub base64url_to_bytes-bytes_to_base64url :
    (btoa : List ℕ → String) (atob : String → Option (List ℕ)) (bytes : List ℕ)
    → IsBytes bytes
    → IsBase64 btoa atob
    → base64url_to_bytes atob (bytes_to_base64url btoa bytes) ≡ some bytes
unfolding base64url_to_bytes
base64url_to_bytes-bytes_to_base64url btoa atob bytes small law =
    let body = law.body bytes in
    let n = law.pads bytes in
    let at_most_three : law.pads bytes ≤ 3 = omega (arith, law.few bytes small) in
    rw
      (
        bytes_to_base64url-to_url btoa atob bytes small law,
        from_url-to_url body (law.standard bytes small),
        pad_loop-padding 3 n body at_most_three (law.few bytes small) (law.full bytes small),
        ← law.encoded bytes small,
      )
      (law.inverse bytes small)
