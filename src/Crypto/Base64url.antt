-- ===== src/Crypto/Base64url.antt =====
-- packages/crypto/src/b64.ts. A binary string is the list of its units, which are bytes. `btoa` and
-- `atob` are the runtime's; `atob` is none where it throws. The length of a text is counted in
-- characters: it is in UTF-16 units only where it is not what `atob` takes.
pub mod RoundTrip
use Prim.Native.Char.{Char, char, code}
use Prim.Native.String
use remotetab.Prelude.{
  ℕ, zero, suc, ◌%◌, String, Bool, true, false, not, ◌&&◌, Option, List, ◌==◌, if◌then◌else◌,
}

abbrev pub plus : Char
plus = char 43 tt

abbrev pub slash : Char
slash = char 47 tt

abbrev pub dash : Char
dash = char 45 tt

abbrev pub underscore : Char
underscore = char 95 tt

abbrev pub equals : Char
equals = char 61 tt

abbrev pub replaced : (old new c : Char) → Char
replaced old new c = if code c == code old then new else c

-- `s.replace(/<old>/g, '<new>')`.
unfoldable pub replace_char : (old new : Char) → String → String
replace_char old new String.[] = String.[]
replace_char old new (String.◌∷◌ c s) = String.◌∷◌ (replaced old new c) (replace_char old new s)

abbrev pub is_empty : String → Bool
is_empty String.[] = true
is_empty (String.◌∷◌ c s) = false

-- `s.replace(/=+$/, '')`.
unfoldable pub strip_padding : String → String
strip_padding String.[] = String.[]
strip_padding (String.◌∷◌ c s) =
    let rest = strip_padding s in
    if code c == code equals && is_empty rest then String.[] else String.◌∷◌ c rest

-- `bytesToBase64url(bytes)`.
unfoldable pub bytes_to_base64url : (btoa : List ℕ → String) → List ℕ → String
unfolding replace_char strip_padding
bytes_to_base64url btoa bytes =
    strip_padding (replace_char slash underscore (replace_char plus dash (btoa bytes)))

-- `while (b64.length % 4 !== 0) b64 += '='`; three rounds are enough.
unfoldable pub pad_loop : ℕ → String → String
pad_loop zero s = s
pad_loop (suc fuel) s =
    let more = pad_loop fuel (String.◌++◌ s (String.◌∷◌ equals String.[])) in
    if String.count s % 4 == 0 then s else more

-- `base64urlToBytes(s)`.
unfoldable pub base64url_to_bytes : (atob : String → Option (List ℕ)) → String → Option (List ℕ)
unfolding replace_char pad_loop
base64url_to_bytes atob s =
    atob (pad_loop 3 (replace_char underscore slash (replace_char dash plus s)))
