-- ===== src/Crypto/Tokens.antt =====
-- How packages/crypto/src/pairing-payload.ts reads a text: its patterns, and the token in what was
-- scanned. A position counts characters, where the source counts UTF-16 units, both to find a place
-- and to cut there.
use Prim.Native.Char.{Char, code}
use remotetab.Prelude.{
  ℕ, zero, suc, ◌+◌, String, Bool, true, false, not, ◌&&◌, ◌||◌, Option, none, some, leb, ltb, ◌==◌,
  if◌then◌else◌,
}
use remotetab.Crypto.Base64url.{is_empty}

-- `[A-Za-z0-9_-]`.
abbrev pub is_url_char : Char → Bool
is_url_char c =
    (leb b'A' (code c) && leb (code c) b'Z')
    || (leb b'a' (code c) && leb (code c) b'z')
    || (leb b'0' (code c) && leb (code c) b'9')
    || code c == b'_'
    || code c == b'-'

unfoldable pub all_chars : (Char → Bool) → String → Bool
all_chars p String.[] = true
all_chars p (String.◌∷◌ c s) = p c && all_chars p s

unfoldable pub char_count : String → ℕ
char_count String.[] = 0
char_count (String.◌∷◌ c s) = suc (char_count s)

-- `ID` and `B64`.
unfoldable pub is_id : String → Bool
unfolding all_chars char_count
is_id s = all_chars is_url_char s && leb 8 (char_count s) && leb (char_count s) 64

unfoldable pub is_b64 : String → Bool
unfolding all_chars char_count
is_b64 s = all_chars is_url_char s && leb 8 (char_count s)

-- A character that `.` matches.
abbrev pub is_dot : Char → Bool
is_dot c = not (code c == 10 || code c == 13 || code c == 0x2028 || code c == 0x2029)

abbrev pub starts_with_dot : String → Bool
starts_with_dot String.[] = false
starts_with_dot (String.◌∷◌ c s) = is_dot c

-- The text behind a prefix, or none.
unfoldable pub behind : String → String → Option String
behind String.[] s = some s
behind (String.◌∷◌ p q) String.[] = none
behind (String.◌∷◌ p q) (String.◌∷◌ c s) = if code p == code c then behind q s else none

abbrev pub follows : Option String → Bool
follows none = false
follows (some s) = starts_with_dot s

-- `/^wss?:\/\/.+/`.
unfoldable pub is_origin : String → Bool
unfolding behind
is_origin s = follows (behind "ws://" s) || follows (behind "wss://" s)

-- A character that `trim()` takes away.
abbrev pub is_space : Char → Bool
is_space c =
    (leb 9 (code c) && leb (code c) 13)
    || code c == 32
    || code c == 0xa0
    || code c == 0x1680
    || (leb 0x2000 (code c) && leb (code c) 0x200a)
    || code c == 0x2028
    || code c == 0x2029
    || code c == 0x202f
    || code c == 0x205f
    || code c == 0x3000
    || code c == 0xfeff

unfoldable pub trim_start : String → String
trim_start String.[] = String.[]
trim_start (String.◌∷◌ c s) = let rest = trim_start s in if is_space c then rest else String.◌∷◌ c s

unfoldable pub trim_end : String → String
trim_end String.[] = String.[]
trim_end (String.◌∷◌ c s) =
    let rest = trim_end s in if is_space c && is_empty rest then String.[] else String.◌∷◌ c rest

-- `token.includes('#')`.
unfoldable pub has_hash : String → Bool
has_hash String.[] = false
has_hash (String.◌∷◌ c s) = code c == b'#' || has_hash s

abbrev pub starts_marker : Char → String → Bool
starts_marker c String.[] = false
starts_marker c (String.◌∷◌ d s) = code c == b'p' && code d == b'='

-- `token.indexOf('p=')`; none is -1.
unfoldable pub index_of_marker : String → Option ℕ
index_of_marker String.[] = none
index_of_marker (String.◌∷◌ c s) =
    let later : Option ℕ = elim (index_of_marker s) [ none ↦ none | some n ↦ some (suc n) ] in
    if starts_marker c s then some 0 else later

-- `token.slice(n)`.
unfoldable pub slice_from : ℕ → String → String
slice_from zero s = s
slice_from (suc n) String.[] = String.[]
slice_from (suc n) (String.◌∷◌ c s) = slice_from n s

-- The token in what was scanned: all of it, or what a URL has in its fragment.
unfoldable pub token_of : String → String
unfolding trim_start trim_end has_hash index_of_marker slice_from
token_of raw =
    let token = trim_end (trim_start raw) in
    elim (index_of_marker token) [
      | none ↦ token
      | some hash ↦ if has_hash token && ltb 0 hash then slice_from (hash + 2) token else token
    ]
