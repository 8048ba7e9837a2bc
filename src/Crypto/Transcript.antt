-- ===== src/Crypto/Transcript.antt =====
-- packages/crypto/src/transcript.ts. Bytes are numbers below 256; the text encoder is the runtime's,
-- so it is an argument.
pub mod Injective
use remotetab.Prelude.{
  ℕ, zero, suc, ◌+◌, ◌/◌, ◌%◌, ◌^◌, String, List, [], ◌∷◌, ◌++◌, map, Option, none, some, length,
  replicate,
}

-- `view.setUint32(offset, n, false)`: four bytes, the most significant first.
unfoldable pub uint32_bytes : ℕ → List ℕ
uint32_bytes n = n / 2 ^ 24 % 256 ∷ n / 2 ^ 16 % 256 ∷ n / 2 ^ 8 % 256 ∷ n % 256 ∷ []

-- `out.set(bytes, offset)` on a fixed array: what would lie past its end is not written.
unfoldable pub put : ℕ → List ℕ → List ℕ → List ℕ
put zero [] out = out
put zero (b ∷ bs) [] = []
put zero (b ∷ bs) (o ∷ out) = b ∷ put zero bs out
put (suc n) bs [] = []
put (suc n) bs (o ∷ out) = o ∷ put n bs out

-- `encoded.reduce((acc, b) => acc + 4 + b.length, 0)`.
unfoldable pub total_from : ℕ → List (List ℕ) → ℕ
total_from acc [] = acc
total_from acc (b ∷ bs) = total_from (acc + 4 + length b) bs

-- The loop that writes each field behind its length.
unfoldable pub fill : ℕ → List (List ℕ) → List ℕ → List ℕ
fill offset [] out = out
fill offset (b ∷ bs) out =
    fill (offset + 4 + length b) bs (put (offset + 4) b (put offset (uint32_bytes (length b)) out))

-- `encodeTranscript(fields)`; with no field it throws.
unfoldable pub encode_transcript : (String → List ℕ) → List String → Option (List ℕ)
encode_transcript utf8 [] = none
encode_transcript utf8 (f ∷ fs) =
    let encoded = map utf8 (f ∷ fs) in some (fill 0 encoded (replicate (total_from 0 encoded) 0))
