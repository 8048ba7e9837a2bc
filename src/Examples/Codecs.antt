-- ===== src/Examples/Codecs.antt =====
-- A simple `btoa` and `atob`, for the examples.
use Prim.Native.Char.{Char, char, code}
use Prim.Native.String
use text.Mathlib.TextLemmas.{length-cons, append-nil}
use remotetab.Prelude.{
  ℕ, zero, suc, ◌+◌, ◌%◌, ◌≡◌, refl, sym, ◌∙◌, ap, String, some, List, [], ◌∷◌, ◌==◌, if◌then◌else◌,
  arith,
}
use remotetab.Crypto.Base64url.RoundTrip.{IsBase64, IsStandard, padding}

-- A byte is as many blocks `AAAA` as it says, and then `BAAA`.
abbrev pub block : (first : Char) → String → String
block c s =
    String.◌∷◌ c
      (String.◌∷◌ (char b'A' tt) (String.◌∷◌ (char b'A' tt) (String.◌∷◌ (char b'A' tt) s)))

abbrev pub digit : ℕ → String → String
digit zero s = block (char b'B' tt) s
digit (suc n) s = block (char b'A' tt) (digit n s)

abbrev pub blocks : List ℕ → String
blocks [] = String.[]
blocks (b ∷ bs) = digit b (blocks bs)

abbrev pub read_blocks : ℕ → String → List ℕ
read_blocks n (String.◌∷◌ c (String.◌∷◌ x (String.◌∷◌ y (String.◌∷◌ z s)))) =
    let more = read_blocks (suc n) s in
    let next = read_blocks 0 s in if code c == b'A' then more else n ∷ next
read_blocks n _ = []

count-block :
    (c : Char) (s : String) → String.count (block c s) ≡ suc (suc (suc (suc (String.count s))))
count-block c s = simp length-cons refl

digit-full : (n : ℕ) (s : String) → String.count s % 4 ≡ 0 → String.count (digit n s) % 4 ≡ 0
digit-full zero s h = omega (arith, count-block (char b'B' tt) s)
digit-full (suc n) s h = omega (arith, count-block (char b'A' tt) (digit n s), digit-full n s h)

blocks-full : (bs : List ℕ) → String.count (blocks bs) % 4 ≡ 0
blocks-full [] = refl
blocks-full (b ∷ bs) = digit-full b (blocks bs) (blocks-full bs)

digit-IsStandard : (n : ℕ) (s : String) → IsStandard s → IsStandard (digit n s)
digit-IsStandard zero s h = (refl, (refl, (refl, (refl, h))))
digit-IsStandard (suc n) s h = (refl, (refl, (refl, (refl, digit-IsStandard n s h))))

blocks-IsStandard : (bs : List ℕ) → IsStandard (blocks bs)
blocks-IsStandard [] = tt
blocks-IsStandard (b ∷ bs) = digit-IsStandard b (blocks bs) (blocks-IsStandard bs)

read_digit : (m n : ℕ) (s : String) → read_blocks m (digit n s) ≡ (m + n) ∷ read_blocks 0 s
read_digit m zero s = ap (λ (k : ℕ). k ∷ read_blocks 0 s) (omega arith)
read_digit m (suc n) s = read_digit (suc m) n s ∙ ap (λ (k : ℕ). k ∷ read_blocks 0 s) (omega arith)

read_blocks-blocks : (bs : List ℕ) → read_blocks 0 (blocks bs) ≡ bs
read_blocks-blocks [] = refl
read_blocks-blocks (b ∷ bs) =
    read_digit 0 b (blocks bs)
    ∙ ap (λ (k : ℕ). k ∷ read_blocks 0 (blocks bs)) (omega arith)
    ∙ ap (◌∷◌ b) (read_blocks-blocks bs)

pub blocks-IsBase64 : IsBase64 blocks (λ s. some (read_blocks 0 s))
unfolding padding
blocks-IsBase64 = record {
  body = blocks;
  pads = λ bs. 0;
  standard = λ bs small. blocks-IsStandard bs;
  encoded = λ bs small. sym (append-nil (blocks bs));
  full = λ bs small. omega (arith, blocks-full bs);
  few = λ bs small. omega arith;
  inverse = λ bs small. ap some (read_blocks-blocks bs);
}
