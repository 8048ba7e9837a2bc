-- ===== src/Crypto/Transcript/Injective.antt =====
-- The encoding is the concatenation of the length-prefixed fields, and determines them.
use mathlib.Core.List.{append_assoc}
use mathlib.Core.Path.{◌≡⟨◌⟩◌, ◌∎}
use native.Mathlib.Nat.{zero-add, suc-add}
use remotetab.Prelude.{
  ℕ, zero, suc, ◌+◌, ◌^◌, ◌<◌, ◌≡◌, refl, sym, ap, ◌∙◌, String, List, [], ◌∷◌, ◌++◌, map, none,
  some, length, replicate, arith, length-append, length-replicate, All,
}
use remotetab.Crypto.Transcript.{uint32_bytes, put, total_from, fill, encode_transcript}

-- The specification: each field behind its length.
pub prefixed : List (List ℕ) → List ℕ
prefixed [] = []
prefixed (b ∷ bs) = uint32_bytes (length b) ++ (b ++ prefixed bs)

put-append :
    (pre bs post : List ℕ) (mid : List ℕ)
    → length mid ≡ length bs
    → put (length pre) bs (pre ++ (mid ++ post)) ≡ pre ++ (bs ++ post)
unfolding put
put-append [] [] post [] e = refl
put-append [] [] post (m ∷ mid) e = absurd (omega arith)
put-append [] (b ∷ bs) post [] e = absurd (omega arith)
put-append [] (b ∷ bs) post (m ∷ mid) e = ap (◌∷◌ b) (put-append [] bs post mid (omega arith))
put-append (p ∷ pre) bs post mid e = ap (◌∷◌ p) (put-append pre bs post mid e)

total_from-add : (acc : ℕ) (bs : List (List ℕ)) → total_from acc bs ≡ acc + total_from 0 bs
unfolding total_from
total_from-add acc [] = omega arith
total_from-add acc (b ∷ bs) =
    omega (arith, total_from-add (acc + 4 + length b) bs, total_from-add (0 + 4 + length b) bs)

replicate-add : (m n : ℕ) → replicate {A = ℕ} (m + n) 0 ≡ replicate m 0 ++ replicate n 0
replicate-add zero n = rw zero-add
replicate-add (suc m) n = rw suc-add (ap (◌∷◌ 0) (replicate-add m n))

length-uint32_bytes : (n : ℕ) → length (uint32_bytes n) ≡ 4
unfolding uint32_bytes
length-uint32_bytes n = refl

-- One field written where zeros stood, behind what is written already.
put_field :
    (pre bs rest : List ℕ)
    → put (length pre) bs (pre ++ (replicate (length bs) 0 ++ rest)) ≡ (pre ++ bs) ++ rest
put_field pre bs rest =
    put-append pre bs rest (replicate (length bs) 0) (length-replicate (length bs) 0)
    ∙ sym (append_assoc pre bs rest)

zeros_split :
    (b : List ℕ) (bs : List (List ℕ))
    → replicate {A = ℕ} (total_from 0 (b ∷ bs)) 0
      ≡ replicate (length (uint32_bytes (length b))) 0
        ++ (replicate (length b) 0 ++ replicate (total_from 0 bs) 0)
unfolding total_from
zeros_split b bs =
    rw
      (
        total_from-add (0 + 4 + length b) bs,
        length-uint32_bytes (length b),
        ← replicate-add (length b) (total_from 0 bs),
        ← replicate-add 4 (length b + total_from 0 bs),
      )
      (ap (λ n. replicate {A = ℕ} n 0) (omega arith))

fill-prefixed :
    (pre : List ℕ) (bs : List (List ℕ))
    → fill (length pre) bs (pre ++ replicate (total_from 0 bs) 0) ≡ pre ++ prefixed bs
unfolding fill prefixed total_from
fill-prefixed pre [] = refl
fill-prefixed pre (b ∷ bs) =
    let size = length b in
    let head = uint32_bytes size in
    let zeros : List ℕ = replicate (total_from 0 bs) 0 in
    fill (length pre) (b ∷ bs) (pre ++ replicate (total_from 0 (b ∷ bs)) 0)
    ≡⟨ ap (λ z. fill (length pre) (b ∷ bs) (pre ++ z)) (zeros_split b bs) ⟩
      fill (length pre) (b ∷ bs) (pre ++ (replicate (length head) 0 ++ (replicate size 0 ++ zeros)))
    ≡⟨ ap (λ z. fill (length pre + 4 + size) bs (put (length pre + 4) b z))
        (put_field pre head (replicate size 0 ++ zeros)) ⟩
      fill (length pre + 4 + size) bs
        (put (length pre + 4) b ((pre ++ head) ++ (replicate size 0 ++ zeros)))
    ≡⟨ ap (λ n. fill (n + size) bs (put n b ((pre ++ head) ++ (replicate size 0 ++ zeros))))
        (omega (arith, length-append pre head, length-uint32_bytes size)) ⟩
      fill (length (pre ++ head) + size) bs
        (put (length (pre ++ head)) b ((pre ++ head) ++ (replicate size 0 ++ zeros)))
    ≡⟨ ap (fill (length (pre ++ head) + size) bs) (put_field (pre ++ head) b zeros) ⟩
      fill (length (pre ++ head) + size) bs (((pre ++ head) ++ b) ++ zeros)
    ≡⟨ ap (λ n. fill n bs (((pre ++ head) ++ b) ++ zeros)) (sym (length-append (pre ++ head) b)) ⟩
      fill (length ((pre ++ head) ++ b)) bs (((pre ++ head) ++ b) ++ zeros)
    ≡⟨ fill-prefixed ((pre ++ head) ++ b) bs ⟩ ((pre ++ head) ++ b) ++ prefixed bs
    ≡⟨ (simp append_assoc) ⟩ pre ++ prefixed (b ∷ bs) ∎

uint32_bytes_injective :
    (m n : ℕ) → m < 2 ^ 32 → n < 2 ^ 32 → uint32_bytes m ≡ uint32_bytes n → m ≡ n
unfolding uint32_bytes
uint32_bytes_injective m n h k e = ground arith

append_injective :
    (xs ys us vs : List ℕ) → length xs ≡ length ys → xs ++ us ≡ ys ++ vs → (xs ≡ ys) × (us ≡ vs)
append_injective [] [] us vs l e = (refl, e)
append_injective [] (y ∷ ys) us vs l e = absurd (omega arith)
append_injective (x ∷ xs) [] us vs l e = absurd (omega arith)
append_injective (x ∷ xs) (y ∷ ys) us vs l e =
    let ih = append_injective xs ys us vs (omega arith) (cc) in (cc ih.0, ih.1)

abbrev pub Short : List (List ℕ) → Type 0
Short bs = All (λ b. length b < 2 ^ 32) bs

prefixed_injective :
    (cs bs : List (List ℕ)) → Short cs → Short bs → prefixed cs ≡ prefixed bs → cs ≡ bs
unfolding prefixed uint32_bytes
prefixed_injective [] [] h k e = refl
prefixed_injective [] (b ∷ bs) h k e = cc
prefixed_injective (a ∷ cs) [] h k e = cc
prefixed_injective (a ∷ cs) (b ∷ bs) (p, h) (q, k) e =
    let here =
      append_injective (uint32_bytes (length a)) (uint32_bytes (length b)) (a ++ prefixed cs)
        (b ++ prefixed bs) refl e in
    let same = uint32_bytes_injective (length a) (length b) p q here.0 in
    let there = append_injective a b (prefixed cs) (prefixed bs) same here.1 in
    cc (there.0, prefixed_injective cs bs h k there.1)

-- The buffer that the loop leaves holds each field behind its length, and nothing else.
pub encode_transcript-prefixed :
    (utf8 : String → List ℕ) (f : String) (fs : List String)
    → encode_transcript utf8 (f ∷ fs) ≡ some (prefixed (map utf8 (f ∷ fs)))
unfolding encode_transcript
encode_transcript-prefixed utf8 f fs = ap some (fill-prefixed [] (map utf8 (f ∷ fs)))

encode_transcript_nil : (utf8 : String → List ℕ) → encode_transcript utf8 [] ≡ none
unfolding encode_transcript
encode_transcript_nil utf8 = refl

map_injective :
    (utf8 : String → List ℕ)
    → ((s t : String) → utf8 s ≡ utf8 t → s ≡ t)
    → (xs ys : List String) → map utf8 xs ≡ map utf8 ys
    → xs ≡ ys
map_injective utf8 inj [] [] e = refl
map_injective utf8 inj [] (y ∷ ys) e = cc
map_injective utf8 inj (x ∷ xs) [] e = cc
map_injective utf8 inj (x ∷ xs) (y ∷ ys) e = cc (inj x y (cc), map_injective utf8 inj xs ys (cc))

-- If the text encoder tells texts apart, equal transcripts have equal fields, one by one, also
-- where they differ in number; each field is shorter than 2 ^ 32 bytes.
pub encode_transcript_injective :
    (utf8 : String → List ℕ)
    → ((s t : String) → utf8 s ≡ utf8 t → s ≡ t)
    → (xs ys : List String) → Short (map utf8 xs)
    → Short (map utf8 ys)
    → encode_transcript utf8 xs ≡ encode_transcript utf8 ys
    → xs ≡ ys
encode_transcript_injective utf8 inj [] [] h k e = refl
encode_transcript_injective utf8 inj [] (y ∷ ys) h k e =
    cc (e, encode_transcript_nil utf8, encode_transcript-prefixed utf8 y ys)
encode_transcript_injective utf8 inj (x ∷ xs) [] h k e =
    cc (e, encode_transcript_nil utf8, encode_transcript-prefixed utf8 x xs)
encode_transcript_injective utf8 inj (x ∷ xs) (y ∷ ys) h k e =
    map_injective utf8 inj (x ∷ xs) (y ∷ ys) (
      prefixed_injective (map utf8 (x ∷ xs)) (map utf8 (y ∷ ys)) h k
        (cc (e, encode_transcript-prefixed utf8 x xs, encode_transcript-prefixed utf8 y ys)))
