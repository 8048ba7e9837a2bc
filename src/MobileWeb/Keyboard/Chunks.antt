-- ===== src/MobileWeb/Keyboard/Chunks.antt =====
-- Text in chunks: nothing is lost, and each chunk is one that the protocol takes.
use Prim.Native.Nat.{min}
use remotetab.Prelude.{
  ℕ, zero, suc, ◌-◌, ◌≤◌, ◌≡◌, refl, sym, ap, ◌∙◌, Bool, true, false, not, ◌&&◌, List, [], ◌∷◌,
  ◌++◌, arith, leb, ltb, ◌==◌, length, take, drop, take-append-drop, length-take, length-drop, All,
  Bool-cases, inl, inr, if◌then◌else◌,
}
use remotetab.MobileWeb.Keyboard.{
  is_high, is_low, high_before, chunk_end, split_loop, split_text_chunks,
}

-- `''.join(chunks)`.
unfoldable pub join : List (List ℕ) → List ℕ
join [] = []
join (c ∷ cs) = c ++ join cs

-- A round takes at least one unit, if two may be taken, and no more than there are.
chunk_end-bounds :
    (max : ℕ) (rest : List ℕ)
    → 2 ≤ max
    → 1 ≤ length rest
    → (1 ≤ chunk_end max rest) × (chunk_end max rest ≤ length rest) × (chunk_end max rest ≤ max)
unfolding chunk_end
chunk_end-bounds max rest h k = (ground arith, ground arith, ground arith)

join-split_loop :
    (fuel max : ℕ) (rest : List ℕ)
    → 2 ≤ max
    → length rest ≤ fuel
    → join (split_loop fuel max rest) ≡ rest
unfolding split_loop join
join-split_loop zero max [] h k = refl
join-split_loop zero max (c ∷ rest) h k = absurd (omega arith)
join-split_loop (suc fuel) max [] h k = refl
join-split_loop (suc fuel) max (c ∷ rest) h k =
    let b = chunk_end-bounds max (c ∷ rest) h (omega arith) in
    let end = chunk_end max (c ∷ rest) in
    let e : (end == 0) ≡ false = ground arith in
    rw (e) (
      ap (◌++◌ (take end (c ∷ rest))) (
        join-split_loop fuel max (drop end (c ∷ rest)) h
          (omega (arith, length-drop end (c ∷ rest))))
      ∙ take-append-drop end (c ∷ rest))

-- `wellFormedText`: every high surrogate is followed by a low one, and no low one stands alone.
unfoldable pub is_well_formed : List ℕ → Bool
is_well_formed [] = true
is_well_formed (c ∷ []) = not (is_high c) && not (is_low c)
is_well_formed (c ∷ d ∷ rest) =
    let pair = is_low d && is_well_formed rest in
    let single = not (is_low c) && is_well_formed (d ∷ rest) in if is_high c then pair else single

-- A text is cut into well-formed parts wherever the cut is not behind a high surrogate.
is_well_formed-cut :
    (n : ℕ) (text : List ℕ)
    → n ≤ length text
    → is_well_formed text ≡ true
    → high_before n text ≡ false
    → (is_well_formed (take n text) ≡ true) × (is_well_formed (drop n text) ≡ true)
unfolding is_well_formed
is_well_formed-cut zero text b w h = (refl, w)
is_well_formed-cut (suc n) [] b w h = absurd (omega arith)
is_well_formed-cut (suc zero) (c ∷ []) b w h = (w, refl)
is_well_formed-cut (suc (suc n)) (c ∷ []) b w h = absurd (omega arith)
is_well_formed-cut (suc zero) (c ∷ d ∷ rest) b w h = ground arith
is_well_formed-cut (suc (suc zero)) (c ∷ d ∷ rest) b w h =
    ground (arith, is_well_formed-cut (suc zero) (d ∷ rest))
is_well_formed-cut (suc (suc (suc n))) (c ∷ d ∷ rest) b w h =
    ground (arith, is_well_formed-cut (suc n) rest, is_well_formed-cut (suc (suc n)) (d ∷ rest))

-- Two high surrogates never stand in a row, and none stands at the end.
high_before_once :
    (n : ℕ) (text : List ℕ)
    → is_well_formed text ≡ true
    → high_before (suc n) text ≡ true
    → high_before n text ≡ false
unfolding is_well_formed
high_before_once zero text w h = refl
high_before_once (suc n) [] w h = cc
high_before_once (suc n) (c ∷ []) w h = ground arith
high_before_once (suc zero) (c ∷ d ∷ rest) w h = ground arith
high_before_once (suc (suc zero)) (c ∷ d ∷ rest) w h =
    ground (arith, high_before_once (suc zero) (d ∷ rest))
high_before_once (suc (suc (suc n))) (c ∷ d ∷ rest) w h =
    ground (arith, high_before_once (suc n) rest, high_before_once (suc (suc n)) (d ∷ rest))

high_before-length :
    (text : List ℕ) → is_well_formed text ≡ true → high_before (length text) text ≡ false
unfolding is_well_formed
high_before-length [] w = refl
high_before-length (c ∷ []) w = ground arith
high_before-length (c ∷ d ∷ []) w = ground arith
high_before-length (c ∷ d ∷ e ∷ rest) w =
    ground (arith, high_before-length (e ∷ rest), high_before-length (d ∷ e ∷ rest))

-- So the end of a chunk is never behind a high surrogate.
high_before-chunk_end :
    (max : ℕ) (text : List ℕ)
    → 2 ≤ max
    → 1 ≤ length text
    → is_well_formed text ≡ true
    → high_before (chunk_end max text) text ≡ false
unfolding chunk_end
high_before-chunk_end max text m k w =
    let end = min max (length text) in
    elim (Bool-cases (ltb end (length text) && high_before end text)) [
      | inl e ↦
          let s : end ≡ suc (end - 1) = omega arith in
          let h : high_before (suc (end - 1)) text ≡ true = rw (sym s) (ground arith) in
          rw e (high_before_once (end - 1) text w h)
      | inr e ↦ rw e (elim (Bool-cases (ltb end (length text))) [
        | inl short ↦ ground arith
        | inr whole ↦ let s : end ≡ length text = ground arith in rw s (high_before-length text w)
      ])
    ]

-- What `textInsertSchema` takes, with another bound.
abbrev pub is_text : ℕ → List ℕ → Bool
is_text max text = ltb 0 (length text) && leb (length text) max && is_well_formed text

split_loop-is_text :
    (fuel max : ℕ) (rest : List ℕ)
    → 2 ≤ max
    → is_well_formed rest ≡ true
    → All (λ c. is_text max c ≡ true) (split_loop fuel max rest)
unfolding split_loop
split_loop-is_text zero max rest h w = tt
split_loop-is_text (suc fuel) max [] h w = tt
split_loop-is_text (suc fuel) max (c ∷ rest) h w =
    let b = chunk_end-bounds max (c ∷ rest) h (omega arith) in
    let end = chunk_end max (c ∷ rest) in
    let e : (end == 0) ≡ false = ground arith in
    let cut =
      is_well_formed-cut end (c ∷ rest) b.1 w
        (high_before-chunk_end max (c ∷ rest) h (omega arith) w) in
    rw e (
      ground (arith, length-take end (c ∷ rest), cut),
      split_loop-is_text fuel max (drop end (c ∷ rest)) h cut.1,
    )

-- Each chunk of a well-formed text is a text that the schema takes, with the length bound that was
-- asked for (two units at least): it is not empty, not too long, and splits no surrogate pair.
pub split_text_chunks-is_text :
    (max : ℕ) (text : List ℕ)
    → 2 ≤ max
    → is_well_formed text ≡ true
    → All (λ c. is_text max c ≡ true) (split_text_chunks max text)
unfolding split_text_chunks
split_text_chunks-is_text max text h w = split_loop-is_text (length text) max text h w

-- The chunks of any text, joined, are the text, if two units may stand in a chunk.
pub join-split_text_chunks :
    (max : ℕ) (text : List ℕ) → 2 ≤ max → join (split_text_chunks max text) ≡ text
unfolding split_text_chunks
join-split_text_chunks max text h = join-split_loop (length text) max text h (omega arith)
