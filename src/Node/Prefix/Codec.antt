-- ===== src/Node/Prefix/Codec.antt =====
-- Prefixes on the wire, alone and with other data behind them.
use ghost_cache.Common.{
  ℕ, zero, suc, ◌+◌, ◌-◌, ◌*◌, ◌/◌, ◌%◌, ◌^◌, ◌≤◌, ◌<◌, ◌≡◌, refl, sym, ap, ap₂, ◌∙◌, false, not,
  ◌&&◌, ◌||◌, List, [], ◌∷◌, ◌++◌, inl, inr, arith, ◌==◌, ==_iff, ltb, Bool-cases, length,
  length-append, length-replicate, length-put_le, get_or, get_or-append_left, get_or-append_past,
  get_or-replicate, take, take-append_left, slice, replicate, put_le, get_le, get_le-put_le, All,
  zeros-IsBytes, IsBytes, IsBytes-get_or, bit_and, ok,
}
use ghost_cache.Node.Prefix.{
  put_nibble, put_nibbles, packed_size, encode_prefix, get_nibble, get_nibbles,
  decode_prefix_with_tail, decode_prefix, IsNibble,
}
use ghost_cache.Node.Prefix.Nibbles.{IsClear, byte_of, Written, put_nibble-Written, bit_and_low}

-- What the writing loop leaves, from index i.
record Packed (body body' : List ℕ) (i : ℕ) (prefix : List ℕ) : Type 0 where
  run : put_nibbles body i prefix ≡ ok body'
  bytes : IsBytes body'
  size : length body' ≡ length body
  header : take 5 body' ≡ take 5 body
  here : (d : ℕ) → d < length prefix → get_nibble body' (i + d) ≡ get_or prefix d 0
  below : (j : ℕ) → j < i → get_nibble body' j ≡ get_nibble body j
  clear : IsClear body' (i + length prefix)

Packed-here :
    (body body' : List ℕ) (i n : ℕ) (ns : List ℕ)
    → Written body (put_nibble body i n) i n
    → Packed (put_nibble body i n) body' (i + 1) ns
    → (d : ℕ) → d < length (n ∷ ns)
    → get_nibble body' (i + d) ≡ get_or (n ∷ ns) d 0
Packed-here body body' i n ns w rest zero lt =
    let e : i + zero ≡ i = omega arith in rw e (rest.below i (omega arith) ∙ w.here)
Packed-here body body' i n ns w rest (suc d) lt =
    let e : i + suc d ≡ i + 1 + d = omega arith in rw e (rest.here d (omega arith))

put_nibbles-Packed :
    (body : List ℕ) (i : ℕ) (prefix : List ℕ)
    → IsBytes body
    → 10 + (i + length prefix + 1) / 2 * 2 ≤ 2 * length body
    → All IsNibble prefix
    → IsClear body i
    → (body' : List ℕ) × Packed body body' i prefix
unfolding put_nibbles
put_nibbles-Packed body i [] h fits small clear = (
  body,
  record {
    run = refl;
    bytes = h;
    size = refl;
    header = refl;
    here = λ d lt. absurd (omega arith);
    below = λ j lt. refl;
    clear = λ k le. clear k (omega arith);
  },
)
put_nibbles-Packed body i (n ∷ ns) h fits small clear =
    let w = put_nibble-Written body i n h (omega arith) small.0 clear in
    let (body', rest) =
      put_nibbles-Packed (put_nibble body i n) (i + 1) ns w.bytes (omega (arith, w.size)) small.1
        w.clear in
    let pass : ltb 15 n ≡ false = ground (arith, small.0) in
    (
      body',
      record {
        run = rw pass rest.run;
        bytes = rest.bytes;
        size = rest.size ∙ w.size;
        header = rest.header ∙ w.header;
        here = Packed-here body body' i n ns w rest;
        below = λ j lt. rest.below j (omega arith) ∙ w.elsewhere j (omega arith);
        clear = λ k le. rest.clear k (omega arith);
      },
    )

-- The loop that reads what was written.
get_nibbles-eq :
    (body : List ℕ) (i : ℕ) (prefix : List ℕ)
    → ((d : ℕ) → d < length prefix → get_nibble body (i + d) ≡ get_or prefix d 0)
    → get_nibbles body i (length prefix) ≡ prefix
unfolding get_nibbles
get_nibbles-eq body i [] h = refl
get_nibbles-eq body i (n ∷ ns) h =
    let e : i + 0 ≡ i = omega arith in
    ap₂ (λ (x : ℕ) (xs : List ℕ). x ∷ xs) (rw e at (h 0 (omega arith)))
      (get_nibbles-eq body (i + 1) ns
        (λ d lt. let e : i + 1 + d ≡ i + suc d = omega arith in rw e (h (suc d) (omega arith))))

-- The body before the loop.
abbrev blank : ℕ → List ℕ → List ℕ
blank generation prefix =
    put_le 4 generation ++ (length prefix % 256) ∷ replicate (packed_size (length prefix)) 0

byte_of-blank : (generation : ℕ) (prefix : List ℕ) (k : ℕ) → byte_of (blank generation prefix) k ≡ 0
byte_of-blank generation prefix k =
    get_or-append_past 4 (5 + k / 2) (suc (k / 2)) (put_le 4 generation)
      (length prefix % 256 ∷ replicate (packed_size (length prefix)) 0) 0
      (length-put_le 4 generation) (omega arith)
    ∙ get_or-replicate (packed_size (length prefix)) (k / 2) 0

blank-IsClear : (generation : ℕ) (prefix : List ℕ) → IsClear (blank generation prefix) 0
blank-IsClear generation prefix k le = rw (byte_of-blank generation prefix k) refl

length-blank :
    (generation : ℕ) (prefix : List ℕ)
    → length (blank generation prefix) ≡ 5 + packed_size (length prefix)
length-blank generation prefix =
    let zeros : length (replicate {A = ℕ} (packed_size (length prefix)) 0)
        ≡ packed_size (length prefix) =
      length-replicate (packed_size (length prefix)) (let z : ℕ = 0 in z) in
    omega (arith, zeros)

blank-IsBytes : (generation : ℕ) (prefix : List ℕ) → IsBytes (blank generation prefix)
blank-IsBytes generation prefix =
    let zeros = zeros-IsBytes (packed_size (length prefix)) in
    (omega arith, (omega arith, (omega arith, (omega arith, (omega arith, zeros)))))

take-take : (n m : ℕ) (xs : List ℕ) → n ≤ m → take n (take m xs) ≡ take n xs
take-take zero m xs h = refl
take-take (suc n) zero xs h = absurd (omega arith)
take-take (suc n) (suc m) [] h = refl
take-take (suc n) (suc m) (x ∷ xs) h = ap (λ (ys : List ℕ). x ∷ ys) (take-take n m xs (omega arith))

get_or-take : (n i : ℕ) (xs : List ℕ) → i < n → get_or (take n xs) i 0 ≡ get_or xs i 0
get_or-take zero i xs h = absurd (omega arith)
get_or-take (suc n) i [] h = refl
get_or-take (suc n) zero (x ∷ xs) h = refl
get_or-take (suc n) (suc i) (x ∷ xs) h = get_or-take n i xs (omega arith)

-- The number and the depth stand in the first five bytes.
slice-header : (body body' : List ℕ) → take 5 body ≡ take 5 body' → slice 0 4 body ≡ slice 0 4 body'
slice-header body body' e =
    sym (take-take 4 5 body (omega arith))
    ∙ ap (λ (xs : List ℕ). take 4 xs) e
    ∙ take-take 4 5 body' (omega arith)

depth-header :
    (body body' : List ℕ) → take 5 body ≡ take 5 body' → get_or body 4 0 ≡ get_or body' 4 0
depth-header body body' e =
    sym (get_or-take 5 4 body (omega arith))
    ∙ ap (λ (xs : List ℕ). get_or xs 4 0) e
    ∙ get_or-take 5 4 body' (omega arith)

-- The wire form of a prefix, with what the decoder needs of it.
pub record Encoded (generation : ℕ) (prefix body : List ℕ) : Type 0 where
  pub run : encode_prefix generation prefix ≡ ok body
  pub bytes : IsBytes body
  pub size : length body ≡ 5 + packed_size (length prefix)
  pub number : get_le (slice 0 4 body) ≡ generation
  pub depth : get_or body 4 0 ≡ length prefix
  pub nibbles : (d : ℕ) → d < length prefix → get_nibble body d ≡ get_or prefix d 0
  pub padding : length prefix % 2 ≡ 1 → bit_and (get_or body (5 + length prefix / 2) 0) 15 ≡ 0

Packed-Encoded :
    (generation : ℕ) (prefix body : List ℕ)
    → generation < 2 ^ 32
    → length prefix ≤ 32
    → Packed (blank generation prefix) body 0 prefix
    → Encoded generation prefix body
unfolding encode_prefix
Packed-Encoded generation prefix body g short p =
    let pass : ltb 32 (length prefix) ≡ false = ground arith in
    record {
      run = rw pass p.run;
      bytes = p.bytes;
      size = p.size ∙ length-blank generation prefix;
      number =
          ap get_le (slice-header body (blank generation prefix) p.header)
          ∙ get_le-put_le 4 generation g;
      depth = depth-header body (blank generation prefix) p.header ∙ omega arith;
      nibbles = λ d lt. let e : 0 + d ≡ d = omega arith in rw e at (p.here d lt);
      padding = λ odd.
          bit_and_low (byte_of body (length prefix))
            (IsBytes-get_or body (5 + length prefix / 2) p.bytes)
          ∙ p.clear (length prefix) (omega arith);
    }

pub encode_prefix-Encoded :
    (generation : ℕ) (prefix : List ℕ)
    → generation < 2 ^ 32
    → length prefix ≤ 32
    → All IsNibble prefix
    → (body : List ℕ) × Encoded generation prefix body
encode_prefix-Encoded generation prefix g short small =
    let (body, p) =
      put_nibbles-Packed (blank generation prefix) 0 prefix (blank-IsBytes generation prefix)
        (omega (arith, length-blank generation prefix)) small (blank-IsClear generation prefix) in
    (body, Packed-Encoded generation prefix body g short p)

-- A decoder reads a prefix and what stands behind it.
get_nibble-append :
    (body tail : List ℕ) (i : ℕ)
    → 5 + i / 2 < length body
    → get_nibble (body ++ tail) i ≡ get_nibble body i
unfolding get_nibble
get_nibble-append body tail i inside = rw (get_or-append_left body tail (5 + i / 2) 0 inside) refl

pub decode_prefix_with_tail-Encoded :
    (generation : ℕ) (prefix body tail : List ℕ)
    → length prefix ≤ 32
    → Encoded generation prefix body
    → decode_prefix_with_tail (body ++ tail) (length tail) ≡ ok (generation, prefix)
unfolding decode_prefix_with_tail
decode_prefix_with_tail-Encoded generation prefix body tail short e =
    let whole = length-append body tail in
    let depth : get_or (body ++ tail) 4 0 ≡ length prefix =
      get_or-append_left body tail 4 0 (omega (arith, e.size)) ∙ e.depth in
    let number : slice 0 4 (body ++ tail) ≡ slice 0 4 body =
      take-append_left 4 body tail (omega (arith, e.size)) in
    let padding : length prefix % 2 ≡ 1
        → get_or (body ++ tail) (5 + length prefix / 2) 0 ≡ get_or body (5 + length prefix / 2) 0 =
      λ odd. get_or-append_left body tail (5 + length prefix / 2) 0 (omega (arith, e.size)) in
    let nibbles = get_nibbles-eq (body ++ tail) 0 prefix (λ d lt.
      let z : 0 + d ≡ d = omega arith in
      rw z (get_nibble-append body tail d (omega (arith, e.size)) ∙ e.nibbles d lt)) in
    let first : ltb (length (body ++ tail)) 5 ≡ false = ground (arith, whole, e.size) in
    let second : (ltb 32 (length prefix)
          || not (length (body ++ tail) == 5 + packed_size (length prefix) + length tail))
        ≡ false =
      ground (arith, whole, e.size) in
    let third : (length prefix % 2 == 1
          && not (bit_and (get_or (body ++ tail) (5 + length prefix / 2) 0) 15 == 0))
        ≡ false =
      elim (Bool-cases (length prefix % 2 == 1)) [
        | inl odd ↦ let one = (==_iff _ _).0 odd in rw (odd, padding one, e.padding one) refl
        | inr even ↦ rw even refl
      ] in
    rw (first, depth, second, third, number, e.number, nibbles) refl

pub decode_prefix-Encoded :
    (generation : ℕ) (prefix body tail : List ℕ)
    → length prefix ≤ 32
    → Encoded generation prefix body
    → decode_prefix (body ++ tail) ≡ ok (generation, prefix)
unfolding decode_prefix
decode_prefix-Encoded generation prefix body tail short e =
    let whole = length-append body tail in
    let depth : get_or (body ++ tail) 4 0 ≡ length prefix =
      get_or-append_left body tail 4 0 (omega (arith, e.size)) ∙ e.depth in
    let first : ltb (length (body ++ tail)) 5 ≡ false = ground (arith, whole, e.size) in
    let second : ltb (length (body ++ tail)) (5 + packed_size (length prefix)) ≡ false =
      ground (arith, whole, e.size) in
    let rest : length (body ++ tail) - (5 + packed_size (length prefix)) ≡ length tail =
      omega (arith, e.size) in
    rw (first, depth, second, rest)
      (decode_prefix_with_tail-Encoded generation prefix body tail short e)
