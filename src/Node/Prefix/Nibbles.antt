-- ===== src/Node/Prefix/Nibbles.antt =====
-- Writing and reading one nibble.
use ghost_cache.Common.{
  ℕ, ◌+◌, ◌*◌, ◌/◌, ◌%◌, ◌≤◌, ◌<◌, ◌≡◌, ◌≢◌, refl, ap, ◌∙◌, true, List, inl, inr, arith, ◌==◌,
  ==_iff, all_below, all_below_sound, if◌then◌else◌, take, take-set, IsBytes, IsBytes-get_or,
  IsBytes-set, Bool-cases, length, length-set, get_or, get_or-set, bit_and, bit_or,
}
use ghost_cache.Node.Prefix.{put_nibble, get_nibble}

low_table : all_below 256 (λ x. bit_and x 15 == x % 16) ≡ true
unfolding all_below
low_table = refl

join_table : all_below 16 (λ h. all_below 16 (λ l. bit_or (h * 16) l == h * 16 + l)) ≡ true
unfolding all_below
join_table = refl

-- `x & 15` of a byte.
pub bit_and_low : (x : ℕ) → x < 256 → bit_and x 15 ≡ x % 16
bit_and_low x h = (==_iff _ _).0 (all_below_sound 256 _ x low_table h)

-- A nibble joins an empty low half.
pub bit_or_low : (h l : ℕ) → h < 16 → l < 16 → bit_or (h * 16) l ≡ h * 16 + l
bit_or_low h l a b = (==_iff _ _).0 (all_below_sound 16 _ l (all_below_sound 16 _ h join_table a) b)

-- The byte that holds nibble i.
abbrev pub byte_of : List ℕ → ℕ → ℕ
byte_of body i = get_or body (5 + i / 2) 0

-- From index i on the low halves are still empty.
abbrev pub IsClear : List ℕ → ℕ → Type 0
IsClear body i = (k : ℕ) → i ≤ k → byte_of body k % 16 ≡ 0

-- What stands in the byte of j when nibble i is written.
byte_of-put_nibble :
    (body : List ℕ) (i nibble j : ℕ)
    → 5 + i / 2 < length body
    → nibble ≤ 15
    → byte_of body i < 256
    → byte_of body i % 16 ≡ 0
    → byte_of (put_nibble body i nibble) j ≡ (
        if 5 + i / 2 == 5 + j / 2
        then (if i % 2 == 0 then nibble * 16 else byte_of body i + nibble)
        else byte_of body j)
unfolding put_nibble
byte_of-put_nibble body i nibble j inside small byte empty = elim (Bool-cases (i % 2 == 0)) [
  | inl even ↦
      let wrap : nibble * 16 % 256 ≡ nibble * 16 = omega arith in
      rw (even, get_or-set body (5 + i / 2) (5 + j / 2) (nibble * 16 % 256) 0 inside, wrap) refl
  | inr odd ↦
      let half : byte_of body i ≡ byte_of body i / 16 * 16 = omega arith in
      let join : bit_or (byte_of body i) nibble ≡ byte_of body i + nibble =
        ap (λ (x : ℕ). bit_or x nibble) half
        ∙ bit_or_low (byte_of body i / 16) nibble (omega arith) (omega arith)
        ∙ omega arith in
      rw
        (
          odd,
          get_or-set body (5 + i / 2) (5 + j / 2) (bit_or (byte_of body i) nibble) 0 inside,
          join,
        )
        refl
]

-- A round of the writing loop.
pub record Written (body body' : List ℕ) (i nibble : ℕ) : Type 0 where
  pub bytes : IsBytes body'
  pub size : length body' ≡ length body
  pub header : take 5 body' ≡ take 5 body
  pub here : get_nibble body' i ≡ nibble
  pub elsewhere : (j : ℕ) → i ≢ j → get_nibble body' j ≡ get_nibble body j
  pub clear : IsClear body' (i + 1)

put_nibble-IsBytes :
    (body : List ℕ) (i nibble : ℕ)
    → IsBytes body
    → nibble ≤ 15
    → byte_of body i % 16 ≡ 0
    → IsBytes (put_nibble body i nibble)
unfolding put_nibble
put_nibble-IsBytes body i nibble h small empty =
    let low = IsBytes-get_or body (5 + i / 2) h in
    let half : byte_of body i ≡ byte_of body i / 16 * 16 = omega arith in
    let join : bit_or (byte_of body i) nibble ≡ byte_of body i / 16 * 16 + nibble =
      ap (λ (x : ℕ). bit_or x nibble) half
      ∙ bit_or_low (byte_of body i / 16) nibble (omega arith) (omega arith) in
    ground (
      arith,
      IsBytes-set body (5 + i / 2) (nibble * 16 % 256) h,
      IsBytes-set body (5 + i / 2) (bit_or (byte_of body i) nibble) h,
    )

length-put_nibble : (body : List ℕ) (i nibble : ℕ) → length (put_nibble body i nibble) ≡ length body
unfolding put_nibble
length-put_nibble body i nibble = ground (
  arith,
  length-set body (5 + i / 2) (nibble * 16 % 256),
  length-set body (5 + i / 2) (bit_or (byte_of body i) nibble),
)

take-put_nibble : (body : List ℕ) (i nibble : ℕ) → take 5 (put_nibble body i nibble) ≡ take 5 body
unfolding put_nibble
take-put_nibble body i nibble = ground (
  arith,
  take-set 5 (5 + i / 2) (nibble * 16 % 256) body,
  take-set 5 (5 + i / 2) (bit_or (byte_of body i) nibble) body,
)

get_nibble-byte_of :
    (body : List ℕ) (i : ℕ)
    → IsBytes body
    → get_nibble body i ≡ (if i % 2 == 0 then byte_of body i / 16 else byte_of body i % 16)
unfolding get_nibble
get_nibble-byte_of body i h =
    rw (bit_and_low (byte_of body i) (IsBytes-get_or body (5 + i / 2) h)) refl

pub put_nibble-Written :
    (body : List ℕ) (i nibble : ℕ)
    → IsBytes body
    → 5 + i / 2 < length body
    → nibble ≤ 15
    → IsClear body i
    → Written body (put_nibble body i nibble) i nibble
put_nibble-Written body i nibble h inside small clear =
    let new = put_nibble body i nibble in
    let h' = put_nibble-IsBytes body i nibble h small (clear i (omega arith)) in
    let byte = λ (j : ℕ).
      byte_of-put_nibble body i nibble j inside small (IsBytes-get_or body (5 + i / 2) h)
        (clear i (omega arith)) in
    record {
      bytes = put_nibble-IsBytes body i nibble h small (clear i (omega arith));
      size = length-put_nibble body i nibble;
      header = take-put_nibble body i nibble;
      here = ground (arith, get_nibble-byte_of new i h', byte i, clear i);
      elsewhere = λ j ne. ground (
        arith,
        get_nibble-byte_of new j h',
        get_nibble-byte_of body j h,
        byte j,
        clear i,
        clear j,
      );
      clear = λ k le. ground (arith, byte k, clear k);
    }
