-- ===== src/Publication/Assembly/Delivery.antt =====
-- Chunks of one content, delivered in any order and as often as the radio likes, give the content.
use ghost_cache.Common.{
  ℕ, zero, suc, ◌+◌, ◌-◌, ◌*◌, ◌/◌, ◌≤◌, ◌<◌, ◌≡◌, refl, sym, ap, ap₂, subst, ◌∙◌, Bool, true, ◌||◌,
  List, [], ◌∷◌, ◌++◌, inl, inr, arith, ◌==◌, ==_iff, if◌then◌else◌, Bool-cases, length, take-add,
  lt-div_mul, take, drop, take_all, drop-drop, get_or, elem, All, bytes_eq, bytes_eq_refl, Result,
  ok, ◌>>=◌,
}
use ghost_cache.Publication.Manifest.{Manifest, expected_chunks}
use ghost_cache.Publication.Assembly.{
  Assembly, new_assembly, has_expected_length, add, is_complete, join, content,
}
use ghost_cache.Publication.Assembly.Invariant.{
  IsAssembly, is_received, chunk_at, new_assembly-IsAssembly, is_received-new_assembly, stored,
  is_received-stored, chunk_at-stored, stored-IsAssembly,
}
use ghost_cache.Publication.Assembly.Order.{add-again, add-new}
use ghost_cache.Publication.Assembly.Complete.{is_complete_iff}
use ghost_cache.Publication.Assembly.Cut.{chunk_of, Describes, chunk_of-expected}

-- The chunks of the indexes, added one after the other.
pub deliver : Assembly → List ℕ → List ℕ → Result Assembly
deliver a whole [] = ok a
deliver a whole (i ∷ is) = add a i (chunk_of a.manifest whole i) >>= λ b. deliver b whole is

-- What has arrived is a chunk of the content.
pub record Holds (a : Assembly) (whole : List ℕ) : Type 0 where
  pub valid : IsAssembly a
  pub cut : (i : ℕ) → is_received a i ≡ true → chunk_at a i ≡ chunk_of a.manifest whole i

stored-Holds :
    (a : Assembly) (whole : List ℕ) (i : ℕ)
    → Holds a whole
    → i < length a.chunks
    → has_expected_length a i (chunk_of a.manifest whole i) ≡ true
    → Holds (stored a i (chunk_of a.manifest whole i)) whole
stored-Holds a whole i h inside fits =
    let chunk = chunk_of a.manifest whole i in
    record {
      valid = stored-IsAssembly a i chunk h.valid inside fits;
      cut = λ j e. elim (Bool-cases (i == j)) [
        | inl same ↦
            rw (chunk_at-stored a i j chunk h.valid inside, same)
              (ap (chunk_of a.manifest whole) ((==_iff i j).0 same))
        | inr other ↦
            rw (chunk_at-stored a i j chunk h.valid inside, other)
              (h.cut j (rw (is_received-stored a i j chunk h.valid inside, other) at e))
      ];
    }

-- Adding a chunk of the content succeeds, and that chunk has arrived as well.
record Added (a b : Assembly) (whole : List ℕ) (i : ℕ) : Type 0 where
  step : add a i (chunk_of a.manifest whole i) ≡ ok b
  holds : Holds b whole
  same : b.manifest ≡ a.manifest
  arrived : (j : ℕ) → is_received b j ≡ (i == j || is_received a j)

arrived_again :
    (a : Assembly) (i j : ℕ)
    → is_received a i ≡ true
    → is_received a j ≡ (i == j || is_received a j)
arrived_again a i j here = elim (Bool-cases (i == j)) [
  | inl same ↦ rw same (subst (λ (k : ℕ). is_received a k ≡ true) ((==_iff i j).0 same) here)
  | inr other ↦ rw other refl
]

if_or : (b c : Bool) → (if b then true else c) ≡ (b || c)
if_or b c = ground arith

add-Added :
    (a : Assembly) (whole : List ℕ) (i : ℕ)
    → Describes a.manifest whole
    → Holds a whole
    → i < a.manifest.chunk_count
    → (b : Assembly) × Added a b whole i
add-Added a whole i d h lt =
    let v = h.valid in
    let m = a.manifest in
    let fits = chunk_of-expected a whole i d v.places lt in
    let inside : i < length a.chunks = omega (arith, v.places) in
    elim (Bool-cases (is_received a i)) [
      | inl here ↦ (
        a,
        record {
          step = add-again a i (chunk_of m whole i) inside fits here (h.cut i here);
          holds = h;
          same = refl;
          arrived = λ j. arrived_again a i j here;
        },
      )
      | inr absent ↦ (
        stored a i (chunk_of m whole i),
        record {
          step = add-new a i (chunk_of m whole i) inside fits absent;
          holds = stored-Holds a whole i h inside fits;
          same = refl;
          arrived = λ j.
              is_received-stored a i j (chunk_of m whole i) v inside
              ∙ if_or (i == j) (is_received a j);
        },
      )
    ]

or_swap : (a b c : Bool) → (a || (b || c)) ≡ ((b || a) || c)
or_swap a b c = ground arith

zero_mul : (n : ℕ) → 0 * n ≡ 0
zero_mul n = omega arith

new_assembly-Holds : (m : Manifest) (whole : List ℕ) → Holds (new_assembly m) whole
new_assembly-Holds m whole = record {
  valid = new_assembly-IsAssembly m;
  cut = λ i e. cc (sym (is_received-new_assembly m i) ∙ e);
}

content_complete :
    (sha256 : List ℕ → List ℕ) (a : Assembly) (whole : List ℕ)
    → is_complete a ≡ true
    → join a.chunks ≡ whole
    → sha256 whole ≡ a.manifest.sha256
    → content sha256 a ≡ ok whole
unfolding content
content_complete sha256 a whole complete joined hash =
    let equal : bytes_eq (sha256 (join a.chunks)) a.manifest.sha256 ≡ true =
      rw (joined, hash) (bytes_eq_refl a.manifest.sha256) in
    ground (arith, equal)

-- Every delivery of chunks of the content succeeds; what arrived before or was delivered has arrived.
record Delivered (a b : Assembly) (whole : List ℕ) (is : List ℕ) : Type 0 where
  run : deliver a whole is ≡ ok b
  holds : Holds b whole
  same : b.manifest ≡ a.manifest
  arrived : (j : ℕ) → is_received b j ≡ (elem j is || is_received a j)

deliver-Delivered :
    (a : Assembly) (whole : List ℕ) (is : List ℕ)
    → Describes a.manifest whole
    → Holds a whole
    → All (λ i. i < a.manifest.chunk_count) is
    → (b : Assembly) × Delivered a b whole is
unfolding deliver elem
deliver-Delivered a whole [] d h lt =
    (a, record { run = refl; holds = h; same = refl; arrived = λ j. refl })
deliver-Delivered a whole (i ∷ is) d h lt =
    let (b, one) = add-Added a whole i d h lt.0 in
    let d' = subst (λ (m : Manifest). Describes m whole) (sym one.same) d in
    let lt' = subst (λ (m : Manifest). All (λ i. i < m.chunk_count) is) (sym one.same) lt.1 in
    let (c, rest) = deliver-Delivered b whole is d' one.holds lt' in
    (
      c,
      record {
        run = rw one.step rest.run;
        holds = rest.holds;
        same = rest.same ∙ one.same;
        arrived = λ j.
            rest.arrived j
            ∙ ap (λ (r : Bool). elem j is || r) (one.arrived j)
            ∙ or_swap (elem j is) (i == j) (is_received a j);
      },
    )

join-chunks :
    (chunk_size : ℕ) (whole : List ℕ) (i : ℕ) (xs : List (List ℕ))
    → ((k : ℕ)
        → k < length xs
        → get_or xs k [] ≡ take chunk_size (drop ((i + k) * chunk_size) whole))
    → join xs ≡ take (length xs * chunk_size) (drop (i * chunk_size) whole)
unfolding join
join-chunks chunk_size whole i [] h = let e : 0 * chunk_size ≡ 0 = omega arith in rw e refl
join-chunks chunk_size whole i (x ∷ xs) h =
    let here : i + 0 ≡ i = omega arith in
    let next : i * chunk_size + chunk_size ≡ (i + 1) * chunk_size = omega arith in
    let size : suc (length xs) * chunk_size ≡ chunk_size + length xs * chunk_size = omega arith in
    let first = rw here at (h 0 (omega arith)) in
    let later = join-chunks chunk_size whole (i + 1) xs (λ k lt.
      let shift : i + 1 + k ≡ i + suc k = omega arith in rw shift (h (suc k) (omega arith))) in
    rw
      (
        size,
        take-add chunk_size (length xs * chunk_size) (drop (i * chunk_size) whole),
        drop-drop (i * chunk_size) chunk_size whole,
        next,
      )
      (ap₂ (λ (ys zs : List ℕ). ys ++ zs) first later)

chunks_cover :
    (size chunk_size n : ℕ)
    → 0 < chunk_size
    → n ≡ expected_chunks size chunk_size
    → size ≤ n * chunk_size
unfolding expected_chunks
chunks_cover zero chunk_size n pos e = omega arith
chunks_cover (suc s) chunk_size n pos e =
    let less : suc s - 1 ≡ s = omega arith in
    let count : n ≡ s / chunk_size + 1 = ground (arith, less) in
    omega (arith, lt-div_mul s chunk_size pos, ap (λ (k : ℕ). k * chunk_size) count)

-- An assembly that holds every chunk of a content gives the content.
pub content_of :
    (sha256 : List ℕ → List ℕ) (a : Assembly) (whole : List ℕ)
    → Describes a.manifest whole
    → Holds a whole
    → sha256 whole ≡ a.manifest.sha256
    → ((i : ℕ) → i < a.manifest.chunk_count → is_received a i ≡ true)
    → content sha256 a ≡ ok whole
content_of sha256 a whole d h hash all =
    let v = h.valid in
    let m = a.manifest in
    let complete =
      (is_complete_iff a (omega (arith, v.flags, d.small))).1
        (λ i lt. all i (omega (arith, v.flags))) in
    let joined : join a.chunks ≡ whole =
      join-chunks m.chunk_size whole 0 a.chunks (λ k lt.
        let e : 0 + k ≡ k = omega arith in rw e (h.cut k (all k (omega (arith, v.places)))))
      ∙ ap (λ (n : ℕ). take (length a.chunks * m.chunk_size) (drop n whole)) (zero_mul m.chunk_size)
      ∙ take_all (length a.chunks * m.chunk_size) whole (
          omega (
            arith,
            d.size,
            chunks_cover m.length m.chunk_size m.chunk_count d.chunk_pos d.cover,
            ap (λ (n : ℕ). n * m.chunk_size) v.places,
          )) in
    content_complete sha256 a whole complete joined hash

-- However the chunks of a content are ordered and repeated, once each of them has been delivered
-- to a new assembly, `Content` gives the content, if its hash is the one of the manifest.
pub content-deliver :
    (sha256 : List ℕ → List ℕ) (m : Manifest) (whole is : List ℕ)
    → Describes m whole
    → sha256 whole ≡ m.sha256
    → All (λ i. i < m.chunk_count) is
    → ((i : ℕ) → i < m.chunk_count → elem i is ≡ true)
    → (a : Assembly) × (deliver (new_assembly m) whole is ≡ ok a) × (content sha256 a ≡ ok whole)
unfolding new_assembly
content-deliver sha256 m whole is d hash lt cover =
    let (a, done) = deliver-Delivered (new_assembly m) whole is d (new_assembly-Holds m whole) lt in
    let v = done.holds.valid in
    let same : a.manifest ≡ m = done.same in
    (
      a,
      done.run,
      content_of sha256 a whole (subst (λ (k : Manifest). Describes k whole) (sym same) d)
          done.holds (hash ∙ ap (λ (k : Manifest). k.sha256) (sym same))
          (λ i inside.
            done.arrived i
            ∙ ap (λ (b : Bool). b || is_received (new_assembly m) i)
                (cover i (omega (arith, ap (λ (k : Manifest). k.chunk_count) same)))),
    )
