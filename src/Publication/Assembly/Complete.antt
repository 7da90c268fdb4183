-- ===== src/Publication/Assembly/Complete.antt =====
-- `Missing`, `Complete` and `Content`.
use ghost_cache.Common.{
  ℕ, zero, suc, ◌+◌, ◌-◌, ◌*◌, ◌^◌, ◌≤◌, ◌<◌, ◌≡◌, ◌↔◌, refl, ap, subst, ◌∙◌, Bool, true, false,
  not, ◌&&◌, List, [], ◌∷◌, arith, ltb, ◌==◌, ==_iff, if◌then◌else◌, length, length-append, get_or,
  elem, eq-nil_of_length, bytes_eq→eq, ok,
}
use ghost_cache.Publication.Manifest.{expected_chunks}
use ghost_cache.Publication.Assembly.{
  Assembly, has_expected_length, missing_from, missing, is_complete, join, content,
}
use ghost_cache.Publication.Assembly.Invariant.{IsAssembly, is_received}

elem-missing_from_below :
    (i j : ℕ) (rs : List Bool) → i + length rs ≤ 2 ^ 16 → j < i → elem j (missing_from i rs) ≡ false
unfolding missing_from elem
elem-missing_from_below i j [] h lt = refl
elem-missing_from_below i j (r ∷ rs) h lt =
    ground (arith, elem-missing_from_below (i + 1) j rs (omega arith) (omega arith))

elem-missing_from :
    (i d : ℕ) (rs : List Bool)
    → i + length rs ≤ 2 ^ 16
    → elem (i + d) (missing_from i rs) ≡ (ltb d (length rs) && not (get_or rs d false))
unfolding missing_from elem
elem-missing_from i d [] h = ground arith
elem-missing_from i zero (r ∷ rs) h =
    let e : i + zero ≡ i = omega arith in
    rw e (ground (arith, elem-missing_from_below (i + 1) i rs (omega arith) (omega arith)))
elem-missing_from i (suc d) (r ∷ rs) h =
    let e : i + suc d ≡ i + 1 + d = omega arith in
    let later = elem-missing_from (i + 1) d rs (omega arith) in rw e (ground (arith, later))

-- `Missing` lists exactly the chunks that have not arrived.
pub elem-missing :
    (a : Assembly) (i : ℕ)
    → length a.received ≤ 2 ^ 16
    → elem i (missing a) ≡ (ltb i (length a.received) && not (is_received a i))
unfolding missing
elem-missing a i h =
    let e : zero + i ≡ i = omega arith in
    subst
      (λ (k : ℕ).
        elem k (missing_from 0 a.received) ≡ (ltb i (length a.received) && not (is_received a i)))
      e (elem-missing_from 0 i a.received (omega arith))

missing_from-nil :
    (i : ℕ) (rs : List Bool)
    → ((d : ℕ) → d < length rs → get_or rs d false ≡ true)
    → missing_from i rs ≡ []
unfolding missing_from
missing_from-nil i [] h = refl
missing_from-nil i (r ∷ rs) h =
    let first = h 0 (omega arith) in
    let rest = missing_from-nil (i + 1) rs (λ d lt. h (suc d) (omega arith)) in ground arith

-- `Complete` holds exactly when every chunk has arrived.
pub is_complete_iff :
    (a : Assembly)
    → length a.received ≤ 2 ^ 16
    → (is_complete a ≡ true) ↔ ((i : ℕ) → i < length a.received → is_received a i ≡ true)
unfolding is_complete
is_complete_iff a h =
    (arrived, λ all. unfold missing in ground (arith, missing_from-nil 0 a.received all))
  where
    arrived :
        (length (missing a) == 0) ≡ true → (i : ℕ) → i < length a.received → is_received a i ≡ true
    arrived e i lt =
        let none_left : missing a ≡ [] = eq-nil_of_length (missing a) ((==_iff _ 0).0 e) in
        let here = elem-missing a i h in unfold elem in ground (arith, here, ap (elem i) none_left)

-- The length that chunk i of n must have.
abbrev Expected : ℕ → ℕ → ℕ → ℕ → List ℕ → Type 0
Expected n chunk_size size i chunk =
    (if i == n - 1 then length chunk + i * chunk_size == size else length chunk == chunk_size)
    ≡ true

Expected-last :
    (n chunk_size size i : ℕ) (chunk : List ℕ)
    → Expected n chunk_size size i chunk
    → i + 1 ≡ n
    → length chunk + i * chunk_size ≡ size
Expected-last n chunk_size size i chunk h e = ground arith

Expected-inner :
    (n chunk_size size i : ℕ) (chunk : List ℕ)
    → Expected n chunk_size size i chunk
    → i + 1 < n
    → length chunk ≡ chunk_size
Expected-inner n chunk_size size i chunk h e = ground arith

length-join :
    (n chunk_size size i : ℕ) (x : List ℕ) (xs : List (List ℕ))
    → n ≡ i + length (x ∷ xs)
    → ((k : ℕ) → k < length (x ∷ xs) → Expected n chunk_size size (i + k) (get_or (x ∷ xs) k []))
    → length (join (x ∷ xs)) + i * chunk_size ≡ size
unfolding join
length-join n chunk_size size i x [] e h =
    let last = Expected-last n chunk_size size (i + 0) x (h 0 (omega arith)) (omega arith) in
    omega (arith, length-append x [], last)
length-join n chunk_size size i x (y ∷ ys) e h =
    let inner = Expected-inner n chunk_size size (i + 0) x (h 0 (omega arith)) (omega arith) in
    let later = length-join n chunk_size size (i + 1) y ys (omega arith) (λ k lt.
      let shift : i + 1 + k ≡ i + suc k = omega arith in rw shift (h (suc k) (omega arith))) in
    omega (arith, length-append x (join (y ∷ ys)), inner, later)

length_content :
    (a : Assembly) (chunks : List (List ℕ))
    → a.chunks ≡ chunks
    → IsAssembly a
    → a.manifest.chunk_count ≡ expected_chunks a.manifest.length a.manifest.chunk_size
    → ((i : ℕ) → i < length a.received → is_received a i ≡ true)
    → length (join chunks) ≡ a.manifest.length
length_content a [] same v cover all =
    unfold expected_chunks join in ground (arith, v.places, cover, ap length same)
length_content a (x ∷ xs) same v cover all =
    let count = ap length same in
    omega (
      arith,
      length-join (length a.chunks) a.manifest.chunk_size a.manifest.length 0 x xs (omega arith)
          (λ k lt.
            unfold has_expected_length in
            let shift : 0 + k ≡ k = omega arith in
            let sized = v.sized k (all k (omega (arith, v.places, v.flags))) in
            rw (shift, ← same) sized),
    )

content-cases :
    (sha256 : List ℕ → List ℕ) (a : Assembly) (whole : List ℕ)
    → content sha256 a ≡ ok whole
    → (is_complete a ≡ true)
      × (sha256 (join a.chunks) ≡ a.manifest.sha256)
      × (whole ≡ join a.chunks)
unfolding content
content-cases sha256 a whole e =
    ground (arith, bytes_eq→eq (sha256 (join a.chunks)) a.manifest.sha256)

-- Content that is handed out has arrived completely, has the length and the hash that the
-- manifest promises, and is the chunks one behind the other.
pub content_sound :
    (sha256 : List ℕ → List ℕ) (a : Assembly) (whole : List ℕ)
    → IsAssembly a
    → a.manifest.chunk_count ≡ expected_chunks a.manifest.length a.manifest.chunk_size
    → a.manifest.chunk_count ≤ 2 ^ 16
    → content sha256 a ≡ ok whole
    → (whole ≡ join a.chunks)
      × (length whole ≡ a.manifest.length)
      × (sha256 whole ≡ a.manifest.sha256)
      × ((i : ℕ) → i < a.manifest.chunk_count → is_received a i ≡ true)
content_sound sha256 a whole v cover small e =
    let (complete, hash, same) = content-cases sha256 a whole e in
    let all = (is_complete_iff a (omega (arith, v.flags))).0 complete in
    (
      same,
      ap length same ∙ length_content a a.chunks refl v cover all,
      ap sha256 same ∙ hash,
      λ i lt. all i (omega (arith, v.flags)),
    )
