-- ===== src/Publication/Signing/Canonical.antt =====
-- What a signature covers.
use ghost_cache.Common.{
  ℕ, ◌%◌, ◌^◌, ◌<◌, ◌≡◌, refl, sym, ap, ◌∙◌, Bool, true, not, List, ◌++◌, some, ◌==◌, length,
  length-put_le, take, take-append, drop, drop-append, span, put_le, get_le, get_le-put_le, ok,
  refused, fail_if, >>=-eq-ok,
}
use ghost_cache.Publication.Manifest.{Manifest, Signature}
use ghost_cache.Publication.Signing.{
  signed_manifest_version, domain, canonical_bytes, canonical_manifest, Identity, sign_manifest,
  verify_signature, verify_manifest_signature,
}

-- The widths of the fields in Go.
pub record HasWidths (m : Manifest) : Type 0 where
  pub version_word : m.version < 2 ^ 16
  pub id_length : length m.id ≡ 16
  pub hash_length : length m.sha256 ≡ 32
  pub length_word : m.length < 2 ^ 64
  pub chunk_size_word : m.chunk_size < 2 ^ 16
  pub chunk_count_word : m.chunk_count < 2 ^ 16

-- A field of a known width can be cut off.
cut_field :
    (n : ℕ) (xs xs' ys ys' : List ℕ)
    → length xs ≡ n
    → length xs' ≡ n
    → xs ++ ys ≡ xs' ++ ys'
    → (xs ≡ xs') × (ys ≡ ys')
cut_field n xs xs' ys ys' h h' e = (
  sym (take-append n xs ys h) ∙ ap (λ (zs : List ℕ). take n zs) e ∙ take-append n xs' ys' h',
  sym (drop-append n xs ys h) ∙ ap (λ (zs : List ℕ). drop n zs) e ∙ drop-append n xs' ys' h',
)

cut_word :
    (n v v' : ℕ) (ys ys' : List ℕ)
    → v < span n
    → v' < span n
    → put_le n v ++ ys ≡ put_le n v' ++ ys'
    → (v ≡ v') × (ys ≡ ys')
cut_word n v v' ys ys' h h' e =
    let (word, rest) =
      cut_field n (put_le n v) (put_le n v') ys ys' (length-put_le n v) (length-put_le n v') e in
    (sym (get_le-put_le n v h) ∙ ap get_le word ∙ get_le-put_le n v' h', rest)

-- Two manifests with the same signed bytes are the same manifest, but for their signatures: a
-- signature cannot be moved to a manifest that differs in any other field.
pub canonical_bytes_injective :
    (m m' : Manifest)
    → HasWidths m
    → HasWidths m'
    → canonical_bytes m ≡ canonical_bytes m'
    → m ≡ record m' { signature = m.signature }
unfolding canonical_bytes
canonical_bytes_injective m m' v v' e =
    let (d, e1) = cut_field 20 domain domain _ _ refl refl e in
    let (version, e2) = cut_word 2 m.version m'.version _ _ v.version_word v'.version_word e1 in
    let (id, e3) = cut_field 16 m.id m'.id _ _ v.id_length v'.id_length e2 in
    let (hash, e4) = cut_field 32 m.sha256 m'.sha256 _ _ v.hash_length v'.hash_length e3 in
    let (size, e5) = cut_word 8 m.length m'.length _ _ v.length_word v'.length_word e4 in
    let (chunk_size, e6) =
      cut_word 2 m.chunk_size m'.chunk_size _ _ v.chunk_size_word v'.chunk_size_word e5 in
    let (count, e7) =
      cut_word 2 m.chunk_count m'.chunk_count _ _ v.chunk_count_word v'.chunk_count_word e6 in
    let (width, name) =
      cut_field 2 (put_le 2 (length m.filename % 2 ^ 16)) (put_le 2 (length m'.filename % 2 ^ 16))
        m.filename m'.filename refl refl e7 in
    cc

-- The signature is no part of what is signed.
verify-with_signature :
    (verify : List ℕ → List ℕ → List ℕ → Bool) (m : Manifest) (canonical : List ℕ) (s : Signature)
    → canonical_manifest m ≡ ok canonical
    → verify s.public_key canonical s.value ≡ true
    → verify_manifest_signature verify (record m { signature = some s }) ≡ ok tt
unfolding verify_manifest_signature verify_signature canonical_manifest canonical_bytes
verify-with_signature verify m canonical s covers h =
    let same : canonical_manifest (record m { signature = some s }) ≡ canonical_manifest m = refl in
    rw (same ∙ covers) (rw h refl)

-- A manifest that was signed passes the check of its signature, when what Ed25519 signs with a key
-- it verifies with the public half.
pub verify-sign_manifest :
    (sign : List ℕ → List ℕ → List ℕ) (verify : List ℕ → List ℕ → List ℕ → Bool)
    (m signed : Manifest) (identity : Identity)
    → ((message : List ℕ)
        → verify identity.public_key message (sign identity.private_key message) ≡ true)
    → sign_manifest sign m identity ≡ ok signed
    → (verify_manifest_signature verify signed ≡ ok tt) × (signed.version ≡ signed_manifest_version)
unfolding sign_manifest verify_manifest_signature verify_signature canonical_manifest
verify-sign_manifest sign verify m signed identity h e =
    let versioned = record m { version = signed_manifest_version } in
    let (canonical, covers, rest) = >>=-eq-ok (canonical_manifest versioned) _ e in
    let (u, long, last) =
      >>=-eq-ok (fail_if (not (length identity.private_key == 64)) refused) _ rest in
    let out : signed ≡ record versioned {
      signature = some (record {
        public_key = identity.public_key;
        value = sign identity.private_key canonical;
      });
    } =
      cc in
    rw out (verify-with_signature verify versioned canonical _ covers (h canonical), refl)
