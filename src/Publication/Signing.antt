-- ===== src/Publication/Signing.antt =====
-- `CanonicalManifest`, `SignManifest` and `VerifyManifestSignature` of
-- internal/publication/signing.go. Ed25519 is a parameter: what `ed25519.Sign` and `ed25519.Verify`
-- return.
pub mod Canonical
use ghost_cache.Common.{
  ℕ, ◌%◌, ◌^◌, ◌<◌, ◌≤◌, ◌≡◌, Bool, true, false, not, List, [], ◌∷◌, ◌++◌, Option, none, some, ltb,
  ◌==◌, length, put_le, IsBytes, Result, ok, err, malformed, refused, ◌>>=◌, ◌>>◌, fail_if,
}
use ghost_cache.Publication.Packet.{max_filename_bytes}
use ghost_cache.Publication.Manifest.{Manifest, Signature}

abbrev pub signed_manifest_version : ℕ
signed_manifest_version = 2

-- The bytes of "GHOSTCACHE-MANIFEST\x00".
abbrev pub domain : List ℕ
domain =
    b'G' ∷ b'H' ∷ b'O' ∷ b'S' ∷ b'T' ∷ b'C' ∷ b'A' ∷ b'C' ∷ b'H' ∷ b'E' ∷ b'-' ∷ b'M' ∷ b'A' ∷ b'N'
    ∷ b'I' ∷ b'F' ∷ b'E' ∷ b'S' ∷ b'T' ∷ 0 ∷ []

unfoldable pub canonical_bytes : Manifest → List ℕ
canonical_bytes m =
    domain
    ++ (put_le 2 m.version
        ++ (m.id
            ++ (m.sha256
                ++ (put_le 8 m.length
                    ++ (put_le 2 m.chunk_size
                        ++ (put_le 2 m.chunk_count
                            ++ (put_le 2 (length m.filename % 2 ^ 16) ++ m.filename)))))))

unfoldable pub canonical_manifest : Manifest → Result (List ℕ)
canonical_manifest m = do
  fail_if (ltb max_filename_bytes (length m.filename)) malformed
  fail_if (not (m.version == signed_manifest_version)) refused
  ok (canonical_bytes m)

-- The key pair of a publisher.
pub record Identity : Type 0 where
  pub name : List ℕ
  pub public_key : List ℕ
  pub private_key : List ℕ

unfoldable pub sign_manifest : (List ℕ → List ℕ → List ℕ) → Manifest → Identity → Result Manifest
sign_manifest sign m identity = do
  let versioned = record m { version = signed_manifest_version }
  canonical ← canonical_manifest versioned
  fail_if (not (length identity.private_key == 64)) refused
  ok (record versioned {
    signature =
        some (record {
          public_key = identity.public_key;
          value = sign identity.private_key canonical;
        });
  })

-- An unsigned manifest passes.
unfoldable pub verify_signature :
    (List ℕ → List ℕ → List ℕ → Bool) → Manifest → Option Signature → Result (Unit {0})
verify_signature verify m none = ok tt
verify_signature verify m (some s) = do
  canonical ← canonical_manifest m
  fail_if (not (verify s.public_key canonical s.value)) refused
  ok tt

unfoldable pub verify_manifest_signature :
    (List ℕ → List ℕ → List ℕ → Bool) → Manifest → Result (Unit {0})
verify_manifest_signature verify m = verify_signature verify m m.signature
