-- ===== src/Publication/Manifest/Sound.antt =====
-- What an accepted manifest packet is.
use ghost_cache.Common.{
  ℕ, ◌-◌, ◌%◌, ◌≤◌, ◌≡◌, refl, sym, ap, subst, ◌∙◌, List, ◌∷◌, ◌++◌, none, arith, length,
  length-take, length-drop, get_or, drop, take, slice, slice-append-drop, drop-get_or, put_le,
  get_le, put_le_field, All-drop, All-slice, IsByte, IsBytes, ok,
}
use ghost_cache.Publication.Packet.{Packet, IsPacket, type_manifest}
use ghost_cache.Publication.Manifest.{
  Manifest, manifest_body, manifest_of, check_manifest, decode_manifest, IsManifest,
}
use ghost_cache.Publication.Manifest.Codec.{FieldsPass, id_matches_hash→eq, manifest_packet}

-- What the guards have let through.
record Accepted (p : Packet) (m : Manifest) : Type 0 where
  kind : p.type ≡ type_manifest
  long : 45 ≤ length p.body
  name : get_or p.body 44 0 ≡ length p.body - 45
  fields : m ≡ manifest_of p
  pass : FieldsPass m

check_manifest-FieldsPass : (m m' : Manifest) → check_manifest m ≡ ok m' → (m' ≡ m) × FieldsPass m
unfolding check_manifest
check_manifest-FieldsPass m m' e = ground arith

decode_manifest-Accepted : (p : Packet) (m : Manifest) → decode_manifest p ≡ ok m → Accepted p m
decode_manifest-Accepted p m e =
    let (kind, long, name, checked) = guards p m e in
    let (same, pass) = check_manifest-FieldsPass (manifest_of p) m checked in
    record {
      kind = kind;
      long = long;
      name = name;
      fields = same;
      pass = subst FieldsPass (sym same) pass;
    }
  where
    guards :
        (p : Packet) (m : Manifest)
        → decode_manifest p ≡ ok m
        → (p.type ≡ type_manifest)
          × (45 ≤ length p.body)
          × (get_or p.body 44 0 ≡ length p.body - 45)
          × (check_manifest (manifest_of p) ≡ ok m)
    guards p m e = unfold decode_manifest in ground arith

-- The body, cut at the places where the fields stand.
body_of_fields :
    (b : List ℕ)
    → IsBytes b
    → 45 ≤ length b
    → b
      ≡ put_le 8 (get_le (slice 0 8 b))
        ++ (slice 8 40 b
            ++ (put_le 2 (get_le (slice 40 42 b))
                ++ (put_le 2 (get_le (slice 42 44 b)) ++ get_or b 44 0 ∷ drop 45 b)))
body_of_fields b bytes long =
    sym (put_le_field 0 8 b bytes (omega arith) (omega arith))
    ∙ ap (◌++◌ (put_le 8 (get_le (slice 0 8 b)))) (
        sym (slice-append-drop 8 40 b (omega arith))
        ∙ ap (◌++◌ (slice 8 40 b)) (
            sym (put_le_field 40 42 b bytes (omega arith) (omega arith))
            ∙ ap (◌++◌ (put_le 2 (get_le (slice 40 42 b)))) (
                sym (put_le_field 42 44 b bytes (omega arith) (omega arith))
                ∙ ap (◌++◌ (put_le 2 (get_le (slice 42 44 b))))
                    (drop-get_or 44 b 0 (omega arith)))))

fields-IsManifest :
    (p : Packet)
    → IsPacket p
    → 45 ≤ length p.body
    → FieldsPass (manifest_of p)
    → IsManifest (manifest_of p)
fields-IsManifest p v long pass =
    let hash : length (slice 8 40 p.body) ≡ 32 =
      omega (arith, length-take 32 (drop 8 p.body), length-drop 8 p.body) in
    record {
      filename_bytes = All-drop IsByte 45 p.body v.body_bytes;
      filename_fits = omega (arith, length-drop 45 p.body, v.fits);
      hash_bytes = All-slice IsByte 8 40 p.body v.body_bytes;
      hash_length = hash;
      id_of_hash =
          id_matches_hash→eq p.id (slice 8 40 p.body) (omega (arith, v.id_valid.sixteen)) pass.4
          ∙ ap (λ (n : ℕ). take n (slice 8 40 p.body)) v.id_valid.sixteen;
      chunk_size_pos = pass.0;
      chunk_size_fits = pass.1;
      chunk_count_fits = pass.2;
      chunks_cover = pass.5;
    }

-- The length byte of an accepted packet is the length of its file name.
manifest_body-fields :
    (p : Packet)
    → IsPacket p
    → 45 ≤ length p.body
    → get_or p.body 44 0 ≡ length p.body - 45
    → p.body ≡ manifest_body (manifest_of p)
unfolding manifest_body
manifest_body-fields p v long name =
    let count : get_or p.body 44 0 ≡ length (drop 45 p.body) % 256 =
      omega (arith, length-drop 45 p.body, v.fits) in
    body_of_fields p.body v.body_bytes long
    ∙ ap
        (λ (n : ℕ).
          put_le 8 (get_le (slice 0 8 p.body))
          ++ (slice 8 40 p.body
              ++ (put_le 2 (get_le (slice 40 42 p.body))
                  ++ (put_le 2 (get_le (slice 42 44 p.body)) ++ n ∷ drop 45 p.body))))
        count

-- An accepted manifest packet is the packet of a valid manifest: chunk size and count are within
-- their limits and cover the length, the ID is the start of the hash, and the body is its encoding.
pub decode_manifest_sound :
    (p : Packet) (m : Manifest)
    → IsPacket p
    → decode_manifest p ≡ ok m
    → IsManifest m × (p ≡ manifest_packet m) × (m.version ≡ 1) × (m.signature ≡ none)
decode_manifest_sound p m v e =
    let a = decode_manifest-Accepted p m e in
    let pass = subst FieldsPass a.fields a.pass in
    rw a.fields (
      fields-IsManifest p v a.long pass,
      ground (arith, a.kind, manifest_body-fields p v a.long a.name),
      refl,
      refl,
    )
