-- ===== src/Credential/Attribute/Marker.antt =====
-- The empty marker of src/credential/attribute.rs, against other attributes.
use dac_from_legacy_credenti.Prelude.{
  ℕ, ◌≡◌, true, list_eq_refl, length-set, length-replicate, replicate,
}
use dac_from_legacy_credenti.Credential.Attribute.{
  empty_attribute_bytes, empty_marker, is_empty, len_bytes,
}

pub len_bytes-empty_marker : (n : ℕ) → len_bytes (empty_marker n) ≡ n
unfolding empty_marker len_bytes
len_bytes-empty_marker n = rw (length-set {A = ℕ} (replicate n 0) 0 1, length-replicate {A = ℕ} n 0)

-- The marker of any length is recognised as empty.
pub is_empty-empty_marker : (n : ℕ) → is_empty (empty_marker n) ≡ true
unfolding is_empty len_bytes empty_marker
is_empty-empty_marker n =
    rw (length-set {A = ℕ} (replicate n 0) 0 1, length-replicate {A = ℕ} n 0)
      (list_eq_refl (empty_attribute_bytes n))
