-- ===== src/Protocol/Resource/ListRoundTrip.antt =====
-- The resource lists of protocol/src/resource.cpp, encoded and decoded again.
use remote_bsp.Prelude.{
  ℕ, ◌+◌, ◌*◌, ◌^◌, ◌<◌, ◌≡◌, refl, sym, ap, ◌∙◌, List, [], ◌∷◌, ◌++◌, append-nil, append_assoc,
  length, length-append, drop-append, All, ok, arith,
}
use remote_bsp.Bytes.{Bytes, u16}
use remote_bsp.Bytes.Laws.{le16, read_u16-le16}
use remote_bsp.Protocol.Resource.Types.{ResourceDescriptor, descriptor_size}
use remote_bsp.Protocol.Resource.Lists.{
  append_descriptors, encode_resource_list, read_descriptors, decode_resource_list,
}
use remote_bsp.Protocol.Resource.RoundTrip.{
  ResourceDescriptorFits, descriptor_bytes, encode_resource_descriptor_lem,
  decode_resource_descriptor_at,
}

abbrev list_bytes : List ResourceDescriptor → Bytes
list_bytes [] = []
list_bytes (d ∷ ds) = descriptor_bytes d ++ list_bytes ds

append_descriptors_lem :
    (output : Bytes) (ds : List ResourceDescriptor)
    → All ResourceDescriptorFits ds
    → append_descriptors output ds ≡ ok (output ++ list_bytes ds)
unfolding append_descriptors
append_descriptors_lem output [] f = ap ok (sym (append-nil output))
append_descriptors_lem output (d ∷ ds) f = rw (encode_resource_descriptor_lem d f.0) (
    append_descriptors_lem (output ++ descriptor_bytes d) ds f.1
    ∙ ap ok (append_assoc output (descriptor_bytes d) (list_bytes ds)))

length-list_bytes : (ds : List ResourceDescriptor) → length (list_bytes ds) ≡ length ds * 17
length-list_bytes [] = refl
length-list_bytes (d ∷ ds) = omega (arith, length-list_bytes ds)

-- The loop of the decoder over what stands behind a front of the right length.
read_descriptors_lem :
    (ds : List ResourceDescriptor) (index : ℕ) (pre : Bytes) (done : List ResourceDescriptor)
    → All ResourceDescriptorFits ds
    → length pre ≡ 2 + index * 17
    → read_descriptors (length ds) index (pre ++ list_bytes ds) done ≡ ok (done ++ ds)
unfolding read_descriptors
read_descriptors_lem [] index pre done f l = ap ok (sym (append-nil done))
read_descriptors_lem (d ∷ ds) index pre done f l =
    rw
      (
        drop-append (2 + index * 17) pre (descriptor_bytes d ++ list_bytes ds) l,
        decode_resource_descriptor_at d f.0,
        ← append_assoc pre (descriptor_bytes d) (list_bytes ds),
      )
      (read_descriptors_lem ds (index + 1) (pre ++ descriptor_bytes d) (done ++ (d ∷ [])) f.1
          (omega (arith, length-append pre (descriptor_bytes d)))
        ∙ ap ok (append_assoc done (d ∷ []) ds))

-- A list of fewer than 65536 descriptors with types from 1 to 9 and numbers within their widths is
-- encoded in two bytes and 17 for each, and decoded to itself.
pub decode-encode_resource_list :
    (ds : List ResourceDescriptor)
    → All ResourceDescriptorFits ds
    → length ds < 2 ^ 16
    → (bytes : Bytes) × (encode_resource_list ds ≡ ok bytes)
      × (length bytes ≡ 2 + length ds * descriptor_size)
      × (decode_resource_list bytes ≡ ok ds)
unfolding encode_resource_list decode_resource_list
decode-encode_resource_list ds f h = (
  le16 (length ds) ++ list_bytes ds,
  ground (arith, append_descriptors_lem (le16 (u16 (length ds))) ds f),
  omega (arith, length-list_bytes ds),
  ground (
    arith,
    length-list_bytes ds,
    read_u16-le16 (length ds) (list_bytes ds),
    read_descriptors_lem ds 0 (le16 (length ds)) [] f refl,
  ),
)
