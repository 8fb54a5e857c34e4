-- ===== src/Protocol/Resource/Lists.antt =====
-- `encode_resource_list` and `decode_resource_list` of protocol/src/resource.cpp.
use remote_bsp.Prelude.{
  ℕ, zero, suc, ◌+◌, ◌*◌, ltb, ◌==◌, not, List, [], ◌∷◌, ◌++◌, length, take, drop, Result, ok,
  throw_if, ◌>>◌, ◌>>=◌,
}
use remote_bsp.Bytes.{Bytes, u16, append_u16, read_u16}
use remote_bsp.Protocol.Resource.Types.{
  ResourceDescriptor, ResourcePayloadError, invalid_length, too_many_resources, descriptor_size,
  encode_resource_descriptor, decode_resource_descriptor,
}

-- The loop over the resources, with what was written before it.
unfoldable pub append_descriptors :
    Bytes → List ResourceDescriptor → Result ResourcePayloadError Bytes
append_descriptors output [] = ok output
append_descriptors output (d ∷ ds) =
    encode_resource_descriptor d >>= λ encoded. append_descriptors (output ++ encoded) ds

unfoldable pub encode_resource_list : List ResourceDescriptor → Result ResourcePayloadError Bytes
unfolding append_u16
encode_resource_list resources = do
  throw_if (ltb 0xFFFF (length resources)) too_many_resources
  append_descriptors (append_u16 [] (u16 (length resources))) resources

-- The loop over the indices, `n` of them from `index` on, with the resources read so far.
unfoldable pub read_descriptors :
    ℕ → ℕ → Bytes → List ResourceDescriptor → Result ResourcePayloadError (List ResourceDescriptor)
read_descriptors zero index payload resources = ok resources
read_descriptors (suc n) index payload resources =
    decode_resource_descriptor (take descriptor_size (drop (2 + index * descriptor_size) payload))
    >>= λ d. read_descriptors n (index + 1) payload (resources ++ (d ∷ []))

unfoldable pub decode_resource_list : Bytes → Result ResourcePayloadError (List ResourceDescriptor)
unfolding read_descriptors
decode_resource_list payload = do
  throw_if (ltb (length payload) 2) invalid_length
  let count = read_u16 payload
  throw_if (not (length payload == 2 + count * descriptor_size)) invalid_length
  read_descriptors count 0 payload []
