-- ===== src/ReleaseBundle/Proposal/Tests.antt =====
-- The script of a small proposal.
use aip_aptos_agent_framewor.Prelude.{List, [], ◌∷◌, ◌++◌, true, none, some, ◌≡◌, refl, arith, All}
use aip_aptos_agent_framewor.Text.{Bytes, codes}
use aip_aptos_agent_framewor.ReleaseBundle.{ReleasePackage}
use aip_aptos_agent_framewor.ReleaseBundle.Proposal.{
  emit, Script, generate_blob_as_hex_string, MetadataView, generate_script_proposal_impl,
}
use aip_aptos_agent_framewor.ReleaseBundle.Proposal.Blobs.{
  read_blobs, hash_blob, flat, IsShort, AreBytes, HashIsBytes,
  generate_script_proposal_impl-read_blobs,
}

abbrev view : MetadataView Bytes
view = record { name = λ m. codes "p"; source_digest = λ m. codes "d"; to_bytes = some }

abbrev pack : ReleasePackage Bytes
pack = record { metadata = 7 ∷ 8 ∷ []; code = (160 ∷ 15 ∷ []) ∷ [] }

blob_example :
    generate_blob_as_hex_string (160 ∷ 15 ∷ []) []
    ≡ emit (codes "x\"") ∷ emit (codes "a0") ∷ emit (codes "0f") ∷ emit (codes "\"") ∷ []
unfolding generate_blob_as_hex_string
blob_example = refl

proposal_example :
    (made : Script) × ((chunks : List Bytes) × ((generate_script_proposal_impl view pack
            (codes "0x1")
            true
            true
            (some (1 ∷ []))
          ≡ some made)
        × (read_blobs none made ≡ hash_blob true (some (1 ∷ [])) ++ (pack.code ++ chunks))
        × (flat chunks ≡ 7 ∷ 8 ∷ [])
        × All IsShort chunks))
unfolding AreBytes HashIsBytes
proposal_example =
    generate_script_proposal_impl-read_blobs view pack (codes "0x1") true true (some (1 ∷ []))
      (7 ∷ 8 ∷ []) refl (omega arith, (omega arith, tt)) ((omega arith, (omega arith, tt)), tt)
      (omega arith, tt)
