-- ===== src/Ipam/AttachmentData.antt =====
-- The map `atts` of the IPAM controller, which holds what it anticipates of each attachment:
-- getNetworkAttachmentData and clearNetworkAttachmentData of
-- staging/kos/pkg/controllers/ipam/ipam.go, each one step under their mutex.
pub mod Lookup
use kube_examples.Common.{Bool, true, false, not, ◌&&◌, Option, none, some, [], if◌then◌else◌}
use kube_examples.GoText.{Text, text_eq}
use kube_examples.Ipam.Analysis.{NetworkAttachmentData, is_some}

-- The Go map, by namespace and name.
abbrev pub Atts : Type 0
Atts = Text → Text → Option NetworkAttachmentData

unfoldable pub put_data : Atts → Text → Text → Option NetworkAttachmentData → Atts
put_data atts ns name nadat =
    λ ns2 name2. if text_eq ns2 ns && text_eq name2 name then nadat else atts ns2 name2

-- `&NetworkAttachmentData{}`.
unfoldable pub zero_data : NetworkAttachmentData
zero_data = record {
  anticipating_resource_version = [];
  anticipated_resource_version = [];
  anticipation_subnet_rv = [];
  anticipated_ipv4 = none;
}

-- `getNetworkAttachmentData`, where the map has no entry.
unfoldable pub add_data : Atts → Text → Text → Bool → Option NetworkAttachmentData × Atts
add_data atts ns name add_if_missing =
    if not add_if_missing
    then (none, atts)
    else (some zero_data, put_data atts ns name (some zero_data))

-- `getNetworkAttachmentData`.
unfoldable pub get_network_attachment_data :
    Atts → Text → Text → Bool → Option NetworkAttachmentData × Atts
get_network_attachment_data atts ns name add_if_missing = elim (atts ns name) [
  | none ↦ add_data atts ns name add_if_missing
  | some nadat ↦ (some nadat, atts)
]

-- `clearNetworkAttachmentData`.
unfoldable pub clear_network_attachment_data : Atts → Text → Text → Atts
clear_network_attachment_data atts ns name =
    let had = is_some (atts ns name) in if had then put_data atts ns name none else atts
