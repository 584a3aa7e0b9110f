-- ===== src/Ipam/AttachmentData/Lookup.antt =====
-- What the map of attachments holds after its operations.
use kube_examples.Common.{
  ◌≡◌, refl, Bool, true, false, ◌&&◌, ◌||◌, Option, none, some, Option-cases, inl, inr,
}
use kube_examples.GoText.{Text, text_eq}
use kube_examples.GoText.Equality.{text_eq_same}
use kube_examples.Ipam.Analysis.{NetworkAttachmentData, is_some}
use kube_examples.Ipam.AttachmentData.{
  Atts, put_data, zero_data, add_data, get_network_attachment_data, clear_network_attachment_data,
}

-- Two maps differ at most in one entry.
abbrev pub SameBut : Text → Text → Atts → Atts → Type 0
SameBut ns name atts atts2 =
    (ns2 name2 : Text)
    → (text_eq ns2 ns && text_eq name2 name) ≡ false
    → atts2 ns2 name2 ≡ atts ns2 name2

pub put_data-lookup :
    (atts : Atts) (ns name : Text) (o : Option NetworkAttachmentData)
    → put_data atts ns name o ns name ≡ o
unfolding put_data
put_data-lookup atts ns name o =
    let a = (text_eq_same ns ns).1 refl in let b = (text_eq_same name name).1 refl in rw (a, b) refl

put_data-SameBut :
    (atts : Atts) (ns name : Text) (o : Option NetworkAttachmentData)
    → SameBut ns name atts (put_data atts ns name o)
unfolding put_data
put_data-SameBut atts ns name o ns2 name2 e = rw e refl

-- `getNetworkAttachmentData` returns what the map holds afterwards; that is an entry if there was
-- one or one may be added; the other entries stay.
pub get_network_attachment_data-lookup :
    (atts : Atts) (ns name : Text) (add_if_missing : Bool)
    → let r = get_network_attachment_data atts ns name add_if_missing in
      (r.1 ns name ≡ r.0)
      × (is_some r.0 ≡ (is_some (atts ns name) || add_if_missing))
      × SameBut ns name atts r.1
unfolding get_network_attachment_data add_data
get_network_attachment_data-lookup atts ns name add_if_missing =
    elim (Option-cases (atts ns name)) [
      | inl e ↦ rw (get_network_attachment_data, e) (missing atts ns name add_if_missing e)
      | inr (nadat, e) ↦ rw (get_network_attachment_data, e) (e, refl, λ ns2 name2 d. refl)
    ]
  where
    missing :
        (atts : Atts) (ns name : Text) (add_if_missing : Bool)
        → atts ns name ≡ none
        → let r = add_data atts ns name add_if_missing in
          (r.1 ns name ≡ r.0) × (is_some r.0 ≡ add_if_missing) × SameBut ns name atts r.1
    missing atts ns name true e = (
      put_data-lookup atts ns name (some zero_data),
      refl,
      put_data-SameBut atts ns name (some zero_data),
    )
    missing atts ns name false e = (e, refl, λ ns2 name2 d. refl)

-- After `clearNetworkAttachmentData` the map has no such entry, and the other entries stay.
pub clear_network_attachment_data-lookup :
    (atts : Atts) (ns name : Text)
    → (clear_network_attachment_data atts ns name ns name ≡ none)
      × SameBut ns name atts (clear_network_attachment_data atts ns name)
unfolding clear_network_attachment_data
clear_network_attachment_data-lookup atts ns name = elim (Option-cases (atts ns name)) [
  | inl e ↦ rw (clear_network_attachment_data, e) (e, λ ns2 name2 d. refl)
  | inr (nadat, e) ↦
      rw (clear_network_attachment_data, e)
        (put_data-lookup atts ns name none, put_data-SameBut atts ns name none)
]
