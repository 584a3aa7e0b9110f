-- ===== src/Ipam/Processing/Waiting.antt =====
-- While the update of a status is in flight, no second address is picked.
use kube_examples.Common.{
  ℕ, ◌≡◌, refl, sym, ap, ◌∙◌, arith, Bool, true, false, ◌&&◌, Option, none, some, [], Bool-cases,
  inl, inr, ok,
}
use kube_examples.GoNet.{IPv4, NetIp, NetBlock}
use kube_examples.GoText.{Text, text_eq}
use kube_examples.GoText.Equality.{text_eq_same}
use kube_examples.Uint32Set.Library.{SortedSetLibrary}
use kube_examples.Ipam.Locks.{zero_parsed_lock, add_list_func, add_list_from}
use kube_examples.Ipam.Analysis.{
  Attachment, NetworkAttachmentData, nothing_seen, consider_all, consider_status, choose_lock,
  choose_best, locks_to_release, release_all, refresh_anticipation,
}
use kube_examples.Ipam.AttachmentData.{Atts, put_data, get_network_attachment_data}
use kube_examples.Ipam.Placing.{
  found, placed, Analysis, find_place, seen_locks, decide, refresh, analyze_owned, analyze_at,
  analyze_and_release,
}
use kube_examples.Ipam.Processing.{
  World, IpamState, Processed, anticipate, write_data, choose_by_data, choose_address,
  process_present, process_analyzed, analysis_of, process_attachment, process_network_attachment,
}

-- An entry that is written as it was.
put_data-same :
    (atts : Atts) (ns name : Text) (o : Option NetworkAttachmentData) (ns2 name2 : Text)
    → atts ns name ≡ o
    → put_data atts ns name o ns2 name2 ≡ atts ns2 name2
unfolding put_data
put_data-same atts ns name o ns2 name2 h =
    elim (Bool-cases (text_eq ns2 ns && text_eq name2 name)) [
      | inl e ↦
          let one = (text_eq_same ns2 ns).0 (ground (arith, e)) in
          let two = (text_eq_same name2 name).0 (ground (arith, e)) in
          rw (put_data, e) (sym h ∙ ap (λ x. atts x name) (sym one) ∙ ap (atts ns2) (sym two))
      | inr e ↦ rw (put_data, e) refl
    ]

pub get-present :
    (atts : Atts) (ns name : Text) (d : NetworkAttachmentData) (add_if_missing : Bool)
    → atts ns name ≡ some d
    → get_network_attachment_data atts ns name add_if_missing ≡ (some d, atts)
unfolding get_network_attachment_data
get-present atts ns name d add_if_missing h = rw (get_network_attachment_data, h) refl

module _ (library : SortedSetLibrary) (ip_string : IPv4 → Text) (parse_ip : Text → Option NetIp)
    (parse_cidr : Text → Option NetBlock) where
  abbrev State : Type 0
  State = IpamState library ip_string parse_ip parse_cidr

  abbrev Result : Type 0
  Result = Processed library ip_string parse_ip parse_cidr

  -- Nothing was done.
  abbrev pub Quiet : State → Result → Type 0
  Quiet s p =
      (p.err ≡ false)
      × (p.written ≡ none)
      × (p.released ≡ [])
      × (p.state.addr_cache ≡ s.addr_cache)
      × ((ns name : Text) → p.state.atts ns name ≡ s.atts ns name)

  -- The analysis of an attachment without locks.
  abbrev pub lockless : Text → ℕ → ℕ → ℕ → NetworkAttachmentData → Analysis
  lockless rv vni base last d = record {
    subnet_rv = rv;
    desired_vni = vni;
    desired_base_u = base;
    desired_last_u = last;
    lock_in_status = zero_parsed_lock;
    lock_for_status = zero_parsed_lock;
    status_errs = [];
    err = false;
    proceeds = true;
    nadat = some d;
    released = [];
  }

  module _ (w : World) (fuel : ℕ) (ns name : Text) (no_locks : w.owned ≡ some []) (a : Attachment)
      (no_status : a.status_ipv4 ≡ []) where
    refresh-same :
        (new_rv rv : Text) (ip : Option IPv4)
        → refresh ip_string parse_ip w.owned w.get_lock w.delete
            (some a)
            rv
            (some (anticipate a.resource_version new_rv rv ip))
          ≡ some (anticipate a.resource_version new_rv rv ip)
    unfolding refresh refresh_anticipation anticipate
    refresh-same new_rv rv ip =
        let one = (text_eq_same a.resource_version a.resource_version).1 refl in
        let two = (text_eq_same rv rv).1 refl in rw (refresh_anticipation, one, two) refl

    pub nothing_to_see :
        (vni base last : ℕ)
        → seen_locks ip_string parse_ip w.owned w.get_lock w.delete (some a) vni base last []
          ≡ ok nothing_seen
    unfolding seen_locks consider_all consider_status
    nothing_to_see vni base last =
        let test = (text_eq_same a.status_ipv4 []).1 no_status in rw (consider_status, test) refl

    analysis-lockless :
        (new_rv rv : Text) (vni base last : ℕ) (ip : Option IPv4)
        → find_place parse_cidr w.subnets (some a) ≡ ok (placed rv vni base last)
        → analysis_of library ip_string parse_ip parse_cidr w fuel ns name
            (some a)
            (some (anticipate a.resource_version new_rv rv ip))
          ≡ ok (lockless rv vni base last (anticipate a.resource_version new_rv rv ip))
    unfolding analysis_of analyze_and_release analyze_at analyze_owned decide seen_locks
        consider_all consider_status nothing_seen choose_lock choose_best locks_to_release
        release_all add_list_func add_list_from zero_parsed_lock refresh anticipate
    analysis-lockless new_rv rv vni base last ip at =
        rw (analysis_of, at, no_locks, nothing_to_see vni base last, refresh-same new_rv rv ip) refl

    -- The address of the attachment is anticipated, for the version of the subnet.
    pub process_network_attachment-Quiet :
        (s : State) (new_rv rv : Text) (vni base last : ℕ) (ip : IPv4)
        → find_place parse_cidr w.subnets (some a) ≡ ok (placed rv vni base last)
        → s.atts ns name ≡ some (anticipate a.resource_version new_rv rv (some ip))
        → (p : Result) × (process_network_attachment library ip_string parse_ip parse_cidr w fuel ns
              name s
              (found a)
            ≡ ok (some p))
          × Quiet s p
    unfolding process_network_attachment process_attachment process_analyzed process_present
        choose_address choose_by_data write_data anticipate zero_parsed_lock
    process_network_attachment-Quiet s new_rv rv vni base last ip at held =
        let d = anticipate a.resource_version new_rv rv (some ip) in
        (
          _,
          rw
              (
                process_attachment,
                get-present s.atts ns name d true held,
                analysis-lockless new_rv rv vni base last (some ip) at,
              )
              refl,
          (
            refl,
            refl,
            refl,
            refl,
            λ ns2 name2. put_data-same s.atts ns name (some d) ns2 name2 held,
          ),
        )
