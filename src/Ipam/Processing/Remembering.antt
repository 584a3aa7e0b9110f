-- ===== src/Ipam/Processing/Remembering.antt =====
-- What the controller remembers of the address that it wrote, and that it then waits.
use kube_examples.Common.{
  ℕ, ◌≡◌, ◌≢◌, refl, sym, ap, ◌∙◌, subst, arith, Bool, true, false, not, ◌||◌, Option, none, some,
  [], Bool-cases, inl, inr, Go, ok, panic, ◌>>=◌, deref,
}
use kube_examples.GoNet.{IPv4, NetIp, NetBlock}
use kube_examples.GoText.{Text}
use kube_examples.Uint32Set.Library.{SortedSetLibrary}
use kube_examples.Ipam.Locks.{ParsedLock, get_ip}
use kube_examples.Ipam.Cache.{AddrCache}
use kube_examples.Ipam.Analysis.{Attachment, NetworkAttachmentData, is_some}
use kube_examples.Ipam.AttachmentData.{put_data, get_network_attachment_data}
use kube_examples.Ipam.AttachmentData.Lookup.{get_network_attachment_data-lookup, put_data-lookup}
use kube_examples.Ipam.Pick.{PickResult}
use kube_examples.Ipam.Placing.{
  found, Placement, placed, Analysis, find_place, analyze_at, analyze_and_release,
}
use kube_examples.Ipam.Processing.{
  StatusUpdate, updated, World, is_nil, ip_matches, anticipate, IpamState, Processed, ip_text,
  status_of, remember, after_update, update_na_status, after_pick, pick_and_update, choose_by_data,
  choose_address, process_present, process_analyzed, analysis_of, process_attachment,
  process_network_attachment, ended,
}
use kube_examples.Ipam.Processing.Placed.{found-Explained, Placed, analyzed-Placed}
use kube_examples.Ipam.Processing.Serving.{after_update-Kept, present_data}
use kube_examples.Ipam.Processing.Waiting.{Quiet, process_network_attachment-Quiet}

-- What ends normally does so in every step.
bound :
    {A B : Type 0} (m : Go A) (k : A → Go (Option B)) (p : B)
    → (m >>= k) ≡ ok (some p)
    → (x : A) × (m ≡ ok x) × (k x ≡ ok (some p))
bound panic k p e = ground arith
bound (ok x) k p e = (x, refl, e)

bound_twice :
    {A B C : Type 0} (m : Go A) (j : A → Go B) (k : B → Go (Option C)) (p : C)
    → (m >>= j >>= k) ≡ ok (some p)
    → (x : A) × (m ≡ ok x) × ((y : B) × (j x ≡ ok y) × (k y ≡ ok (some p)))
bound_twice panic j k p e = ground arith
bound_twice (ok x) j k p e = (x, refl, bound (j x) k p e)

module _ (library : SortedSetLibrary) (ip_string : IPv4 → Text) (parse_ip : Text → Option NetIp)
    (parse_cidr : Text → Option NetBlock) where
  abbrev State : Type 0
  State = IpamState library ip_string parse_ip parse_cidr

  abbrev Result : Type 0
  Result = Processed library ip_string parse_ip parse_cidr

  abbrev result_or : Result → Go (Option Result) → Result
  result_or p panic = p
  result_or p (ok none) = p
  result_or p (ok (some q)) = q

  abbrev status_or : StatusUpdate → Option StatusUpdate → StatusUpdate
  status_or st none = st
  status_or st (some st2) = st2

  module _ (w : World) (fuel : ℕ) (ns name : Text) (a : Attachment) (place : Placement) where
    -- A status without errors that was accepted is remembered, with the version of the subnet.
    abbrev Remembered : Result → Type 0
    Remembered p =
        (st : StatusUpdate) (new_rv : Text)
        → p.written ≡ some st
        → is_nil st.errors ≡ true
        → w.update st ≡ updated new_rv
        → (rv : Text) × (vni : ℕ) × (base : ℕ) × (last : ℕ) × (ip : Option IPv4) × (place
            ≡ placed rv vni base last)
          × (st.ipv4 ≡ ip_text library ip_string parse_ip parse_cidr ip)
          × (p.state.atts ns name ≡ some (anticipate a.resource_version new_rv rv ip))

    abbrev Remembers : Go (Option Result) → Type 0
    Remembers go = (p : Result) → go ≡ ok (some p) → Remembered p

    ended-Remembers :
        (err : Bool) (s : State) (an : Analysis)
        → Remembers (ended library ip_string parse_ip parse_cidr err s an)
    ended-Remembers err s an p e st new_rv wrote no_errors accepted =
        let q = ap (λ go. (result_or p go).written) e ∙ wrote in ground (arith, q)

    bind-Remembers :
        (x : Go (Option PickResult × AddrCache library))
        (k : Option PickResult × AddrCache library → Go (Option Result))
        → ((r : Option PickResult × AddrCache library) → Remembers (k r))
        → Remembers (x >>= k)
    bind-Remembers panic k h p e = ground (arith, e)
    bind-Remembers (ok r) k h p e = h r p e

    accepted_update :
        (s : State) (an : Analysis) (st : StatusUpdate) (ip : Option IPv4)
        (d : NetworkAttachmentData) (new_rv : Text)
        → is_nil an.status_errs ≡ true
        → an.nadat ≡ some d
        → after_update library ip_string parse_ip parse_cidr ns name s a an st ip (updated new_rv)
          ≡ ok (
              some (record {
                err = false;
                written = some st;
                released = an.released;
                state = record s {
                  atts =
                      put_data s.atts ns name
                        (some (anticipate a.resource_version new_rv an.subnet_rv ip));
                };
              }))
    unfolding after_update remember
    accepted_update s an st ip d new_rv none_there h =
        rw (after_update, remember, none_there, h) refl

    update_na_status-Remembers :
        (s : State) (an : Analysis) (lock : ParsedLock) (ip : Option IPv4)
        → Placed place an
        → an.proceeds ≡ true
        → Remembers
            (update_na_status library ip_string parse_ip parse_cidr w fuel ns name s a an lock ip)
    unfolding update_na_status status_of
    update_na_status-Remembers s an lock ip there goes p e st new_rv wrote no_errors accepted =
        let st0 = status_of library ip_string parse_ip parse_cidr an lock ip in
        let (r, q, (p0, found_p, same, wrote0)) =
          after_update-Kept library ip_string parse_ip parse_cidr ns name s a an st0 ip
            there.data_of (w.update st0) there.has_data in
        let same_result : p0 ≡ p = ap (result_or p0) (ap ok (sym found_p) ∙ sym q ∙ e) in
        let same_status : st0 ≡ st =
          ap (status_or st0) (sym wrote0 ∙ ap (λ y. y.written) same_result ∙ wrote) in
        let accepted0 = ap w.update same_status ∙ accepted in
        let none_there : is_nil an.status_errs ≡ true =
          ap (λ y. is_nil y.errors) same_status ∙ no_errors in
        let after = after_update library ip_string parse_ip parse_cidr ns name s a an st0 ip in
        let left =
          ap (λ go. (result_or p go).state.atts ns name)
            (sym e
              ∙ ap after accepted0
              ∙ accepted_update s an st0 ip there.data_of new_rv none_there there.has_data) in
        (
          an.subnet_rv,
          an.desired_vni,
          an.desired_base_u,
          an.desired_last_u,
          ip,
          there.at_place goes none_there,
          ap (λ y. y.ipv4) (sym same_status),
          left ∙ put_data-lookup s.atts ns name _,
        )

    after_pick-Remembers :
        (s : State) (an : Analysis) (r : Option PickResult)
        → Placed place an
        → an.proceeds ≡ true
        → Remembers (after_pick library ip_string parse_ip parse_cidr w fuel ns name s a an r)
    unfolding after_pick
    after_pick-Remembers s an none there goes = λ p e. ground (arith, e)
    after_pick-Remembers s an (some r) there goes = elim (Bool-cases r.err) [
      | inl failed ↦ rw (after_pick, failed) (ended-Remembers true s an)
      | inr fine ↦
          rw (after_pick, fine)
            (update_na_status-Remembers s an r.lock_for_status r.ip_for_status there goes)
    ]

    pick_and_update-Remembers :
        (s : State) (an : Analysis)
        → Placed place an
        → an.proceeds ≡ true
        → Remembers (pick_and_update library ip_string parse_ip parse_cidr w fuel ns name s a an)
    unfolding pick_and_update
    pick_and_update-Remembers s an there goes =
        bind-Remembers _ _
          (λ r. after_pick-Remembers (record s { addr_cache = r.1 }) an r.0 there goes)

    choose_by_data-Remembers :
        (s : State) (an : Analysis) (d : NetworkAttachmentData)
        → Placed place an
        → an.proceeds ≡ true
        → Remembers (choose_by_data library ip_string parse_ip parse_cidr w fuel ns name s a an d)
    unfolding choose_by_data
    choose_by_data-Remembers s an d there goes =
        elim (Bool-cases (is_some an.lock_for_status.obj)) [
          | inl has_lock ↦
              elim (Bool-cases (ip_matches (get_ip an.lock_for_status) d.anticipated_ipv4)) [
                | inl same ↦ rw (choose_by_data, has_lock, same) (ended-Remembers false s an)
                | inr other ↦
                    rw (choose_by_data, has_lock, other)
                      (update_na_status-Remembers s an an.lock_for_status
                        (some (get_ip an.lock_for_status)) there goes)
              ]
          | inr no_lock ↦ elim (Bool-cases (is_some d.anticipated_ipv4)) [
            | inl waits ↦ rw (choose_by_data, no_lock, waits) (ended-Remembers false s an)
            | inr not_yet ↦
                rw (choose_by_data, no_lock, not_yet) (pick_and_update-Remembers s an there goes)
          ]
        ]

    choose_address-Remembers :
        (s : State) (an : Analysis)
        → Placed place an
        → an.proceeds ≡ true
        → Remembers (choose_address library ip_string parse_ip parse_cidr w fuel ns name s a an)
    unfolding choose_address
    choose_address-Remembers s an there goes = elim (Bool-cases (is_nil an.status_errs)) [
      | inr e ↦
          rw (choose_address, e)
            (update_na_status-Remembers s an an.lock_for_status none there goes)
      | inl e ↦
          let by_data =
            choose_by_data library ip_string parse_ip parse_cidr w fuel ns name s a an in
          rw (choose_address, e)
            (subst (λ o. Remembers (deref o >>= by_data)) (sym there.has_data)
              (choose_by_data-Remembers s an there.data_of there goes))
    ]

    process_analyzed-Remembers :
        (s : State) (an : Analysis)
        → Placed place an
        → Remembers
            (process_analyzed library ip_string parse_ip parse_cidr w fuel ns name s (some a) an)
    unfolding process_analyzed process_present
    process_analyzed-Remembers s an there = elim (Bool-cases (an.err || not an.proceeds)) [
      | inl stops ↦ rw (process_analyzed, stops) (ended-Remembers an.err s an)
      | inr goes ↦ elim (Bool-cases (is_some an.lock_in_status.obj)) [
        | inl settled ↦
            rw (process_analyzed, goes, process_present, settled) (ended-Remembers false s an)
        | inr unsettled ↦
            rw (process_analyzed, goes, process_present, unsettled)
              (choose_address-Remembers s an there (ground arith))
      ]
    ]

  -- A text that is not empty is that of an address.
  address_there :
      (ip : Option IPv4) (t : Text)
      → t ≡ ip_text library ip_string parse_ip parse_cidr ip
      → t ≢ []
      → (i : IPv4) × (ip ≡ some i)
  unfolding ip_text
  address_there none t e h = elim (h e) [ ]
  address_there (some i) t e h = (i, refl)

  module _ (w w2 : World) (fuel fuel2 : ℕ) (ns name : Text) (a : Attachment) where
    -- processNetworkAttachment of an attachment without an address in its status, twice, if the
    -- subnets are the same, in their versions too, and the second time the informers still have the
    -- attachment as it was and no lock of it: if the first time a status with an address and without
    -- errors was accepted, then the second time there is no error and no panic, no status is written,
    -- no lock deleted, no address picked, and the data of the attachments stays.
    pub process_network_attachment_twice :
        (s : State) (p : Result) (st : StatusUpdate) (new_rv : Text)
        → a.status_ipv4 ≡ []
        → w2.subnets ≡ w.subnets
        → w2.owned ≡ some []
        → process_network_attachment library ip_string parse_ip parse_cidr w fuel ns name s
            (found a)
          ≡ ok (some p)
        → p.written ≡ some st
        → is_nil st.errors ≡ true
        → st.ipv4 ≢ []
        → w.update st ≡ updated new_rv
        → (p2 : Result) × (process_network_attachment library ip_string parse_ip parse_cidr w2 fuel2
              ns name p.state
              (found a)
            ≡ ok (some p2))
          × Quiet library ip_string parse_ip parse_cidr p.state p2
    unfolding process_network_attachment process_attachment analysis_of analyze_and_release
    process_network_attachment_twice s p st new_rv no_status same_subnets no_locks run wrote
          no_errors an_address accepted =
        let got = get_network_attachment_data-lookup s.atts ns name true in
        let o = (get_network_attachment_data s.atts ns name true).0 in
        let (d, e) = present_data o (ground (arith, got.1)) in
        let (place, at, (an, analyzed, went)) =
          bound_twice (find_place parse_cidr w.subnets (some a))
            (analyze_at ip_string parse_ip w.owned w.get_lock w.delete (some a) o) _ p run in
        let there =
          analyzed-Placed ip_string parse_ip w.owned w.get_lock w.delete (some a) o d place an
            (found-Explained parse_cidr w.subnets (some a) place at) e analyzed in
        let (rv, vni, base, last, ip, is_there, text, held) =
          process_analyzed-Remembers w fuel ns name a place _ an there p went st new_rv wrote
            no_errors accepted in
        let (i, set) = address_there ip st.ipv4 text an_address in
        process_network_attachment-Quiet library ip_string parse_ip parse_cidr w2 fuel2 ns name
          no_locks a no_status p.state new_rv rv vni base last i
          (ap (λ f. find_place parse_cidr f (some a)) same_subnets ∙ at ∙ ap ok is_there)
          (held ∙ ap (λ o. some (anticipate a.resource_version new_rv rv o)) set)
