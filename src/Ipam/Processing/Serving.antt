-- ===== src/Ipam/Processing/Serving.antt =====
-- What processing an attachment does to the cache of addresses.
use kube_examples.Common.{
  ℕ, ◌≡◌, ◌≤◌, ◌<◌, ◌⊎◌, refl, sym, ap, ◌∙◌, subst, arith, Bool, true, false, not, ◌||◌, Option,
  none, some, [], if◌then◌else◌, Bool-cases, inl, inr, Go, ok, ◌>>=◌, deref, Returns,
}
use kube_examples.GoNet.{IPv4, NetIp, NetBlock}
use kube_examples.GoText.{Text}
use kube_examples.Uint32Set.Library.{SortedSetLibrary}
use kube_examples.Ipam.LockName.{uint32_to_ipv4}
use kube_examples.Ipam.Locks.{ParsedLock, get_ip}
use kube_examples.Ipam.Cache.{AddrCache}
use kube_examples.Ipam.Cache.Theorems.{InUse, Caches, with_used}
use kube_examples.Ipam.Analysis.{Attachment, NetworkAttachmentData, is_some}
use kube_examples.Ipam.AttachmentData.{get_network_attachment_data}
use kube_examples.Ipam.AttachmentData.Lookup.{get_network_attachment_data-lookup}
use kube_examples.Ipam.Pick.{PickResult}
use kube_examples.Ipam.Pick.Rounds.{again, is_refused}
use kube_examples.Ipam.Pick.Outcome.{Settled, pick_and_lock_address-Settled}
use kube_examples.Ipam.Placing.{found, Placement, placed, Analysis, find_place, analyze_and_release}
use kube_examples.Ipam.Processing.{
  StatusUpdate, UpdateAnswer, updated, update_not_found, update_failed, World, is_nil, ip_matches,
  IpamState, Processed, ip_text, status_of, remember, after_update, update_na_status, after_pick,
  pick_and_update, choose_by_data, choose_address, process_present, process_analyzed, analysis_of,
  process_attachment, process_network_attachment,
}
use kube_examples.Ipam.Processing.Placed.{
  Bounded, GivesCut, found-Explained, found-Bounded, Placed, FourStatus, analyzed-Placed,
  analyze_at_returns,
}

pub present_data :
    (o : Option NetworkAttachmentData)
    → is_some o ≡ true
    → (d : NetworkAttachmentData) × (o ≡ some d)
present_data none h = ground arith
present_data (some d) h = (d, refl)

module _ (library : SortedSetLibrary) (ip_string : IPv4 → Text) (parse_ip : Text → Option NetIp)
    (parse_cidr : Text → Option NetBlock) where
  abbrev Result : Type 0
  Result = Processed library ip_string parse_ip parse_cidr

  abbrev State : Type 0
  State = IpamState library ip_string parse_ip parse_cidr

  -- The addresses in use are those of before, or one more: an address of the subnet that was free,
  -- and a status that was written then has that address.
  abbrev pub Served : InUse → Placement → Result → Type 0
  Served f place p =
      Caches library p.state.addr_cache f
      ⊎ ((subnet_rv : Text) × (vni : ℕ) × (base : ℕ) × (last : ℕ) × (addr_u : ℕ) × (place
            ≡ placed subnet_rv vni base last)
          × (base ≤ addr_u)
          × (addr_u ≤ last)
          × (f vni addr_u ≡ false)
          × Caches library p.state.addr_cache (with_used f vni addr_u)
          × ((st : StatusUpdate)
              → p.written ≡ some st
              → st.ipv4 ≡ ip_string (uint32_to_ipv4 addr_u)))

  pub after_update-Kept :
      (ns name : Text) (s : State) (a : Attachment) (an : Analysis) (st : StatusUpdate)
      (ip : Option IPv4) (d : NetworkAttachmentData) (answer : UpdateAnswer)
      → an.nadat ≡ some d
      → Returns
          (after_update library ip_string parse_ip parse_cidr ns name s a an st ip answer)
          (λ r.
            (p : Result) × (r ≡ some p)
            × (p.state.addr_cache ≡ s.addr_cache)
            × (p.written ≡ some st))
  unfolding after_update remember
  after_update-Kept ns name s a an st ip d (updated new_rv) h =
      elim (Bool-cases (is_nil an.status_errs)) [
        | inl e ↦ rw (after_update, remember, e, h) (_, refl, (_, refl, refl, refl))
        | inr e ↦ rw (after_update, remember, e) (_, refl, (_, refl, refl, refl))
      ]
  after_update-Kept ns name s a an st ip d update_not_found h = (_, refl, (_, refl, refl, refl))
  after_update-Kept ns name s a an st ip d update_failed h = (_, refl, (_, refl, refl, refl))

  module _ (w : World) (fuel n : ℕ) (ns name : Text) (ends : again (w.answers n) ≡ false)
      (enough : n < fuel) where
    abbrev Serves : InUse → Placement → Go (Option Result) → Type 0
    Serves f place go = Returns go (λ r. (p : Result) × (r ≡ some p) × Served f place p)

    update_na_status-Serves :
        (f : InUse) (s : State) (a : Attachment) (an : Analysis) (place : Placement)
        (lock : ParsedLock) (ip : Option IPv4)
        → Caches library s.addr_cache f
        → Placed place an
        → Serves f place
            (update_na_status library ip_string parse_ip parse_cidr w fuel ns name s a an lock ip)
    unfolding update_na_status
    update_na_status-Serves f s a an place lock ip c there =
        let st = status_of library ip_string parse_ip parse_cidr an lock ip in
        let (r, e, (p, q, same, wrote)) =
          after_update-Kept ns name s a an st ip there.data_of (w.update st) there.has_data in
        (r, e, (p, q, inl (subst (λ x. Caches library x f) (sym same) c)))

    -- A picked address, in the cache or given back.
    picked-Served :
        (f : InUse) (place : Placement) (subnet_rv : Text) (vni base last addr_u : ℕ) (back : Bool)
        (p : Result)
        → place ≡ placed subnet_rv vni base last
        → base ≤ addr_u
        → addr_u ≤ last
        → f vni addr_u ≡ false
        → Caches library p.state.addr_cache (if back then f else with_used f vni addr_u)
        → ((st : StatusUpdate) → p.written ≡ some st → st.ipv4 ≡ ip_string (uint32_to_ipv4 addr_u))
        → Served f place p
    picked-Served f place subnet_rv vni base last addr_u true p at low high free c wrote = inl c
    picked-Served f place subnet_rv vni base last addr_u false p at low high free c wrote =
        inr (subnet_rv, vni, base, last, addr_u, at, low, high, free, c, wrote)

    abbrev ipv4_of : Option StatusUpdate → Text
    ipv4_of none = []
    ipv4_of (some st) = st.ipv4

    after_pick-Serves :
        (f : InUse) (s : State) (a : Attachment) (an : Analysis) (place : Placement)
        (left : AddrCache library) (result : PickResult)
        → Placed place an
        → place ≡ placed an.subnet_rv an.desired_vni an.desired_base_u an.desired_last_u
        → Settled library f an.desired_vni an.desired_base_u an.desired_last_u name a.uid w.answers
            (result, left)
        → Serves f place (
            after_pick library ip_string parse_ip parse_cidr w fuel ns name
              (record s { addr_cache = left })
              a
              an
              (some result))
    unfolding after_pick update_na_status status_of ip_text
    after_pick-Serves f s a an place left result there at (inl (failed, no_ip, full, c)) =
        rw (after_pick, failed) (_, refl, (_, refl, inl c))
    after_pick-Serves f s a an place left result there at
          (inr (addr_u, m, low, high, free, last_round, (ipq, objq, errq, c))) =
        elim (Bool-cases result.err) [
          | inl failed ↦
              let p : Result = record {
                err = true;
                written = none;
                released = an.released;
                state = record s { addr_cache = left };
              } in
              rw (after_pick, failed)
                (
                  _,
                  refl,
                  (
                    p,
                    refl,
                    picked-Served f place an.subnet_rv an.desired_vni an.desired_base_u
                        an.desired_last_u addr_u (is_refused (w.answers m)) p at low high free c
                        (λ st h. ground arith),
                  ),
                )
          | inr fine ↦
              let (r, q, (p, found_p, same, wrote)) =
                after_update-Kept ns name (record s { addr_cache = left }) a an
                  (status_of library ip_string parse_ip parse_cidr an result.lock_for_status
                    result.ip_for_status)
                  result.ip_for_status there.data_of
                  (w.update (
                    status_of library ip_string parse_ip parse_cidr an result.lock_for_status
                      result.ip_for_status))
                  there.has_data in
              (
                r,
                rw (after_pick, fine) q,
                (
                  p,
                  found_p,
                  picked-Served f place an.subnet_rv an.desired_vni an.desired_base_u
                      an.desired_last_u addr_u (is_refused (w.answers m)) p at low high free
                      (subst
                        (λ x. Caches library x (
                          if is_refused (w.answers m)
                          then f
                          else with_used f an.desired_vni addr_u))
                        (sym same) c)
                      (λ st h.
                        ap ipv4_of (sym h ∙ wrote)
                        ∙ ap (ip_text library ip_string parse_ip parse_cidr) ipq),
                ),
              )
        ]

    pick_and_update-Serves :
        (f : InUse) (s : State) (a : Attachment) (an : Analysis) (place : Placement)
        → Caches library s.addr_cache f
        → Placed place an
        → Bounded place
        → place ≡ placed an.subnet_rv an.desired_vni an.desired_base_u an.desired_last_u
        → Serves f place
            (pick_and_update library ip_string parse_ip parse_cidr w fuel ns name s a an)
    unfolding pick_and_update after_pick update_na_status
    pick_and_update-Serves f s a an place c there proper at =
        let (low, high) = subst Bounded at proper in
        let ((r, left), e, (result, re, settled)) =
          pick_and_lock_address-Settled library s.addr_cache f w.gap_seed w.member_seed w.answers
            fuel n ns name a.uid an.desired_vni an.desired_base_u an.desired_last_u c low high ends
            enough in
        let (o, q, out) = after_pick-Serves f s a an place left result there at settled in
        (o, rw (pick_and_update, e, re) q, out)

    choose_by_data-Serves :
        (f : InUse) (s : State) (a : Attachment) (an : Analysis) (place : Placement)
        (d : NetworkAttachmentData)
        → Caches library s.addr_cache f
        → Placed place an
        → Bounded place
        → place ≡ placed an.subnet_rv an.desired_vni an.desired_base_u an.desired_last_u
        → Serves f place
            (choose_by_data library ip_string parse_ip parse_cidr w fuel ns name s a an d)
    unfolding choose_by_data
    choose_by_data-Serves f s a an place d c there proper at =
        elim (Bool-cases (is_some an.lock_for_status.obj)) [
          | inl has_lock ↦
              elim (Bool-cases (ip_matches (get_ip an.lock_for_status) d.anticipated_ipv4)) [
                | inl same ↦ rw (choose_by_data, has_lock, same) (_, refl, (_, refl, inl c))
                | inr other ↦
                    rw (choose_by_data, has_lock, other)
                      (update_na_status-Serves f s a an place an.lock_for_status
                        (some (get_ip an.lock_for_status)) c there)
              ]
          | inr no_lock ↦ elim (Bool-cases (is_some d.anticipated_ipv4)) [
            | inl waits ↦ rw (choose_by_data, no_lock, waits) (_, refl, (_, refl, inl c))
            | inr not_yet ↦
                rw (choose_by_data, no_lock, not_yet)
                  (pick_and_update-Serves f s a an place c there proper at)
          ]
        ]

    choose_address-Serves :
        (f : InUse) (s : State) (a : Attachment) (an : Analysis) (place : Placement)
        → Caches library s.addr_cache f
        → Placed place an
        → Bounded place
        → an.proceeds ≡ true
        → Serves f place
            (choose_address library ip_string parse_ip parse_cidr w fuel ns name s a an)
    unfolding choose_address
    choose_address-Serves f s a an place c there proper goes =
        elim (Bool-cases (is_nil an.status_errs)) [
          | inr e ↦
              rw (choose_address, e)
                (update_na_status-Serves f s a an place an.lock_for_status none c there)
          | inl e ↦
              let by_data =
                choose_by_data library ip_string parse_ip parse_cidr w fuel ns name s a an in
              rw (choose_address, e)
                (subst (λ o. Serves f place (deref o >>= by_data)) (sym there.has_data)
                  (choose_by_data-Serves f s a an place there.data_of c there proper
                    (there.at_place goes e)))
        ]

    process_analyzed-Serves :
        (f : InUse) (s : State) (a : Attachment) (an : Analysis) (place : Placement)
        → Caches library s.addr_cache f
        → Placed place an
        → Bounded place
        → Serves f place
            (process_analyzed library ip_string parse_ip parse_cidr w fuel ns name s (some a) an)
    unfolding process_analyzed process_present
    process_analyzed-Serves f s a an place c there proper =
        elim (Bool-cases (an.err || not an.proceeds)) [
          | inl stops ↦ rw (process_analyzed, stops) (_, refl, (_, refl, inl c))
          | inr goes ↦ elim (Bool-cases (is_some an.lock_in_status.obj)) [
            | inl settled ↦
                rw (process_analyzed, goes, process_present, settled) (_, refl, (_, refl, inl c))
            | inr unsettled ↦
                rw (process_analyzed, goes, process_present, unsettled)
                  (choose_address-Serves f s a an place c there proper (ground arith))
          ]
        ]

    -- processNetworkAttachment of an attachment that exists, in a valid cache, does not panic and comes
    -- to a result, and the cache is valid. The addresses in use are those of before, or there is one
    -- more: an address within the bounds of the attachment's subnet that was free, and if a status is
    -- written then it has that address. This is so if the API server comes to an answer that does not
    -- send the loop that locks an address round again, and the fuel reaches to that round; if the
    -- subnet's block and the address in the status, where they parse, have a form of four bytes; and
    -- if the networks that ParseCIDR gives in that form are masked and leave at most 32 bits.
    pub process_network_attachment-Serves :
        (f : InUse) (s : State) (a : Attachment) (place : Placement)
        → GivesCut parse_cidr
        → find_place parse_cidr w.subnets (some a) ≡ ok place
        → FourStatus parse_ip a
        → Caches library s.addr_cache f
        → Serves f place (
            process_network_attachment library ip_string parse_ip parse_cidr w fuel ns name s
              (found a))
    unfolding process_network_attachment process_attachment analysis_of analyze_and_release
    process_network_attachment-Serves f s a place cut at four c =
        let got = get_network_attachment_data-lookup s.atts ns name true in
        let o = (get_network_attachment_data s.atts ns name true).0 in
        let (d, e) = present_data o (ground (arith, got.1)) in
        let (an, analyzed) =
          analyze_at_returns ip_string parse_ip w.owned w.get_lock w.delete a four o place in
        let there =
          analyzed-Placed ip_string parse_ip w.owned w.get_lock w.delete (some a) o d place an
            (found-Explained parse_cidr w.subnets (some a) place at) e analyzed in
        rw (process_attachment, at, analyzed)
          (process_analyzed-Serves f _ a an place c there
            (found-Bounded parse_cidr cut w.subnets (some a) place at))
