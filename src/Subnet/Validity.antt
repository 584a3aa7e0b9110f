-- ===== src/Subnet/Validity.antt =====
-- What it means that `Validate` has no errors for a Subnet.
use kube_examples.Common.{
  ℕ, ◌≤◌, ◌↔◌, ◌≡◌, ◌≢◌, refl, sym, ap, ◌∙◌, subst, true, false, ◌==◌, arith, Option, none, some,
  Option-cases, Bool-cases, Go-cases, inl, inr, List, [], ◌∷◌, All, keep, Go, ok, panic, ◌>>=◌,
  Returns, OnOk, value_or,
}
use kube_examples.GoNet.{IpNet, NetBlock, block_in_four, block_only_six}
use kube_examples.GoText.{Text, text_eq}
use kube_examples.GoText.Equality.{text_eq_same}
use kube_examples.Ipam.LockName.Bounds.{IsCut}
use kube_examples.Subnet.{
  Subnet, ParsedSubnet, FieldError, internal_error, forbidden_ipv4, overlaps, parsed_net,
  parsed_block, parse_subnet, check_vni_range, check_cidr_format, all_subnets_with_vni,
  check_same_vni_same_ns, check_overlap, check_overlaps, check_cidr_does_not_overlap,
  validate_among, validate, add_if,
}
use kube_examples.Subnet.NoErrors.{All-keep, no_errors, no_errors_round, refused}
use kube_examples.Subnet.Ranges.{Within, overlaps_shared, parse_subnet_proper}

module _ (Status : Type 0) (zero_status : Status) (parse_cidr : Text → Option NetBlock)
    (cut : (cidr : Text) (net : IpNet)
      → parse_cidr cidr ≡ some (block_in_four net)
      → IsCut net) where
  abbrev range_of : Subnet Status → Go ParsedSubnet
  range_of = parse_subnet Status zero_status parse_cidr

  -- The two have ranges, without a panic, and the ranges have no common address.
  abbrev pub Apart : Subnet Status → Subnet Status → Type 0
  Apart s a =
      Returns (range_of s)
        (λ ps. Returns (range_of a) (λ pa. ¬ ((x : ℕ) × Within x ps × Within x pa)))

  check_vni_range_nil :
      (s : Subnet Status)
      → (check_vni_range Status zero_status parse_cidr s ≡ []) ↔ ((1 ≤ s.vni) × (s.vni ≤ 2097151))
  unfolding check_vni_range
  check_vni_range_nil s = ground arith

  check_cidr_format_nil :
      (s : Subnet Status)
      → (check_cidr_format Status zero_status parse_cidr s ≡ []) ↔ (parse_cidr s.ipv4 ≢ none)
  unfolding check_cidr_format
  check_cidr_format_nil s = elim (Option-cases (parse_cidr s.ipv4)) [
    | inl e ↦ rw (check_cidr_format, e) ((λ h. cc), (λ h. elim (h refl) [ ]))
    | inr (net, e) ↦ rw (check_cidr_format, e) ((λ h. λ k. cc), (λ h. refl))
  ]

  check_same_vni_same_ns_nil :
      (s : Subnet Status) (subnets : List (Subnet Status))
      → (check_same_vni_same_ns Status zero_status parse_cidr s subnets ≡ [])
        ↔ All (λ a. a.namespace ≡ s.namespace) subnets
  unfolding check_same_vni_same_ns
  check_same_vni_same_ns_nil s [] = ((λ e. tt), (λ h. refl))
  check_same_vni_same_ns_nil s (a ∷ subnets) = elim (Bool-cases (text_eq a.namespace s.namespace)) [
    | inl e ↦ rw e (
      (λ h.
          ((text_eq_same a.namespace s.namespace).0 e, (check_same_vni_same_ns_nil s subnets).0 h)),
      (λ h. (check_same_vni_same_ns_nil s subnets).1 h.1),
    )
    | inr e ↦ rw e ((λ h. cc), (λ h. let i = (text_eq_same a.namespace s.namespace).1 h.0 in cc))
  ]

  range_proper :
      (s : Subnet Status) (ps : ParsedSubnet) → range_of s ≡ ok ps → ps.base_u ≤ ps.last_u
  range_proper s ps e =
      subst (OnOk (λ p. p.base_u ≤ p.last_u)) e
        (parse_subnet_proper Status zero_status parse_cidr cut s)

  overlaps-Apart :
      (s a : Subnet Status) (ps pa : ParsedSubnet)
      → range_of s ≡ ok ps
      → range_of a ≡ ok pa
      → (overlaps ps pa ≡ false) ↔ Apart s a
  overlaps-Apart s a ps pa es ea =
      let shared = overlaps_shared ps pa (range_proper s ps es) (range_proper a pa ea) in
      (
        (λ e. (ps, es, (pa, ea, λ x. let h = shared.1 x in cc))),
        (λ (qs, fs, (qa, fa, n)).
            let same_s : qs ≡ ps = ap (value_or ps) (sym fs ∙ es) in
            let same_a : qa ≡ pa = ap (value_or pa) (sym fa ∙ ea) in
            elim (Bool-cases (overlaps ps pa)) [
              | inl h ↦
                  let (x, w, v) = shared.0 h in
                  elim (n (x, subst (Within x) (sym same_s) w, subst (Within x) (sym same_a) v)) [ ]
              | inr h ↦ h
            ]),
      )

  check_overlap_nil :
      (s a : Subnet Status) (ps : ParsedSubnet) (rest : Go (List FieldError))
      → range_of s ≡ ok ps
      → (check_overlap Status zero_status parse_cidr ps s a rest ≡ ok [])
        ↔ ((s.uid ≢ a.uid → Apart s a) × (rest ≡ ok []))
  unfolding check_overlap
  check_overlap_nil s a ps rest es = elim (Bool-cases (text_eq s.uid a.uid)) [
    | inl e ↦
        rw (check_overlap, e)
          ((λ h. ((λ n. elim (n ((text_eq_same s.uid a.uid).0 e)) [ ]), h)), (λ h. h.1))
    | inr e ↦
        let differ : s.uid ≢ a.uid = λ q. let h = (text_eq_same s.uid a.uid).1 q in cc in
        elim (Go-cases (range_of a)) [
          | inl ea ↦
              let code : check_overlap Status zero_status parse_cidr ps s a rest ≡ panic =
                rw (check_overlap, e, ea) refl in
              (
                (λ h. let q = sym code ∙ h in ground arith),
                (λ h.
                    let (qs, fs, (qa, fa, n)) = h.0 differ in let q = sym ea ∙ fa in ground arith),
              )
          | inr (pa, ea) ↦
              let x = forbidden_ipv4 a.namespace a.name in
              let code : check_overlap Status zero_status parse_cidr ps s a rest
                  ≡ (rest >>= λ errs. ok (add_if (overlaps ps pa) x errs)) =
                rw (check_overlap, e, ea) refl in
              subst (λ m. (m ≡ ok []) ↔ ((s.uid ≢ a.uid → Apart s a) × (rest ≡ ok []))) (sym code)
                (no_errors_round (overlaps ps pa) x rest differ (overlaps-Apart s a ps pa es ea))
        ]
  ]

  check_overlaps_nil :
      (s : Subnet Status) (ps : ParsedSubnet) (subnets : List (Subnet Status))
      → range_of s ≡ ok ps
      → (check_overlaps Status zero_status parse_cidr ps s subnets ≡ ok [])
        ↔ All (λ a. s.uid ≢ a.uid → Apart s a) subnets
  unfolding check_overlaps
  check_overlaps_nil s ps [] es = ((λ e. tt), (λ h. refl))
  check_overlaps_nil s ps (a ∷ subnets) es =
      let here =
        check_overlap_nil s a ps (check_overlaps Status zero_status parse_cidr ps s subnets) es in
      let later = check_overlaps_nil s ps subnets es in
      ((λ h. ((here.0 h).0, later.0 (here.0 h).1)), (λ h. here.1 (h.0, later.1 h.1)))

  -- The address block parses, and its address has four bytes.
  abbrev pub HasFour : Subnet Status → Type 0
  HasFour s = (net : IpNet) × (parse_cidr s.ipv4 ≡ some (block_in_four net))

  four_range : (s : Subnet Status) (f : HasFour s) → range_of s ≡ ok (parsed_net f.0)
  unfolding parse_subnet parsed_block
  four_range s (net, e) = rw (parse_subnet, e) refl

  range_four :
      (s : Subnet Status) (ps : ParsedSubnet)
      → parse_cidr s.ipv4 ≢ none
      → range_of s ≡ ok ps
      → HasFour s
  unfolding parse_subnet parsed_block
  range_four s ps parses es = elim (Option-cases (parse_cidr s.ipv4)) [
    | inl e ↦ elim (parses e) [ ]
    | inr (block_in_four net, e) ↦ (net, e)
    | inr (block_only_six, e) ↦
        let six : range_of s ≡ panic = rw (parse_subnet, e) refl in
        let q = sym six ∙ es in ground arith
  ]

  check_cidr_does_not_overlap_nil :
      (s : Subnet Status) (subnets : List (Subnet Status))
      → ((parse_cidr s.ipv4 ≢ none)
          × (check_cidr_does_not_overlap Status zero_status parse_cidr s subnets ≡ ok []))
        ↔ (HasFour s × All (λ a. s.uid ≢ a.uid → Apart s a) subnets)
  unfolding check_cidr_does_not_overlap
  check_cidr_does_not_overlap_nil s subnets = (
    (λ (parses, h). elim (Go-cases (range_of s)) [
      | inl e ↦
          let code : check_cidr_does_not_overlap Status zero_status parse_cidr s subnets ≡ panic =
            rw (check_cidr_does_not_overlap, e) refl in
          let q = sym code ∙ h in ground arith
      | inr (ps, e) ↦
          let code : check_cidr_does_not_overlap Status zero_status parse_cidr s subnets
              ≡ check_overlaps Status zero_status parse_cidr ps s subnets =
            rw (check_cidr_does_not_overlap, e) refl in
          (range_four s ps parses e, (check_overlaps_nil s ps subnets e).0 (sym code ∙ h))
    ]),
    (λ (four, h).
        let e = four_range s four in
        (
          (λ none_there. let q = sym none_there ∙ four.1 in cc),
          rw (check_cidr_does_not_overlap, e) ((check_overlaps_nil s _ subnets e).1 h),
        )),
  )

  -- What a Subnet must be among the Subnets that exist.
  pub record IsAcceptable (all_subnets : List (Subnet Status)) (s : Subnet Status) : Type 0 where
    pub above_min : 1 ≤ s.vni
    pub below_max : s.vni ≤ 2097151
    pub has_net : HasFour s
    pub same_namespace : All (λ a. (a.vni == s.vni) ≡ true → a.namespace ≡ s.namespace) all_subnets
    pub disjoint : All (λ a. (a.vni == s.vni) ≡ true → s.uid ≢ a.uid → Apart s a) all_subnets

  -- `Validate` of a Subnet, if a network that `ParseCIDR` gives with an address of four bytes is
  -- masked and leaves at most 32 bits: it ends without a panic and without errors exactly if the VNI
  -- is from 1 to 2097151, the address block parses as one with an address of four bytes (and not as
  -- one of IPv6 alone), and the Subnets that the lister returns with its VNI are in its namespace
  -- and, but for those with its UID, have address ranges, without a panic, that share no address
  -- with its range.
  pub validate-IsAcceptable :
      (all_subnets : List (Subnet Status)) (s : Subnet Status)
      → (validate Status zero_status parse_cidr (some all_subnets) s ≡ ok [])
        ↔ IsAcceptable all_subnets s
  unfolding validate validate_among all_subnets_with_vni
  validate-IsAcceptable all_subnets s =
      let subnets = keep (λ a. a.vni == s.vni) all_subnets in
      let parts =
        no_errors (check_vni_range Status zero_status parse_cidr s)
          (check_cidr_format Status zero_status parse_cidr s)
          (check_same_vni_same_ns Status zero_status parse_cidr s subnets)
          (check_cidr_does_not_overlap Status zero_status parse_cidr s subnets) in
      let among = All-keep (λ a. a.namespace ≡ s.namespace) (λ a. a.vni == s.vni) all_subnets in
      let apart = All-keep (λ a. s.uid ≢ a.uid → Apart s a) (λ a. a.vni == s.vni) all_subnets in
      let range = check_vni_range_nil s in
      let overlap = check_cidr_does_not_overlap_nil s subnets in
      (
        (λ e.
            let (v, c, n, o) = parts.0 e in
            let (four, others) = overlap.0 ((check_cidr_format_nil s).0 c, o) in
            record {
              above_min = (range.0 v).0;
              below_max = (range.0 v).1;
              has_net = four;
              same_namespace = among.0 ((check_same_vni_same_ns_nil s subnets).0 n);
              disjoint = apart.0 others;
            }),
        (λ a.
            let (parses, no_overlap) = overlap.1 (a.has_net, apart.1 a.disjoint) in
            parts.1 (
              range.1 (a.above_min, a.below_max),
              (check_cidr_format_nil s).1 parses,
              (check_same_vni_same_ns_nil s subnets).1 (among.1 a.same_namespace),
              no_overlap,
            )),
      )

module _ (Status : Type 0) (zero_status : Status) (parse_cidr : Text → Option NetBlock) where
  -- `Validate` never accepts a Subnet when the lister fails.
  pub validate-internal_error :
      (s : Subnet Status) → validate Status zero_status parse_cidr none s ≢ ok []
  unfolding validate validate_among all_subnets_with_vni
  validate-internal_error s =
      refused (check_vni_range Status zero_status parse_cidr s)
        (check_cidr_format Status zero_status parse_cidr s) (internal_error s.vni)
