-- ===== src/Uint32Set/Sorted/Remove.antt =====
-- staging/kos/pkg/uint32set/sortedset.go: `Remove` never panics, and takes its number out.
use kube_examples.Common.{
  ℕ, suc, ◌+◌, ◌-◌, ◌<◌, ◌≡◌, refl, sym, ap, ◌∙◌, Bool, true, false, ◌&&◌, ◌||◌, none, some, List,
  [], ◌∷◌, ◌++◌, arith, ltb, ◌==◌, if◌then◌else◌, length, length-append, two_32, ok, Returns, not,
  Bool-cases, inl, inr, ==_iff, subst, dec_lt, ℕ_discrete,
}
use kube_examples.Uint32Set.Keys.{hex8}
use kube_examples.Uint32Set.Library.{SortedSetLibrary}
use kube_examples.Uint32Set.Runs.{
  Run, run, node_of, embed, covers, in_run, next, IsRuns-append, IsRuns-After, IsRuns-mono, Before,
  After, covers-append, covers_below, covers_beyond, Place, start_of, lowest, after, place,
}
use kube_examples.Uint32Set.Contents.{
  Holds, node_at, key_found, key_missing, rank_found, taken_out, put_new, put_old,
}
use kube_examples.Uint32Set.Sorted.{SortedUint32Set, add_u32, sub_u32, inner_remove, remove}
use kube_examples.Uint32Set.Sorted.Check.{check_at_level-ok}
use kube_examples.Uint32Set.Sorted.Merge.{raise, Before-lt}
use kube_examples.Uint32Set.Sorted.Models.{
  Stores, Models, snoc, Around, around, Around-Before, Around-After, Around-Before_snoc,
}

sans_absent : (f : ℕ → Bool) (x y : ℕ) → f x ≡ false → f y ≡ (f y && not (y == x))
sans_absent f x y e = elim (Bool-cases (y == x)) [
  | inl same ↦ let at_x : f y ≡ false = ap f ((==_iff y x).0 same) ∙ e in rw at_x
  | inr other ↦ rw other (ground arith)
]

module _ (library : SortedSetLibrary) (u : SortedUint32Set library) (f : ℕ → Bool) (x : ℕ)
    (small : x < two_32) where
  abbrev pub Removed : Bool × SortedUint32Set library → Type 0
  Removed r = (r.0 ≡ f x) × Models library r.1 (λ y. f y && not (y == x))

  abbrev ss : library.SortedSet
  ss = u.sorted_set

  abbrev probed : library.SortedSet
  probed = library.add_or_update ss (hex8 x) x x

  plain_sum : x + 1 < two_32 → add_u32 x 1 ≡ x + 1
  plain_sum h = omega arith

  remove_start :
      (pre : List Run) (b : ℕ) (post : List Run)
      → Stores library u f (pre ++ run x b ∷ post)
      → Returns (inner_remove library u x) Removed
  unfolding inner_remove
  remove_start pre b post s =
      let a = around pre (run x b) post s.proper in
      let below = Around-Before pre (run x b) post a in
      let sans = taken_out library x small ss pre b post s.held below in
      let found = key_found library x small ss pre b post s.held below in
      let members : (y : ℕ) → (covers y pre || (in_run y (run x b) || covers y post)) ≡ f y =
        λ y. sym (covers-append y pre (run x b ∷ post)) ∙ s.members y in
      let inside : f x ≡ true = sym (members x) ∙ ground (arith, a.proper) in
      elim (ℕ_discrete x b) [
        | yes e ↦ (
          (true, record u { sorted_set = library.remove ss (hex8 x) }),
          rw (found, inner_remove) (ground arith),
          (
            sym inside,
            (
              pre ++ post,
              record {
                held = sans;
                proper =
                    IsRuns-append 0 pre post a.front
                      (IsRuns-mono (b + 2) (next 0 pre) post (omega (arith, a.above)) a.back);
                members = λ y.
                    covers-append y pre post
                    ∙ ground (
                      arith,
                      members y,
                      covers_beyond 0 y pre a.front,
                      covers_below (b + 2) y post a.back,
                      a.above,
                    );
              },
            ),
          ),
        )
        | no n ↦ (
          (
            true,
            record u {
              sorted_set =
                  library.add_or_update (library.remove ss (hex8 x)) (hex8 (x + 1)) (x + 1) b;
            },
          ),
          rw (found, inner_remove) (ground (arith, plain_sum (omega (arith, a.proper, a.small)))),
          (
            sym inside,
            (
              pre ++ run (x + 1) b ∷ post,
              record {
                held =
                    put_new library (x + 1) (omega (arith, a.proper, a.small)) _ b pre post sans
                      (Before-lt x (x + 1) pre (omega arith) below)
                      (IsRuns-After (b + 2) (x + 1) post a.back (omega (arith, a.proper)));
                proper =
                    IsRuns-append 0 pre (run (x + 1) b ∷ post) a.front
                      (omega (arith, a.above), omega (arith, a.proper), a.small, a.back);
                members = λ y.
                    covers-append y pre (run (x + 1) b ∷ post)
                    ∙ ground (
                      arith,
                      members y,
                      covers_beyond 0 y pre a.front,
                      covers_below (b + 2) y post a.back,
                      a.above,
                    );
              },
            ),
          ),
        )
      ]

  -- Nothing to remove: the probe is taken out again.
  remove_lowest :
      (rs : List Run)
      → After x rs
      → Stores library u f rs
      → Returns (inner_remove library u x) Removed
  unfolding inner_remove
  remove_lowest rs a s =
      let missing = key_missing library x small ss [] rs s.held tt a in
      let h = put_new library x small ss x [] rs s.held tt a in
      let rank = rank_found library x small _ [] x rs h tt in
      let outside : f x ≡ false =
        sym (s.members x) ∙ covers_below (x + 1) x rs (raise 0 x rs s.proper a) (omega arith) in
      (
        (false, record u { sorted_set = library.remove probed (hex8 x) }),
        rw (missing, inner_remove, rank) (ground arith),
        (
          sym outside,
          (
            rs,
            record {
              held = taken_out library x small probed [] x rs h tt;
              proper = s.proper;
              members = λ y. s.members y ∙ sans_absent f x y outside;
            },
          ),
        ),
      )

  module _ (pre : List Run) (p : Run) (post : List Run) (s : Stores library u f (pre ++ p ∷ post))
      (low : p.first < x) (high : After x post) where
    abbrev parts : Around pre p post
    parts = around pre p post s.proper

    split : Holds library ss ((pre ++ p ∷ []) ++ post)
    split = s.held ∙ ap embed (sym (snoc pre p post))

    before : Before x (pre ++ p ∷ [])
    before = Around-Before_snoc pre p post parts x low

    with_x : Holds library probed ((pre ++ p ∷ []) ++ run x x ∷ post)
    with_x = put_new library x small ss x (pre ++ p ∷ []) post split before high

    probe_rank : library.find_rank probed (hex8 x) ≡ suc (length (pre ++ p ∷ []))
    probe_rank = rank_found library x small probed (pre ++ p ∷ []) x post with_x before

    abbrev restored : library.SortedSet
    restored = library.remove probed (hex8 x)

    restored-Holds : Holds library restored (pre ++ p ∷ post)
    restored-Holds =
        taken_out library x small probed (pre ++ p ∷ []) x post with_x before
        ∙ ap embed (snoc pre p post)

    prev_node : library.get_by_rank restored (suc (length (pre ++ p ∷ [])) - 1) ≡ some (node_of p)
    prev_node =
        ap (library.get_by_rank restored) (omega (arith, length-append pre (p ∷ [])))
        ∙ node_at library restored pre p post restored-Holds

    missing : library.get_by_key ss (hex8 x) ≡ none
    missing = key_missing library x small ss (pre ++ p ∷ []) post split before high

    -- The branch that the code takes, with the node before the number at hand.
    inner_remove-after : inner_remove library u x ≡ (
        let cut = library.add_or_update restored (hex8 p.first) p.first (sub_u32 x 1) in
        let y = add_u32 x 1 in
        if ltb p.last x
        then ok (false, record u { sorted_set = restored })
        else ok (
          true,
          record u {
            sorted_set = if ltb x p.last then library.add_or_update cut (hex8 y) y p.last else cut;
          },
        ))
    unfolding inner_remove
    inner_remove-after =
        rw (missing, inner_remove, probe_rank, prev_node)
          (ground (arith, length-append pre (p ∷ [])))

    membership : (y : ℕ) → (covers y pre || (in_run y p || covers y post)) ≡ f y
    membership y = sym (covers-append y pre (p ∷ post)) ∙ s.members y

    beyond-outside : p.last < x → f x ≡ false
    beyond-outside l =
        sym (membership x)
        ∙ ground (
          arith,
          covers_beyond 0 x pre parts.front,
          parts.above,
          parts.proper,
          covers_below (x + 1) x post (raise (p.last + 2) x post parts.back high),
        )

    remove_beyond : p.last < x → Returns (inner_remove library u x) Removed
    remove_beyond l = (
      (false, record u { sorted_set = restored }),
      inner_remove-after ∙ ground arith,
      (
        sym (beyond-outside l),
        (
          pre ++ p ∷ post,
          record {
            held = restored-Holds;
            proper = s.proper;
            members = λ y. s.members y ∙ sans_absent f x y (beyond-outside l);
          },
        ),
      ),
    )

    abbrev cut : library.SortedSet
    cut = library.add_or_update restored (hex8 p.first) p.first (sub_u32 x 1)

    cut-Holds : Holds library cut (pre ++ run p.first (x - 1) ∷ post)
    cut-Holds =
        let lower : sub_u32 x 1 ≡ x - 1 = omega arith in
        subst
          (λ (v : ℕ).
            Holds library (library.add_or_update restored (hex8 p.first) p.first v)
              (pre ++ run p.first (x - 1) ∷ post))
          (sym lower)
          (put_old library p.first (omega arith) restored (x - 1) p.last pre post restored-Holds
            (Around-Before pre p post parts) (Around-After pre p post parts))

    remove_end : p.last ≡ x → Returns (inner_remove library u x) Removed
    remove_end e =
        let inside : f x ≡ true = sym (membership x) ∙ ground arith in
        (
          (true, record u { sorted_set = cut }),
          inner_remove-after ∙ ground arith,
          (
            sym inside,
            (
              pre ++ run p.first (x - 1) ∷ post,
              record {
                held = cut-Holds;
                proper = IsRuns-append 0 pre (run p.first (x - 1) ∷ post) parts.front (
                  parts.above,
                  omega arith,
                  omega arith,
                  IsRuns-mono (p.last + 2) (x - 1 + 2) post (omega arith) parts.back,
                );
                members = λ y.
                    covers-append y pre (run p.first (x - 1) ∷ post)
                    ∙ ground (
                      arith,
                      membership y,
                      covers_beyond 0 y pre parts.front,
                      parts.above,
                      covers_below (p.last + 2) y post parts.back,
                    );
              },
            ),
          ),
        )

    remove_middle : x < p.last → Returns (inner_remove library u x) Removed
    remove_middle l =
        let inside : f x ≡ true = sym (membership x) ∙ ground arith in
        let plain = plain_sum (omega (arith, parts.small)) in
        let low_part = run p.first (x - 1) in
        let next_part = run (x + 1) p.last in
        let held =
          put_new library (x + 1) (omega (arith, parts.small)) cut p.last (pre ++ low_part ∷ [])
            post (cut-Holds ∙ ap embed (sym (snoc pre low_part post)))
            (Before_low (x + 1) pre p (omega arith) (Around-Before pre p post parts))
            (IsRuns-After (p.last + 2) (x + 1) post parts.back (omega arith)) in
        (
          (true, record u { sorted_set = library.add_or_update cut (hex8 (x + 1)) (x + 1) p.last }),
          inner_remove-after ∙ ground (arith, plain),
          (
            sym inside,
            (
              pre ++ low_part ∷ next_part ∷ post,
              record {
                held = held ∙ ap embed (snoc pre low_part (next_part ∷ post));
                proper = IsRuns-append 0 pre (low_part ∷ next_part ∷ post) parts.front (
                  parts.above,
                  omega arith,
                  omega arith,
                  (omega arith, omega arith, parts.small, parts.back),
                );
                members = λ y.
                    covers-append y pre (low_part ∷ next_part ∷ post)
                    ∙ ground (
                      arith,
                      membership y,
                      covers_beyond 0 y pre parts.front,
                      parts.above,
                      covers_below (p.last + 2) y post parts.back,
                    );
              },
            ),
          ),
        )
      where
        Before_low :
            (z : ℕ) (qs : List Run) (r : Run)
            → r.first < z
            → Before r.first qs
            → Before z (qs ++ run r.first (x - 1) ∷ [])
        Before_low z [] r k b = (k, tt)
        Before_low z (q ∷ qs) r k b = (omega arith, Before_low z qs r k b.1)

    remove_after : Returns (inner_remove library u x) Removed
    remove_after = elim (dec_lt p.last x) [
      | yes l ↦ remove_beyond l
      | no l ↦ elim (ℕ_discrete p.last x) [
        | yes e ↦ remove_end e
        | no n ↦ remove_middle (omega arith)
      ]
    ]

  remove_at :
      (rs : List Run)
      → Stores library u f rs
      → Place x rs
      → Returns (inner_remove library u x) Removed
  remove_at rs s (start_of pre b post e) = remove_start pre b post (subst (Stores library u f) e s)
  remove_at rs s (lowest a) = remove_lowest rs a s
  remove_at rs s (after pre p post e l a) =
      remove_after pre p post (subst (Stores library u f) e s) l a

  -- `Remove` of a 32-bit number does not panic, at any checking level: it says whether the number
  -- was in the set, and leaves a valid set whose members are the others.
  pub remove-Models : Models library u f → Returns (remove library u x) Removed
  unfolding remove
  remove-Models (rs, s) =
      let (r, e, (t, (rs', s'))) = remove_at rs s (place 0 x rs s.proper) in
      (
        r,
        rw (e, remove) (rw (check_at_level-ok library _ r.1 rs' refl s'.held s'.proper)),
        (t, (rs', s')),
      )
