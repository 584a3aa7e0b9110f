-- ===== src/Uint32Set/Sorted/Add.antt =====
-- staging/kos/pkg/uint32set/sortedset.go: `Add` never panics, and adds its number to the set.
use kube_examples.Common.{
  ℕ, suc, ◌+◌, ◌-◌, ◌≤◌, ◌<◌, ◌≡◌, ◌≢◌, sym, ap, ◌∙◌, Bool, true, false, ◌||◌, none, some, List, [],
  ◌∷◌, ◌++◌, arith, ◌==◌, length, length-append, two_32, Returns, not, subst, dec_lt, ℕ_discrete,
}
use kube_examples.Uint32Set.Keys.{hex8}
use kube_examples.Uint32Set.Library.{SortedSetLibrary}
use kube_examples.Uint32Set.Runs.{
  Run, run, node_of, embed, IsRuns, covers, in_run, IsRuns-append, Before, After, covers-append,
  covers_below, covers_beyond, Place, start_of, lowest, after, place,
}
use kube_examples.Uint32Set.Contents.{
  Holds, node_at, key_found, key_missing, rank_found, taken_out, put_new,
}
use kube_examples.Uint32Set.Sorted.{SortedUint32Set, add}
use kube_examples.Uint32Set.Sorted.Merge.{
  raise, or_member, grown, grown_end, grown_rest, Grown, merge_alone, merge_prev,
  merge_and_check-ok,
}
use kube_examples.Uint32Set.Sorted.Models.{
  Stores, Models, snoc, Around, around, Around-Before, Around-After, Around-Before_snoc,
}

module _ (library : SortedSetLibrary) (u : SortedUint32Set library) (f : ℕ → Bool) (x : ℕ)
    (small : x < two_32) where
  abbrev pub Added : Bool × SortedUint32Set library → Type 0
  Added r = (r.0 ≡ not (f x)) × Models library r.1 (λ y. f y || y == x)

  abbrev probed : SortedUint32Set library
  probed = record u { sorted_set = library.add_or_update u.sorted_set (hex8 x) x x }

  -- The number starts a run.
  add_start :
      (pre : List Run) (b : ℕ) (post : List Run)
      → Stores library u f (pre ++ run x b ∷ post)
      → Returns (add library u x) Added
  unfolding add
  add_start pre b post s =
      let a = around pre (run x b) post s.proper in
      let inside : f x ≡ true =
        sym (s.members x) ∙ covers-append x pre (run x b ∷ post) ∙ ground (arith, a.proper) in
      (
        (false, u),
        rw (key_found library x small u.sorted_set pre b post s.held (Around-Before pre _ post a)),
        (
          rw inside,
          (
            pre ++ run x b ∷ post,
            record {
              held = s.held;
              proper = s.proper;
              members = λ y. s.members y ∙ or_member f x y inside;
            },
          ),
        ),
      )

  -- All runs are above the number.
  add_lowest :
      (rs : List Run) → After x rs → Stores library u f rs → Returns (add library u x) Added
  unfolding add
  add_lowest rs a s =
      let missing = key_missing library x small u.sorted_set [] rs s.held tt a in
      let h = put_new library x small u.sorted_set x [] rs s.held tt a in
      let rank = rank_found library x small _ [] x rs h tt in
      let i = raise 0 x rs s.proper a in
      let g = grown x rs small i in
      let (r, e, (t, h')) =
        merge_and_check-ok library probed x small 1 none false
          (run x (grown_end x rs) ∷ grown_rest x rs)
          (merge_alone library probed x small [] rs none h tt a)
          (omega arith, g.proper, g.small, g.back) in
      let outside : f x ≡ false = sym (s.members x) ∙ covers_below (x + 1) x rs i (omega arith) in
      (
        r,
        rw (missing, rank) e,
        (
          rw (t, outside),
          (
            run x (grown_end x rs) ∷ grown_rest x rs,
            record {
              held = h';
              proper = (omega arith, g.proper, g.small, g.back);
              members = λ y. g.members y ∙ rw (s.members y);
            },
          ),
        ),
      )

  module _ (pre : List Run) (p : Run) (post : List Run) (s : Stores library u f (pre ++ p ∷ post))
      (low : p.first < x) (high : After x post) where
    abbrev parts : Around pre p post
    parts = around pre p post s.proper

    split : Holds library u.sorted_set ((pre ++ p ∷ []) ++ post)
    split = s.held ∙ ap embed (sym (snoc pre p post))

    before : Before x (pre ++ p ∷ [])
    before = Around-Before_snoc pre p post parts x low

    with_x : Holds library probed.sorted_set ((pre ++ p ∷ []) ++ run x x ∷ post)
    with_x = put_new library x small u.sorted_set x (pre ++ p ∷ []) post split before high

    probe_rank : library.find_rank probed.sorted_set (hex8 x) ≡ suc (length (pre ++ p ∷ []))
    probe_rank = rank_found library x small probed.sorted_set (pre ++ p ∷ []) x post with_x before

    prev_node :
        library.get_by_rank probed.sorted_set (suc (length (pre ++ p ∷ [])) - 1) ≡ some (node_of p)
    prev_node =
        ap (library.get_by_rank probed.sorted_set) (omega (arith, length-append pre (p ∷ [])))
        ∙ node_at library probed.sorted_set pre p (run x x ∷ post)
            (with_x ∙ ap embed (snoc pre p (run x x ∷ post)))

    membership : (y : ℕ) → (covers y pre || (in_run y p || covers y post)) ≡ f y
    membership y = sym (covers-append y pre (p ∷ post)) ∙ s.members y

    -- Inside the run before it.
    add_inside : x ≤ p.last → Returns (add library u x) Added
    unfolding add
    add_inside l =
        let inside : f x ≡ true = sym (membership x) ∙ ground arith in
        (
          (false, record u { sorted_set = library.remove probed.sorted_set (hex8 x) }),
          rw
              (
                key_missing library x small u.sorted_set (pre ++ p ∷ []) post split before high,
                probe_rank,
                prev_node,
              )
              (ground (arith, length-append pre (p ∷ []))),
          (
            rw inside,
            (
              pre ++ p ∷ post,
              record {
                held =
                    taken_out library x small probed.sorted_set (pre ++ p ∷ []) x post with_x before
                    ∙ ap embed (snoc pre p post);
                proper = s.proper;
                members = λ y. s.members y ∙ or_member f x y inside;
              },
            ),
          ),
        )

    module _ (beyond : p.last < x) where
      behind : IsRuns (x + 1) post
      behind = raise (p.last + 2) x post parts.back high

      outside : f x ≡ false
      outside =
          sym (membership x)
          ∙ ground (
            arith,
            covers_beyond 0 x pre parts.front,
            parts.above,
            parts.proper,
            covers_below (x + 1) x post behind,
          )

      growth : Grown x post (grown_end x post) (grown_rest x post)
      growth = grown x post small behind

      abbrev joined : List Run
      joined = pre ++ run p.first (grown_end x post) ∷ grown_rest x post

      joined_members : p.last + 1 ≡ x → (y : ℕ) → covers y joined ≡ (f y || y == x)
      joined_members e y =
          covers-append y pre (run p.first (grown_end x post) ∷ grown_rest x post)
          ∙ ground (arith, growth.members y, membership y, growth.proper, parts.proper)

      abbrev apart : List Run
      apart = (pre ++ p ∷ []) ++ run x (grown_end x post) ∷ grown_rest x post

      apart_members : (y : ℕ) → covers y apart ≡ (f y || y == x)
      apart_members y =
          ap (covers y) (snoc pre p (run x (grown_end x post) ∷ grown_rest x post))
          ∙ covers-append y pre (p ∷ run x (grown_end x post) ∷ grown_rest x post)
          ∙ ground (arith, growth.members y, membership y)

      add_joined : p.last + 1 ≡ x → Returns (add library u x) Added
      unfolding add
      add_joined e =
          let i : IsRuns 0 joined =
            IsRuns-append 0 pre (run p.first (grown_end x post) ∷ grown_rest x post) parts.front (
              parts.above,
              omega (arith, growth.proper, parts.proper),
              growth.small,
              growth.back,
            ) in
          let (r, ran, (t, h)) =
            merge_and_check-ok library probed x small (suc (length (pre ++ p ∷ [])))
              (some (node_of p)) true joined
              (merge_prev library probed x small pre p post with_x (Around-Before pre p post parts)
                high before (omega arith) (Around-After pre p post parts))
              i in
          (
            r,
            rw
                (
                  key_missing library x small u.sorted_set (pre ++ p ∷ []) post split before high,
                  probe_rank,
                  prev_node,
                )
                (ground (arith, length-append pre (p ∷ []), ran)),
            (
              rw (t, outside),
              (joined, record { held = h; proper = i; members = joined_members e }),
            ),
          )

      add_apart : p.last + 1 ≢ x → Returns (add library u x) Added
      unfolding add
      add_apart n =
          let i : IsRuns 0 apart =
            subst (IsRuns 0) (sym (snoc pre p (run x (grown_end x post) ∷ grown_rest x post))) (
              IsRuns-append 0 pre (p ∷ run x (grown_end x post) ∷ grown_rest x post) parts.front (
                parts.above,
                parts.proper,
                parts.small,
                (omega arith, growth.proper, growth.small, growth.back),
              )) in
          let (r, ran, (t, h)) =
            merge_and_check-ok library probed x small (suc (length (pre ++ p ∷ [])))
              (some (node_of p)) false apart
              (merge_alone library probed x small (pre ++ p ∷ []) post (some (node_of p)) with_x
                before high)
              i in
          (
            r,
            rw
                (
                  key_missing library x small u.sorted_set (pre ++ p ∷ []) post split before high,
                  probe_rank,
                  prev_node,
                )
                (ground (arith, length-append pre (p ∷ []), ran)),
            (rw (t, outside), (apart, record { held = h; proper = i; members = apart_members })),
          )

    add_after : Returns (add library u x) Added
    add_after = elim (dec_lt p.last x) [
      | no inside ↦ add_inside (omega arith)
      | yes beyond ↦ elim (ℕ_discrete (p.last + 1) x) [
        | yes e ↦ add_joined beyond e
        | no n ↦ add_apart beyond n
      ]
    ]

  add_at : (rs : List Run) → Stores library u f rs → Place x rs → Returns (add library u x) Added
  add_at rs s (start_of pre b post e) = add_start pre b post (subst (Stores library u f) e s)
  add_at rs s (lowest a) = add_lowest rs a s
  add_at rs s (after pre p post e l a) = add_after pre p post (subst (Stores library u f) e s) l a

  -- `Add` of a 32-bit number does not panic, at any checking level: it says whether the number is
  -- new, and leaves a valid set whose members are the old ones and that number.
  pub add-Models : Models library u f → Returns (add library u x) Added
  add-Models (rs, s) = add_at rs s (place 0 x rs s.proper)
