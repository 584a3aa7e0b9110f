-- ===== src/Ovs/Fabric/Locks.antt =====
-- What the operations on interfaces do to the locked pairs of a VNI and an address.
use kube_examples.Common.{
  ℕ, ◌≡◌, ◌⊎◌, refl, sym, ap, ◌∙◌, arith, Bool, true, false, not, ◌&&◌, ◌||◌, Option, none, some,
  List, [], ◌∷◌, ok, ◌>>=◌, Returns, Bool-cases, inl, inr,
}
use kube_examples.GoText.{Text}
use kube_examples.Util.{make_uint32_from_ipv4}
use kube_examples.Ovs.Commands.{Cmd}
use kube_examples.Ovs.Parsing.{LocalNetIfc, RemoteNetIfc}
use kube_examples.Ovs.Fabric.{
  CmdResult, VniAndIp, OvsFabric, OvsError, already_locked, same_pair, is_locked, unlock, lock_pair,
  lock_vni_ip_pair, unlock_pair, unlock_vni_ip_pair, set_up_local, add_remote_ifc_flows,
  tear_down_local, delete_remote_ifc_flows, unlock_on_error, with_lock, then_unlock,
  create_local_ifc, create_remote_ifc, delete_local_ifc, delete_remote_ifc,
}
use kube_examples.Ovs.Fabric.Keeps.{
  Alike, set_up_local-Alike, add_remote_ifc_flows-Alike, tear_down_local-Alike,
  delete_remote_ifc_flows-Alike,
}

-- The pairs that are locked, as a set.
abbrev pub Locks : Type 0
Locks = VniAndIp → Bool

abbrev pub with_pair : Locks → VniAndIp → Locks
with_pair l q = λ p. l p || same_pair p q

abbrev pub without_pair : Locks → VniAndIp → Locks
without_pair l q = λ p. l p && not (same_pair p q)

abbrev pub Holds : OvsFabric → Locks → Type 0
Holds f l = (p : VniAndIp) → is_locked f.locked_vni_ip_pairs p ≡ l p

Alike-Holds : (f g : OvsFabric) (l : Locks) → Alike f g → Holds f l → Holds g l
Alike-Holds f g l a h p = ap (λ pairs. is_locked pairs p) a ∙ h p

is_locked-unlock :
    (pairs : List VniAndIp) (q p : VniAndIp)
    → is_locked (unlock pairs q) p ≡ (is_locked pairs p && not (same_pair p q))
unfolding is_locked unlock
is_locked-unlock [] q p = refl
is_locked-unlock (r ∷ pairs) q p = ground (arith, is_locked-unlock pairs q p)

is_locked-same :
    (pairs : List VniAndIp) (q p : VniAndIp)
    → same_pair p q ≡ true
    → is_locked pairs p ≡ is_locked pairs q
unfolding is_locked
is_locked-same [] q p h = refl
is_locked-same (r ∷ pairs) q p h = ground (arith, is_locked-same pairs q p h)

unlock_pair-Holds :
    (f : OvsFabric) (l : Locks) (q : VniAndIp)
    → Holds f l
    → Holds (unlock_pair f q) (without_pair l q)
unfolding unlock_pair
unlock_pair-Holds f l q h p =
    is_locked-unlock f.locked_vni_ip_pairs q p ∙ ap (λ b. b && not (same_pair p q)) (h p)

Holds-same : (f : OvsFabric) (l k : Locks) → ((p : VniAndIp) → l p ≡ k p) → Holds f l → Holds f k
Holds-same f l k e h p = h p ∙ e p

-- A pair was locked: it was free, and is not now. Or it is an error, and the locked pairs are those
-- of before.
abbrev pub Locked : Locks → VniAndIp → Option OvsError × OvsFabric → Type 0
Locked l q r =
    ((r.0 ≡ none) × (l q ≡ false) × Holds r.1 (with_pair l q))
    ⊎ ((e : OvsError) × (r.0 ≡ some e) × Holds r.1 l)

-- A pair was unlocked, or it is an error and the locked pairs are those of before.
abbrev pub Unlocked : Locks → VniAndIp → Option OvsError × OvsFabric → Type 0
Unlocked l q r =
    ((r.0 ≡ none) × Holds r.1 (without_pair l q)) ⊎ ((e : OvsError) × (r.0 ≡ some e) × Holds r.1 l)

lock_pair-Locked :
    (f : OvsFabric) (l : Locks) (q : VniAndIp) → Holds f l → Locked l q (lock_pair f q)
unfolding lock_pair is_locked
lock_pair-Locked f l q h = elim (Bool-cases (is_locked f.locked_vni_ip_pairs q)) [
  | inl e ↦ rw (lock_pair, e) (inr (already_locked q, refl, h))
  | inr e ↦ rw (lock_pair, e) (inl (refl, sym (h q) ∙ e, λ p. ground (arith, h p)))
]

-- Locking and unlocking a free pair leaves the locked pairs as they were.
back :
    (l : Locks) (q p : VniAndIp)
    → ((p : VniAndIp) → same_pair p q ≡ true → l p ≡ l q)
    → l q ≡ false
    → without_pair (with_pair l q) q p ≡ l p
back l q p s h = elim (Bool-cases (same_pair p q)) [
  | inl e ↦ ground (arith, s p e)
  | inr e ↦ ground arith
]

module _ (ovs : List Cmd → Cmd → CmdResult) (ip_string : List ℕ → Text) (f : OvsFabric) (l : Locks)
    (h : Holds f l) where
  -- Locks are of pairs, not of the values that stand for them.
  same_lock : (q p : VniAndIp) → same_pair p q ≡ true → l p ≡ l q
  same_lock q p e = sym (h p) ∙ is_locked-same f.locked_vni_ip_pairs q p e ∙ h q

  module _ (vni : ℕ) (ip : List ℕ) (addr : ℕ) (whole : make_uint32_from_ipv4 ip ≡ ok addr) where
    abbrev pub pair : VniAndIp
    pair = record { vni = vni; ip = addr }

    unlock_on_error-Locked :
        (g : OvsFabric) (work : OvsFabric → Option OvsError × OvsFabric)
        → l pair ≡ false
        → Holds g (with_pair l pair)
        → Alike g (work g).1
        → Returns (unlock_on_error ovs ip_string (work g) vni ip) (Locked l pair)
    unfolding unlock_on_error unlock_vni_ip_pair
    unlock_on_error-Locked g work free held keeps = go (work g) keeps
      where
        go :
            (r : Option OvsError × OvsFabric)
            → Alike g r.1
            → Returns (unlock_on_error ovs ip_string r vni ip) (Locked l pair)
        go (none, k) a =
            ((none, k), refl, inl (refl, free, Alike-Holds g k (with_pair l pair) a held))
        go (some e, k) a = (
          (some e, unlock_pair k pair),
          rw (unlock_on_error, unlock_vni_ip_pair, whole) refl,
          inr (
            e,
            refl,
            Holds-same (unlock_pair k pair) (without_pair (with_pair l pair) pair) l
                (λ p. back l pair p (same_lock pair) free)
                (unlock_pair-Holds k (with_pair l pair) pair
                  (Alike-Holds g k (with_pair l pair) a held)),
          ),
        )

    with_lock-Locked :
        (work : OvsFabric → Option OvsError × OvsFabric)
        → ((g : OvsFabric) → Alike g (work g).1)
        → Returns
            (lock_vni_ip_pair f vni ip >>= λ r. with_lock ovs ip_string work r vni ip)
            (Locked l pair)
    unfolding lock_vni_ip_pair with_lock
    with_lock-Locked work keeps =
        rw (lock_vni_ip_pair, whole) (go (lock_pair f pair) (lock_pair-Locked f l pair h))
      where
        go :
            (r : Option OvsError × OvsFabric)
            → Locked l pair r
            → Returns (with_lock ovs ip_string work r vni ip) (Locked l pair)
        go (none, g) (inl (e, free, held)) = unlock_on_error-Locked g work free held (keeps g)
        go (some x, g) (inl (e, free, held)) = ground arith
        go (none, g) (inr (x, e, held)) = ground arith
        go (some y, g) (inr (x, e, held)) = ((some y, g), refl, inr (x, e, held))

    then_unlock-Unlocked :
        (r : Option OvsError × OvsFabric)
        → Alike f r.1
        → Returns (then_unlock ovs ip_string r vni ip) (Unlocked l pair)
    unfolding then_unlock unlock_vni_ip_pair
    then_unlock-Unlocked (some e, g) a = ((some e, g), refl, inr (e, refl, Alike-Holds f g l a h))
    then_unlock-Unlocked (none, g) a = (
      (none, unlock_pair g pair),
      rw (then_unlock, unlock_vni_ip_pair, whole) refl,
      inl (refl, unlock_pair-Holds g l pair (Alike-Holds f g l a h)),
    )

  -- The pair of an interface whose IP address has a number.
  module _ (ifc : LocalNetIfc) (addr : ℕ)
      (whole : make_uint32_from_ipv4 ifc.guest_ip ≡ ok addr) where
    pub create_local_ifc-Locked :
        Returns
          (create_local_ifc ovs ip_string f ifc)
          (Locked l (record { vni = ifc.vni; ip = addr }))
    unfolding create_local_ifc
    create_local_ifc-Locked =
        with_lock-Locked ifc.vni ifc.guest_ip addr whole (λ g. set_up_local ovs ip_string g ifc)
          (λ g. set_up_local-Alike ovs ip_string g ifc)

    pub delete_local_ifc-Unlocked :
        Returns
          (delete_local_ifc ovs ip_string f ifc)
          (Unlocked l (record { vni = ifc.vni; ip = addr }))
    unfolding delete_local_ifc
    delete_local_ifc-Unlocked =
        then_unlock-Unlocked ifc.vni ifc.guest_ip addr whole (tear_down_local ovs ip_string f ifc)
          (tear_down_local-Alike ovs ip_string f ifc)

  module _ (ifc : RemoteNetIfc) (addr : ℕ)
      (whole : make_uint32_from_ipv4 ifc.guest_ip ≡ ok addr) where
    pub create_remote_ifc-Locked :
        Returns
          (create_remote_ifc ovs ip_string f ifc)
          (Locked l (record { vni = ifc.vni; ip = addr }))
    unfolding create_remote_ifc
    create_remote_ifc-Locked =
        with_lock-Locked ifc.vni ifc.guest_ip addr whole
          (λ g. add_remote_ifc_flows ovs ip_string g ifc)
          (λ g. add_remote_ifc_flows-Alike ovs ip_string g ifc)

    pub delete_remote_ifc-Unlocked :
        Returns
          (delete_remote_ifc ovs ip_string f ifc)
          (Unlocked l (record { vni = ifc.vni; ip = addr }))
    unfolding delete_remote_ifc
    delete_remote_ifc-Unlocked =
        then_unlock-Unlocked ifc.vni ifc.guest_ip addr whole
          (delete_remote_ifc_flows ovs ip_string f ifc)
          (delete_remote_ifc_flows-Alike ovs ip_string f ifc)
