-- ===== src/Ovs/Fabric/History.antt =====
-- Any sequence of operations on the interfaces of a fabric.
use kube_examples.Common.{
  ℕ, ◌≡◌, ◌≤◌, length, refl, arith, Bool, true, false, Option, none, some, List, [], ◌∷◌, All, Go,
  ok, ◌>>=◌, Returns, inl, inr,
}
use kube_examples.GoText.{Text}
use kube_examples.Util.{make_uint32_from_ipv4}
use kube_examples.Util.Laws.{make_uint32_from_ipv4_long}
use kube_examples.Ovs.Commands.{Cmd}
use kube_examples.Ovs.Parsing.{LocalNetIfc, RemoteNetIfc}
use kube_examples.Ovs.Fabric.{
  CmdResult, VniAndIp, OvsFabric, OvsError, create_local_ifc, create_remote_ifc, delete_local_ifc,
  delete_remote_ifc,
}
use kube_examples.Ovs.Fabric.Locks.{
  Locks, with_pair, without_pair, Holds, Locked, Unlocked, create_local_ifc-Locked,
  delete_local_ifc-Unlocked, create_remote_ifc-Locked, delete_remote_ifc-Unlocked,
}

pub data FabricOp : Type 0 where
  create_local : LocalNetIfc → FabricOp
  delete_local : LocalNetIfc → FabricOp
  create_remote : RemoteNetIfc → FabricOp
  delete_remote : RemoteNetIfc → FabricOp

abbrev pub vni_of : FabricOp → ℕ
vni_of (create_local ifc) = ifc.vni
vni_of (delete_local ifc) = ifc.vni
vni_of (create_remote ifc) = ifc.vni
vni_of (delete_remote ifc) = ifc.vni

abbrev pub guest_ip_of_op : FabricOp → List ℕ
guest_ip_of_op (create_local ifc) = ifc.guest_ip
guest_ip_of_op (delete_local ifc) = ifc.guest_ip
guest_ip_of_op (create_remote ifc) = ifc.guest_ip
guest_ip_of_op (delete_remote ifc) = ifc.guest_ip

abbrev pub creates : FabricOp → Bool
creates (create_local ifc) = true
creates (delete_local ifc) = false
creates (create_remote ifc) = true
creates (delete_remote ifc) = false

-- The IP address has at least four bytes.
abbrev pub IsLong : FabricOp → Type 0
IsLong op = 4 ≤ length (guest_ip_of_op op)

-- The IP address has a number.
abbrev HasNumber : FabricOp → Type 0
HasNumber op = (addr : ℕ) × (make_uint32_from_ipv4 (guest_ip_of_op op) ≡ ok addr)

abbrev pair_of : (op : FabricOp) → HasNumber op → VniAndIp
pair_of op n = record { vni = vni_of op; ip = n.0 }

abbrev pub numbers : (ops : List FabricOp) → All IsLong ops → All HasNumber ops
numbers [] long = tt
numbers (op ∷ ops) long =
    (make_uint32_from_ipv4_long (guest_ip_of_op op) long.0, numbers ops long.1)

module _ (ovs : List Cmd → Cmd → CmdResult) (ip_string : List ℕ → Text) where
  unfoldable pub run_op : OvsFabric → FabricOp → Go (Option OvsError × OvsFabric)
  run_op f (create_local ifc) = create_local_ifc ovs ip_string f ifc
  run_op f (delete_local ifc) = delete_local_ifc ovs ip_string f ifc
  run_op f (create_remote ifc) = create_remote_ifc ovs ip_string f ifc
  run_op f (delete_remote ifc) = delete_remote_ifc ovs ip_string f ifc

  -- The operations one after another, with the errors that they return.
  unfoldable pub run_ops : OvsFabric → List FabricOp → Go (List (Option OvsError) × OvsFabric)
  run_ops f [] = ok ([], f)
  run_ops f (op ∷ ops) = do (err, g) ← run_op f op; (errs, k) ← run_ops g ops; ok (err ∷ errs, k)

  -- One operation: a creation without an error takes a pair that was free, a deletion without an
  -- error gives the pair back, and with an error the locked pairs stay.
  abbrev pub Done : Locks → FabricOp → VniAndIp → Option OvsError → Locks → Type 0
  Done l op q (some e) k = (p : VniAndIp) → k p ≡ l p
  Done l op q none k = elim (creates op) [
    | true ↦ (l q ≡ false) × ((p : VniAndIp) → k p ≡ with_pair l q p)
    | false ↦ (p : VniAndIp) → k p ≡ without_pair l q p
  ]

  -- What the errors and the locked pairs in the end say of the locked pairs at the start.
  abbrev pub Lived :
      Locks → (ops : List FabricOp) → All HasNumber ops → List (Option OvsError) → Locks → Type 0
  Lived l [] ns [] k = (p : VniAndIp) → k p ≡ l p
  Lived l [] ns (err ∷ errs) k = ⊥
  Lived l (op ∷ ops) ns [] k = ⊥
  Lived l (op ∷ ops) ns (err ∷ errs) k =
      (m : Locks) × Done l op (pair_of op ns.0) err m × Lived m ops ns.1 errs k

  created-Done :
      (l : Locks) (op : FabricOp) (q : VniAndIp)
      → creates op ≡ true
      → (r : Option OvsError × OvsFabric) → Locked l q r
      → (m : Locks) × Done l op q r.0 m × Holds r.1 m
  created-Done l op q c (none, g) (inl (e, free, h)) =
      (with_pair l q, rw (Done, c) (free, λ p. refl), h)
  created-Done l op q c (none, g) (inr (x, e, h)) = ground arith
  created-Done l op q c (some y, g) (inl (e, free, h)) = ground arith
  created-Done l op q c (some y, g) (inr (x, e, h)) = (l, (λ p. refl), h)

  deleted-Done :
      (l : Locks) (op : FabricOp) (q : VniAndIp)
      → creates op ≡ false
      → (r : Option OvsError × OvsFabric) → Unlocked l q r
      → (m : Locks) × Done l op q r.0 m × Holds r.1 m
  deleted-Done l op q c (none, g) (inl (e, h)) = (without_pair l q, rw (Done, c) (λ p. refl), h)
  deleted-Done l op q c (none, g) (inr (x, e, h)) = ground arith
  deleted-Done l op q c (some y, g) (inl (e, h)) = ground arith
  deleted-Done l op q c (some y, g) (inr (x, e, h)) = (l, (λ p. refl), h)

  run_op-Done :
      (f : OvsFabric) (l : Locks) (op : FabricOp) (n : HasNumber op)
      → Holds f l
      → Returns (run_op f op) (λ r. (m : Locks) × Done l op (pair_of op n) r.0 m × Holds r.1 m)
  unfolding run_op
  run_op-Done f l (create_local ifc) n h =
      let (r, e, c) = create_local_ifc-Locked ovs ip_string f l h ifc n.0 n.1 in
      (r, e, created-Done l (create_local ifc) _ refl r c)
  run_op-Done f l (delete_local ifc) n h =
      let (r, e, c) = delete_local_ifc-Unlocked ovs ip_string f l h ifc n.0 n.1 in
      (r, e, deleted-Done l (delete_local ifc) _ refl r c)
  run_op-Done f l (create_remote ifc) n h =
      let (r, e, c) = create_remote_ifc-Locked ovs ip_string f l h ifc n.0 n.1 in
      (r, e, created-Done l (create_remote ifc) _ refl r c)
  run_op-Done f l (delete_remote ifc) n h =
      let (r, e, c) = delete_remote_ifc-Unlocked ovs ip_string f l h ifc n.0 n.1 in
      (r, e, deleted-Done l (delete_remote ifc) _ refl r c)

  run_ops_by_number :
      (f : OvsFabric) (l : Locks) (ops : List FabricOp) (ns : All HasNumber ops)
      → Holds f l
      → Returns (run_ops f ops) (λ r. (k : Locks) × Lived l ops ns r.0 k × Holds r.1 k)
  unfolding run_ops
  run_ops_by_number f l [] ns h = (([], f), refl, (l, (λ p. refl), h))
  run_ops_by_number f l (op ∷ ops) ns h =
      let ((err, g), e, (m, d, held)) = run_op-Done f l op ns.0 h in
      let ((errs, j), e', (k, lived, in_the_end)) = run_ops_by_number g m ops ns.1 held in
      ((err ∷ errs, j), rw (run_ops, e, e') refl, (k, (m, d, lived), in_the_end))

  -- Any sequence of operations on interfaces whose IP addresses have at least four bytes ends without
  -- a panic, whatever Open vSwitch answers. Each creation without an error takes a pair of a VNI and
  -- an address that was not locked, each deletion without an error unlocks its pair, and an operation
  -- with an error leaves the locked pairs as they were: so the locked pairs of the fabric are those
  -- that the errors returned say.
  pub run_ops-Lived :
      (f : OvsFabric) (l : Locks) (ops : List FabricOp) (long : All IsLong ops)
      → Holds f l
      → Returns
          (run_ops f ops)
          (λ r. (k : Locks) × Lived l ops (numbers ops long) r.0 k × Holds r.1 k)
  run_ops-Lived f l ops long h = run_ops_by_number f l ops (numbers ops long) h
