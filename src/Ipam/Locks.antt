-- ===== src/Ipam/Locks.antt =====
-- The parsed locks of staging/kos/pkg/controllers/ipam/ipam.go and lists of them: ParsedLock,
-- NewParsedLock, ParsedLockList and the owner references that locks are indexed by.
pub mod Best
pub mod Membership
use kube_examples.Common.{
  ℕ, zero, suc, Bool, true, false, ◌||◌, ◌&&◌, Option, none, some, List, [], ◌≡◌, ◌⊎◌, ◌∷◌, ◌++◌,
  ltb, leb, ◌==◌, not, if◌then◌else◌, length, ◌<◌,
}
use kube_examples.GoNet.{IPv4}
use kube_examples.GoText.{Text, text_eq}
use kube_examples.Ipam.LockName.{parse_ip_lock_name, uint32_to_ipv4}

-- `OwnerReference` of the Kubernetes API, with `Controller` as an optional Boolean.
pub record OwnerReference : Type 0 where
  pub kind : Text
  pub name : Text
  pub uid : Text
  pub controller : Option Bool

-- `IPLock`, the parts that the controller reads. `creation_timestamp` counts from the zero time.
pub record IpLock : Type 0 where
  pub namespace : Text
  pub name : Text
  pub uid : Text
  pub creation_timestamp : ℕ
  pub owner_references : List OwnerReference

-- `ParsedLock`.
pub record ParsedLock : Type 0 where
  pub ns : Text
  pub name : Text
  pub vni : ℕ
  pub addr_u : ℕ
  pub uid : Text
  pub creation_time : ℕ
  pub obj : Option IpLock

-- `zeroParsedLock`, the zero value.
unfoldable pub zero_parsed_lock : ParsedLock
zero_parsed_lock = record {
  ns = [];
  name = [];
  vni = 0;
  addr_u = 0;
  uid = [];
  creation_time = 0;
  obj = none;
}

-- `NewParsedLock`, or an error.
unfoldable pub new_parsed_lock : IpLock → Option ParsedLock
new_parsed_lock ipl = elim (parse_ip_lock_name ipl.name) [
  | none ↦ none
  | some place ↦ some record {
    ns = ipl.namespace;
    name = ipl.name;
    vni = place.0;
    addr_u = place.1;
    uid = ipl.uid;
    creation_time = ipl.creation_timestamp;
    obj = some ipl;
  }
]

-- `GetIP`.
unfoldable pub get_ip : ParsedLock → IPv4
get_ip x = uint32_to_ipv4 x.addr_u

-- `Equal`.
unfoldable pub equal : ParsedLock → ParsedLock → Bool
equal x y =
    x.vni == y.vni
    && text_eq x.uid y.uid
    && x.creation_time == y.creation_time
    && x.addr_u == y.addr_u

-- Whether `strings.Compare(s, t) > 0`: `s` comes behind `t` in the order of the dictionary.
unfoldable pub text_behind : Text → Text → Bool
text_behind [] t = false
text_behind (c ∷ s) [] = true
text_behind (c ∷ s) (d ∷ t) = let rest = text_behind s t in if c == d then rest else ltb d c

-- `IsBetterThan`.
unfoldable pub is_better_than : ParsedLock → ParsedLock → Bool
is_better_than x y =
    if not (x.creation_time == y.creation_time)
    then ltb x.creation_time y.creation_time
    else text_behind x.uid y.uid

-- `Best`: the loop over `list[1:]`.
unfoldable pub best_of : ParsedLock → List ParsedLock → ParsedLock
best_of ans [] = ans
best_of ans (elt ∷ list) = best_of (if is_better_than elt ans then elt else ans) list

-- `Best`.
unfoldable pub best : List ParsedLock → ParsedLock
best [] = zero_parsed_lock
best (first ∷ list) = best_of first list

-- `Has`.
unfoldable pub has : List ParsedLock → ParsedLock → Bool
has [] elt = false
has (x ∷ list) elt = let rest = has list elt in if equal x elt then true else rest

-- `AddFunc`: the list with the element and whether that is a change. The loop of it is `Has`'s.
unfoldable pub add_func : List ParsedLock → ParsedLock → List ParsedLock × Bool
add_func list elt = if has list elt then (list, false) else (list ++ elt ∷ [], true)

-- `AddListFunc`: the loop over `list2`.
unfoldable pub add_list_from : List ParsedLock → Bool → List ParsedLock → List ParsedLock × Bool
add_list_from with_ diff [] = (with_, diff)
add_list_from with_ diff (elt ∷ list2) =
    let step = add_func with_ elt in add_list_from step.0 (diff || step.1) list2

-- `AddListFunc`.
unfoldable pub add_list_func : List ParsedLock → List ParsedLock → List ParsedLock × Bool
add_list_func list list2 = add_list_from list false list2

-- `RemFunc`: the loop, with the elements passed.
unfoldable pub rem_from : List ParsedLock → List ParsedLock → ParsedLock → Option (List ParsedLock)
rem_from passed [] elt = none
rem_from passed (x ∷ list) elt =
    let rest = rem_from (passed ++ x ∷ []) list elt in
    if equal x elt then some (passed ++ list) else rest

-- `RemFunc` on two elements or more.
unfoldable pub rem_long : List ParsedLock → ParsedLock → List ParsedLock × Bool
rem_long list elt = elim (rem_from [] list elt) [ none ↦ (list, false) | some sans ↦ (sans, true) ]

-- `RemFunc`.
unfoldable pub rem_func : List ParsedLock → ParsedLock → List ParsedLock × Bool
rem_func [] elt = ([], false)
rem_func (x ∷ []) elt = if equal elt x then ([], true) else (x ∷ [], false)
rem_func (x ∷ y ∷ list) elt = rem_long (x ∷ y ∷ list) elt
