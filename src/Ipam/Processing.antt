-- ===== src/Ipam/Processing.antt =====
-- The controller loop of staging/kos/pkg/controllers/ipam/ipam.go: processQueueItem,
-- processNetworkAttachment and updateNAStatus, over the map of what is anticipated and the cache of
-- addresses.
pub mod Placed
pub mod Serving
pub mod Waiting
pub mod Remembering
pub mod Assigning
mod Tests
use kube_examples.Common.{
  ℕ, Bool, true, false, not, ◌&&◌, ◌||◌, Option, none, some, List, [], ◌∷◌, ◌==◌, if◌then◌else◌, Go,
  ok, panic, ◌>>=◌, deref,
}
use kube_examples.GoNet.{IPv4, NetIp, NetBlock}
use kube_examples.GoText.{Text}
use kube_examples.Uint32Set.Library.{SortedSetLibrary}
use kube_examples.Ipam.Locks.{IpLock, ParsedLock, get_ip}
use kube_examples.Ipam.Cache.{AddrCache}
use kube_examples.Ipam.Analysis.{Attachment, NetworkAttachmentData, DeleteAnswer, is_some}
use kube_examples.Ipam.AttachmentData.{
  Atts, put_data, get_network_attachment_data, clear_network_attachment_data,
}
use kube_examples.Ipam.Pick.{CreateAnswer, GetAnswer, PickResult, pick_and_lock_address}
use kube_examples.Ipam.Placing.{
  LookupAnswer, found, missing, lookup_failed, DesiredSubnet, Analysis, analyze_and_release,
}

-- The status that is written to an attachment.
pub record StatusUpdate : Type 0 where
  pub errors : List Text
  pub lock_uid : Text
  pub address_vni : ℕ
  pub ipv4 : Text

-- What `Update` answers: the new resource version, that there is no such attachment, or another error.
pub data UpdateAnswer : Type 0 where
  updated : Text → UpdateAnswer
  update_not_found : UpdateAnswer
  update_failed : UpdateAnswer

-- What the informers, the API server and the random numbers answer while one attachment is processed.
pub record World : Type 0 where
  pub attachment : LookupAnswer Attachment
  pub subnets : Text → LookupAnswer DesiredSubnet
  pub owned : Option (List IpLock)
  pub get_lock : Text → Option IpLock
  pub delete : ParsedLock → DeleteAnswer
  pub gap_seed : ℕ
  pub member_seed : ℕ
  pub answers : ℕ → CreateAnswer × GetAnswer
  pub update : StatusUpdate → UpdateAnswer

abbrev pub is_nil {ℓ} : {A : Type ℓ} → List A → Bool
is_nil [] = true
is_nil (x ∷ xs) = false

-- `ipForStatus.Equal(anticipatedIPv4)`.
unfoldable pub ip_matches : IPv4 → Option IPv4 → Bool
ip_matches ip none = false
ip_matches ip (some other) =
    ip.b0 == other.b0 && ip.b1 == other.b1 && ip.b2 == other.b2 && ip.b3 == other.b3

-- What the data remembers of a status update.
unfoldable pub anticipate : Text → Text → Text → Option IPv4 → NetworkAttachmentData
anticipate old_rv new_rv subnet_rv ip = record {
  anticipating_resource_version = old_rv;
  anticipated_resource_version = new_rv;
  anticipation_subnet_rv = subnet_rv;
  anticipated_ipv4 = ip;
}

-- The pointer to the data of the attachment is written through.
unfoldable pub write_data : Atts → Text → Text → Option NetworkAttachmentData → Atts
write_data atts ns name none = atts
write_data atts ns name (some nadat) = put_data atts ns name (some nadat)

module _ (library : SortedSetLibrary) (ip_string : IPv4 → Text) (parse_ip : Text → Option NetIp)
    (parse_cidr : Text → Option NetBlock) where
  -- The two maps of the controller.
  pub record IpamState : Type 0 where
    pub atts : Atts
    pub addr_cache : AddrCache library

  -- What became of an attachment: whether there was an error, the status that `Update` was called
  -- with, if any, the locks deleted, and the state.
  pub record Processed : Type 0 where
    pub err : Bool
    pub written : Option StatusUpdate
    pub released : List ParsedLock
    pub state : IpamState

  -- The end of the processing without a status update.
  abbrev pub ended : Bool → IpamState → Analysis → Go (Option Processed)
  ended err s an =
      ok (some (record { err = err; written = none; released = an.released; state = s }))

  unfoldable pub ip_text : Option IPv4 → Text
  ip_text none = []
  ip_text (some ip) = ip_string ip

  unfoldable pub status_of : Analysis → ParsedLock → Option IPv4 → StatusUpdate
  status_of an lock ip = record {
    errors = an.status_errs;
    lock_uid = lock.uid;
    address_vni = lock.vni;
    ipv4 = ip_text ip;
  }

  -- The locked address is remembered, but not where errors were written.
  unfoldable pub remember :
      Text → Text → IpamState → Attachment → Analysis → Text → Option IPv4 → Go IpamState
  remember ns name s a an new_rv ip = if not (is_nil an.status_errs) then ok s else do
    nadat ← deref an.nadat
    ok (record s {
      atts = put_data s.atts ns name (some (anticipate a.resource_version new_rv an.subnet_rv ip));
    })

  -- `updateNAStatus`, from the answer of the API server on.
  unfoldable pub after_update :
      Text
      → Text
      → IpamState
      → Attachment
      → Analysis
      → StatusUpdate
      → Option IPv4
      → UpdateAnswer
      → Go (Option Processed)
  after_update ns name s a an st ip (updated new_rv) = do
    left ← remember ns name s a an new_rv ip
    ok (some (record { err = false; written = some st; released = an.released; state = left }))
  after_update ns name s a an st ip update_not_found =
      ok (some (record { err = false; written = some st; released = an.released; state = s }))
  after_update ns name s a an st ip update_failed =
      ok (some (record { err = true; written = some st; released = an.released; state = s }))

  module _ (w : World) (fuel : ℕ) (ns name : Text) where
    -- `updateNAStatus`.
    unfoldable pub update_na_status :
        IpamState → Attachment → Analysis → ParsedLock → Option IPv4 → Go (Option Processed)
    update_na_status s a an lock ip =
        let st = status_of an lock ip in after_update ns name s a an st ip (w.update st)

    unfoldable pub after_pick :
        IpamState → Attachment → Analysis → Option PickResult → Go (Option Processed)
    after_pick s a an none = ok none
    after_pick s a an (some r) =
        if r.err then ended true s an else update_na_status s a an r.lock_for_status r.ip_for_status

    unfoldable pub pick_and_update : IpamState → Attachment → Analysis → Go (Option Processed)
    pick_and_update s a an = do
      (r, left) ←
          pick_and_lock_address library s.addr_cache w.gap_seed w.member_seed w.answers fuel ns name
            a.uid an.desired_vni an.desired_base_u an.desired_last_u
      after_pick (record s { addr_cache = left }) a an r

    -- The choice of the address, where the status has no lock and no errors are to be written: that of
    -- the lock found, none where one is anticipated, and otherwise a new one.
    unfoldable pub choose_by_data :
        IpamState → Attachment → Analysis → NetworkAttachmentData → Go (Option Processed)
    choose_by_data s a an nadat =
        if is_some an.lock_for_status.obj
        then if ip_matches (get_ip an.lock_for_status) nadat.anticipated_ipv4
          then ended false s an
          else update_na_status s a an an.lock_for_status (some (get_ip an.lock_for_status))
        else if is_some nadat.anticipated_ipv4
        then ended false s an
        else pick_and_update s a an

    unfoldable pub choose_address : IpamState → Attachment → Analysis → Go (Option Processed)
    choose_address s a an =
        if not (is_nil an.status_errs)
        then update_na_status s a an an.lock_for_status none
        else do nadat ← deref an.nadat; choose_by_data s a an nadat

    -- `processNetworkAttachment`, behind the analysis.
    unfoldable pub process_present :
        IpamState → Option Attachment → Analysis → Go (Option Processed)
    process_present s none an =
        if is_some an.nadat
        then ended false (record s { atts = clear_network_attachment_data s.atts ns name }) an
        else ended false s an
    process_present s (some a) an =
        if is_some an.lock_in_status.obj then ended false s an else choose_address s a an

    unfoldable pub process_analyzed :
        IpamState → Option Attachment → Analysis → Go (Option Processed)
    process_analyzed s att an =
        if an.err || not an.proceeds then ended an.err s an else process_present s att an

    unfoldable pub analysis_of : Option Attachment → Option NetworkAttachmentData → Go Analysis
    analysis_of att nadat =
        analyze_and_release ip_string parse_ip w.owned w.get_lock w.delete att parse_cidr w.subnets
          nadat

    unfoldable pub process_attachment : IpamState → Option Attachment → Go (Option Processed)
    process_attachment s att =
        let (nadat, atts) = get_network_attachment_data s.atts ns name (is_some att) in
        do
          an ← analysis_of att nadat
          process_analyzed (record s { atts = write_data atts ns name an.nadat }) att an

    -- `processNetworkAttachment`: no result where the fuel of the loop that locks an address is spent.
    unfoldable pub process_network_attachment :
        IpamState → LookupAnswer Attachment → Go (Option Processed)
    process_network_attachment s (found a) = process_attachment s (some a)
    process_network_attachment s missing = process_attachment s none
    process_network_attachment s lookup_failed =
        ok (some (record { err = false; written = none; released = []; state = s }))

    -- `processQueueItem`: with an error the item is added to the queue again, and otherwise it is
    -- forgotten.
    unfoldable pub process_queue_item :
        IpamState → List (Text × Text) → Go (Option (Processed × List (Text × Text)))
    process_queue_item s requeued = do
      r ← process_network_attachment s w.attachment
      elim r [
        | none ↦ ok none
        | some p ↦ ok (some (p, if p.err then (ns, name) ∷ requeued else requeued))
      ]
