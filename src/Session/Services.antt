-- ===== src/Session/Services.antt =====
-- core/session_manager.c: the services, their counts of users, and those that a device file has open.
pub mod Refs
mod Tests
use itrustee_tzdriver.Base.{
  ℕ, zero, suc, ◌+◌, ◌-◌, ◌%◌, ◌^◌, Bool, true, false, Option, none, some, List, [], ◌∷◌, ◌==◌,
  if◌then◌else◌,
}
use itrustee_tzdriver.Base.Errno.{Code, success, fail, einval, efault, enomem}
use itrustee_tzdriver.Base.Update.{update}
use itrustee_tzdriver.Base.Nodes.{list_add_tail, list_del}

abbrev pub services_max_count : ℕ
services_max_count = 32

abbrev pub max_ref_count : ℕ
max_ref_count = 255

-- `uuid` is the number that its 16 bytes make; `live` says that the memory is not freed.
pub record TcNsService : Type 0 where
  pub uuid : ℕ
  pub usage : ℕ
  pub live : Bool

-- A device file's table: the service of each slot, by its address, and how often it is open.
pub record TcNsDevFile : Type 0 where
  pub services : ℕ → Option ℕ
  pub service_ref : ℕ → ℕ

-- The services' memory and the list `g_service_list`.
pub record Services : Type 0 where
  pub memory : ℕ → TcNsService
  pub service_list : List ℕ

unfoldable pub get_service_struct : Option ℕ → Services → Services
get_service_struct none s = s
get_service_struct (some k) s = record s {
  memory = update s.memory k (record (s.memory k) { usage = (s.memory k).usage + 1 });
}

-- The last user takes the service off the list and frees it.
unfoldable pub put_service_struct : Option ℕ → Services → Services
put_service_struct none s = s
put_service_struct (some k) s =
    let d = record (s.memory k) { usage = (s.memory k).usage - 1 } in
    if (s.memory k).usage == 1
    then record {
      memory = update s.memory k (record d { live = false });
      service_list = list_del k s.service_list;
    }
    else record s { memory = update s.memory k d }

-- The first slot from `i` on, among `n`, without a service.
unfoldable pub free_service_slot : ℕ → ℕ → (ℕ → Option ℕ) → Option ℕ
free_service_slot zero i services = none
free_service_slot (suc n) i services = elim (services i) [
  | none ↦ some i
  | some k ↦ free_service_slot n (suc i) services
]

unfoldable pub add_service_to_dev : ℕ → TcNsDevFile → Code × TcNsDevFile
add_service_to_dev k dev = elim (free_service_slot services_max_count 0 dev.services) [
  | none ↦ (fail efault, dev)
  | some i ↦ (
    success,
    record { services = update dev.services i (some k); service_ref = update dev.service_ref i 1 },
  )
]

-- Whether the slot has the service at this address.
unfoldable pub holds : ℕ → Option ℕ → Bool
holds k none = false
holds k (some k') = k' == k

-- The first slot from `i` on, among `n`, that passes the test.
unfoldable pub slot_with : (Option ℕ → Bool) → ℕ → ℕ → (ℕ → Option ℕ) → Option ℕ
slot_with test zero i services = none
slot_with test (suc n) i services =
    let rest = slot_with test n (suc i) services in if test (services i) then some i else rest

-- One reference less; `true` is that it was the last and the service is put.
unfoldable pub unref_slot : ℕ → TcNsDevFile → Bool × TcNsDevFile
unref_slot i dev =
    let ref = dev.service_ref i in
    if ref == 0
    then (false, dev)
    else if ref == 1
    then (
      true,
      record { services = update dev.services i none; service_ref = update dev.service_ref i 0 },
    )
    else (false, record dev { service_ref = update dev.service_ref i (ref - 1) })

unfoldable pub del_service_from_dev : ℕ → TcNsDevFile → Services → TcNsDevFile × Services
del_service_from_dev k dev s = elim (slot_with (holds k) services_max_count 0 dev.services) [
  | none ↦ (dev, s)
  | some i ↦
      let (last, dev') = unref_slot i dev in
      (dev', if last then put_service_struct (some k) s else s)
]

-- Whether the slot has a service with this number.
unfoldable pub has_uuid : (ℕ → TcNsService) → ℕ → Option ℕ → Bool
has_uuid memory uuid none = false
has_uuid memory uuid (some k) = (memory k).uuid == uuid

unfoldable pub tc_find_service_in_dev : (ℕ → TcNsService) → ℕ → TcNsDevFile → Option ℕ
tc_find_service_in_dev memory uuid dev =
    elim (slot_with (has_uuid memory uuid) services_max_count 0 dev.services) [
      | none ↦ none
      | some i ↦ dev.services i
    ]

-- What `tc_ref_service_in_dev` found: the slot's service, a count that is full, or nothing.
pub data Ref : Type 0 where
  found : Option ℕ → Ref
  is_full absent : Ref

unfoldable pub tc_ref_service_in_dev : (ℕ → TcNsService) → ℕ → TcNsDevFile → Ref × TcNsDevFile
tc_ref_service_in_dev memory uuid dev =
    elim (slot_with (has_uuid memory uuid) services_max_count 0 dev.services) [
      | none ↦ (absent, dev)
      | some i ↦ if dev.service_ref i == max_ref_count then (is_full, dev) else (
        found (dev.services i),
        record dev { service_ref = update dev.service_ref i ((dev.service_ref i + 1) % 2 ^ 8) },
      )
    ]

-- `kzalloc` and `memcpy_s` are given by their outcomes.
unfoldable pub tc_ns_service_init : Option ℕ → Bool → ℕ → Services → Option ℕ × Services
tc_ns_service_init none copy_fails uuid s = (none, s)
tc_ns_service_init (some k) copy_fails uuid s = if copy_fails then (none, s) else (
  some k,
  record {
    memory = update s.memory k (record { uuid = uuid; usage = 1; live = true });
    service_list = list_add_tail k s.service_list;
  },
)

-- The loop of `tc_find_service_from_all`.
unfoldable pub service_from : (ℕ → TcNsService) → ℕ → List ℕ → Option ℕ
service_from memory uuid [] = none
service_from memory uuid (k ∷ later) =
    let rest = service_from memory uuid later in if (memory k).uuid == uuid then some k else rest

-- `find_service` from the label `add_service` on.
unfoldable pub add_found : Option ℕ × Services → TcNsDevFile → Option ℕ × TcNsDevFile × Services
add_found (none, s) dev = (none, dev, s)
add_found (some k, s) dev =
    let (code, dev') = add_service_to_dev k dev in
    elim code [ success ↦ (some k, dev', s) | fail e ↦ (none, dev', put_service_struct (some k) s) ]

-- A service that is open elsewhere gets a user more, otherwise there is a new one.
unfoldable pub found_or_new : Option ℕ → Bool → ℕ → Services → Option ℕ × Services
found_or_new kzalloc copy_fails uuid s = elim (service_from s.memory uuid s.service_list) [
  | none ↦ tc_ns_service_init kzalloc copy_fails uuid s
  | some k ↦ (some k, get_service_struct (some k) s)
]

unfoldable pub find_service :
    Option ℕ → Bool → ℕ → TcNsDevFile → Services → Option ℕ × TcNsDevFile × Services
find_service kzalloc copy_fails uuid dev s =
    let (r, dev') = tc_ref_service_in_dev s.memory uuid dev in
    elim r [
      | found k ↦ (k, dev', s)
      | is_full ↦ (none, dev', s)
      | absent ↦ add_found (found_or_new kzalloc copy_fails uuid s) dev
    ]
