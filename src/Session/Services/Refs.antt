-- ===== src/Session/Services/Refs.antt =====
-- core/session_manager.c: the references that a device file holds, over a whole history.
use itrustee_tzdriver.Base.{
  ℕ, zero, suc, ◌+◌, ◌-◌, ◌%◌, ◌^◌, ◌≤◌, ◌<◌, ◌≡◌, ◌≢◌, refl, sym, inl, inr, subst, Bool, true,
  false, Option, none, some, ◌==◌, if◌then◌else◌, arith, if_cases_of,
}
use itrustee_tzdriver.Base.Errno.{Code, success, fail, efault}
use itrustee_tzdriver.Base.Update.{update, update_cases}
use itrustee_tzdriver.Session.Services.{
  services_max_count, max_ref_count, TcNsService, TcNsDevFile, Services, put_service_struct,
  free_service_slot, add_service_to_dev, holds, slot_with, unref_slot, del_service_from_dev,
  has_uuid, Ref, found, is_full, absent, tc_ref_service_in_dev, add_found, found_or_new,
  find_service,
}

-- A slot without a service has no references, one with a service has some, and they fit a byte.
abbrev pub Counted : Option ℕ → ℕ → Type 0
Counted none ref = ref ≡ 0
Counted (some k) ref = (ref ≢ 0) × (ref ≤ max_ref_count)

abbrev pub Counts : TcNsDevFile → Type 0
Counts dev = (i : ℕ) → Counted (dev.services i) (dev.service_ref i)

-- A slot is written.
Counts-update :
    (dev : TcNsDevFile) (i : ℕ) (k : Option ℕ) (ref : ℕ)
    → Counts dev
    → Counted k ref
    → Counts
        (record { services = update dev.services i k; service_ref = update dev.service_ref i ref })
Counts-update dev i k ref h new = λ j. go (i == j) (dev.services j) (dev.service_ref j) (h j)
  where
    go :
        (b : Bool) (k' : Option ℕ) (ref' : ℕ)
        → Counted k' ref'
        → Counted (if b then k else k') (if b then ref else ref')
    go true k' ref' old = new
    go false k' ref' old = old

-- The references of a slot are written, and its service stays.
Counts-ref :
    (dev : TcNsDevFile) (i ref : ℕ)
    → Counts dev
    → (Counted (dev.services i) (dev.service_ref i) → Counted (dev.services i) ref)
    → Counts (record dev { service_ref = update dev.service_ref i ref })
Counts-ref dev i ref h new = λ j. elim (update_cases dev.service_ref i ref j) [
  | inl (e, r) ↦
      subst (Counted (dev.services j)) (sym r)
        (subst (λ k. Counted (dev.services k) ref) e (new (h i)))
  | inr (ne, r) ↦ subst (Counted (dev.services j)) (sym r) (h j)
]

unref_slot-Counts : (i : ℕ) (dev : TcNsDevFile) → Counts dev → Counts (unref_slot i dev).1
unfolding unref_slot
unref_slot-Counts i dev h =
    if_cases_of (λ (r : Bool × TcNsDevFile). Counts r.1) (dev.service_ref i == 0) (λ t. h)
      (λ t.
        if_cases_of (λ (r : Bool × TcNsDevFile). Counts r.1) (dev.service_ref i == 1)
          (λ u. Counts-update dev i none 0 h refl)
          (λ u. Counts-ref dev i (dev.service_ref i - 1) h (less (dev.services i) t u)))
  where
    less :
        (k : Option ℕ)
        → (dev.service_ref i == 0) ≡ false
        → (dev.service_ref i == 1) ≡ false
        → Counted k (dev.service_ref i)
        → Counted k (dev.service_ref i - 1)
    less none t u c = omega (arith, c)
    less (some k) t u (p, q) = (ground (arith, t, u), omega (arith, q))

add_service_to_dev-Counts :
    (k : ℕ) (dev : TcNsDevFile) → Counts dev → Counts (add_service_to_dev k dev).1
unfolding add_service_to_dev
add_service_to_dev-Counts k dev h = go (free_service_slot services_max_count 0 dev.services)
  where
    go :
        (o : Option ℕ)
        → Counts
            (elim o as (λ x. Code × TcNsDevFile) [
              | none ↦ (fail efault, dev)
              | some i ↦ (
                success,
                record {
                  services = update dev.services i (some k);
                  service_ref = update dev.service_ref i 1;
                },
              )
            ]).1
    go none = h
    go (some i) = Counts-update dev i (some k) 1 h (omega arith, omega arith)

del_service_from_dev-Counts :
    (k : ℕ) (dev : TcNsDevFile) (s : Services)
    → Counts dev
    → Counts (del_service_from_dev k dev s).0
unfolding del_service_from_dev
del_service_from_dev-Counts k dev s h = go (slot_with (holds k) services_max_count 0 dev.services)
  where
    go :
        (o : Option ℕ)
        → Counts
            (elim o as (λ x. TcNsDevFile × Services) [
              | none ↦ (dev, s)
              | some i ↦ (
                (unref_slot i dev).1,
                if (unref_slot i dev).0 then put_service_struct (some k) s else s,
              )
            ]).0
    go none = h
    go (some i) = unref_slot-Counts i dev h

-- The slot found passes the test.
abbrev Tested : (Option ℕ → Bool) → (ℕ → Option ℕ) → Option ℕ → Type 0
Tested test services none = Unit
Tested test services (some i) = test (services i) ≡ true

slot_with-Tested :
    (test : Option ℕ → Bool) (n i : ℕ) (services : ℕ → Option ℕ)
    → Tested test services (slot_with test n i services)
unfolding slot_with
slot_with-Tested test zero i services = tt
slot_with-Tested test (suc n) i services =
    if_cases_of (Tested test services) (test (services i)) (λ t. t)
      (λ t. slot_with-Tested test n (suc i) services)

more_refs :
    (memory : ℕ → TcNsService) (uuid ref : ℕ) (k : Option ℕ)
    → has_uuid memory uuid k ≡ true
    → (ref == max_ref_count) ≡ false
    → Counted k ref
    → Counted k ((ref + 1) % 2 ^ 8)
unfolding has_uuid
more_refs memory uuid ref none t room c = absurd (ground (arith, t))
more_refs memory uuid ref (some k) t room (p, q) =
    let less : ref < 255 = ground (arith, room, q) in (omega (arith, less), omega (arith, less))

tc_ref_service_in_dev-Counts :
    (memory : ℕ → TcNsService) (uuid : ℕ) (dev : TcNsDevFile)
    → Counts dev
    → Counts (tc_ref_service_in_dev memory uuid dev).1
unfolding tc_ref_service_in_dev
tc_ref_service_in_dev-Counts memory uuid dev h =
    go (slot_with (has_uuid memory uuid) services_max_count 0 dev.services)
      (slot_with-Tested (has_uuid memory uuid) services_max_count 0 dev.services)
  where
    go :
        (o : Option ℕ)
        → Tested (has_uuid memory uuid) dev.services o
        → Counts
            (elim o as (λ x. Ref × TcNsDevFile) [
              | none ↦ (absent, dev)
              | some i ↦ if dev.service_ref i == max_ref_count then (is_full, dev) else (
                found (dev.services i),
                record dev {
                  service_ref = update dev.service_ref i ((dev.service_ref i + 1) % 2 ^ 8);
                },
              )
            ]).1
    go none t = h
    go (some i) t =
        if_cases_of (λ (r : Ref × TcNsDevFile). Counts r.1) (dev.service_ref i == max_ref_count)
          (λ e. h)
          (λ e.
            Counts-ref dev i ((dev.service_ref i + 1) % 2 ^ 8) h
              (more_refs memory uuid (dev.service_ref i) (dev.services i) t e))

add_found-Counts :
    (r : Option ℕ × Services) (dev : TcNsDevFile) → Counts dev → Counts (add_found r dev).1
unfolding add_found
add_found-Counts (none, s) dev h = h
add_found-Counts (some k, s) dev h =
    go (add_service_to_dev k dev) (add_service_to_dev-Counts k dev h)
  where
    go :
        (r : Code × TcNsDevFile)
        → Counts r.1
        → Counts
            (elim r.0 as (λ x. Option ℕ × TcNsDevFile × Services) [
              | success ↦ (some k, r.1, s)
              | fail e ↦ (none, r.1, put_service_struct (some k) s)
            ]).1
    go (success, dev') c = c
    go (fail e, dev') c = c

find_service-Counts :
    (kzalloc : Option ℕ) (copy_fails : Bool) (uuid : ℕ) (dev : TcNsDevFile) (s : Services)
    → Counts dev
    → Counts (find_service kzalloc copy_fails uuid dev s).1
unfolding find_service
find_service-Counts kzalloc copy_fails uuid dev s h =
    go (tc_ref_service_in_dev s.memory uuid dev) (tc_ref_service_in_dev-Counts s.memory uuid dev h)
  where
    go :
        (r : Ref × TcNsDevFile)
        → Counts r.1
        → Counts
            (elim r.0 as (λ x. Option ℕ × TcNsDevFile × Services) [
              | found k ↦ (k, r.1, s)
              | is_full ↦ (none, r.1, s)
              | absent ↦ add_found (found_or_new kzalloc copy_fails uuid s) dev
            ]).1
    go (found k, dev') c = c
    go (is_full, dev') c = c
    go (absent, dev') c = add_found-Counts (found_or_new kzalloc copy_fails uuid s) dev h

-- What a device file's opens and closes do, with whatever the services are at each of them.
pub data Step (dev : TcNsDevFile) : TcNsDevFile → Type 0 where
  opens :
      (kzalloc : Option ℕ) (copy_fails : Bool) (uuid : ℕ) (s : Services)
      → Step dev (find_service kzalloc copy_fails uuid dev s).1
  closes : (k : ℕ) (s : Services) → Step dev (del_service_from_dev k dev s).0

pub data Reach (start : TcNsDevFile) : TcNsDevFile → Type 0 where
  here : Reach start start
  next : {a b : TcNsDevFile} → Reach start a → Step a b → Reach start b

-- A device file that was just opened.
abbrev pub new_dev : TcNsDevFile
new_dev = record { services = λ i. none; service_ref = λ i. 0 }

Step-Counts : {a b : TcNsDevFile} → Counts a → Step a b → Counts b
Step-Counts {a} h (opens kzalloc copy_fails uuid s) =
    find_service-Counts kzalloc copy_fails uuid a s h
Step-Counts {a} h (closes k s) = del_service_from_dev-Counts k a s h

-- Whatever sessions a device file opened and closed, a slot with a service has between 1 and 255
-- references, so that its byte never wrapped, and a slot without one has none.
pub Reach-Counts : (dev : TcNsDevFile) → Reach new_dev dev → Counts dev
Reach-Counts dev here = λ i. refl
Reach-Counts dev (next r step) = Step-Counts (Reach-Counts _ r) step
