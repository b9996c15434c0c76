-- ===== src/Client/Encode/Accepted.antt =====
-- An operation that `teek_check_operation` lets through is encoded, and its references keep their bytes.
use native.Mathlib.Decide.{ℕ_discrete, dec_le}
use mathlib.Core.Option.{some-injective}
use mathlib.Core.Path.{subst₂}
use itrustee_tzdriver.Base.{
  ℕ, zero, suc, ◌+◌, ◌%◌, ◌≤◌, ◌<◌, ◌≡◌, ◌⊎◌, inl, inr, refl, sym, subst, ◌∙◌, false, ◌||◌, Option,
  none, some, arith, ◌==◌, if◌then◌else◌, if_cases_of,
}
use itrustee_tzdriver.Base.Update.{update, update_same, update_other}
use itrustee_tzdriver.Param.{
  ClientParam, ClientContext, teec_param_type_get, is_tmp_mem, is_ref_mem, is_val_param,
  is_ion_param, teec_param_types,
}
use itrustee_tzdriver.Param.Types.{teec_param_type_get-teec_param_types}
use itrustee_tzdriver.Client.{
  teec_success, teec_error_bad_parameters, size_max, SharedMemory, Parameter, Operation,
  teek_check_operation,
}
use itrustee_tzdriver.Client.Check.{Inside, Fit, Sized, teek_check_operation_iff}
use itrustee_tzdriver.Client.Encode.{
  Fields, part_type, part_param, Encoded, fault, refused, encoded, encode_for_part_mem,
  encode_param, Encoding, encode_params, encode_types, proc_teek_encode,
}

-- What the encoding of a parameter of type `t` gives: a type that the driver takes, and for a
-- reference the address of its first byte.
abbrev pub Faithful : Parameter → ℕ → ClientParam → ℕ → Type 0
Faithful op t p t' =
    (t' < 16)
    × (t ≤ 12 → t' ≡ t)
    × ((parent : SharedMemory)
        → op.memref.parent ≡ some parent
        → 13 ≤ t
        → ((p.buffer + p.offset) % size_max ≡ (parent.buffer + op.memref.offset) % size_max)
          × (t' + (if parent.is_allocated then 0 else 8) ≡ t))

abbrev FaithfulTo : Parameter → ℕ → Encoded → Type 0
FaithfulTo op t fault = ⊥
FaithfulTo op t refused = ⊥
FaithfulTo op t (encoded p t') = Faithful op t p t'

-- A type that is no reference keeps itself.
plain : (op : Parameter) (t : ℕ) (p : ClientParam) → t ≤ 12 → Faithful op t p t
plain op t p le = (omega arith, λ _. refl, λ parent e ge. absurd (omega arith))

part-Faithful :
    (fields : Fields) (idex : ℕ) (op : Parameter) (t : ℕ) (p : ClientParam) (parent : SharedMemory)
    → 13 ≤ t
    → t ≤ 15
    → op.memref.parent ≡ some parent
    → Faithful op t (part_param fields idex parent op.memref.offset t p) (part_type parent t)
unfolding part_param part_type
part-Faithful fields idex op t p parent ge le e = (
  ground arith,
  λ l. absurd (omega arith),
  λ other f _. subst Kept (some-injective parent other (sym e ∙ f)) (ground arith, ground arith),
)
  where
    Kept : SharedMemory → Type 0
    Kept m =
        (((part_param fields idex parent op.memref.offset t p).buffer
              + (part_param fields idex parent op.memref.offset t p).offset)
            % size_max
          ≡ (m.buffer + op.memref.offset) % size_max)
        × (part_type parent t + (if m.is_allocated then 0 else 8) ≡ t)

ref-Faithful :
    (fields : Fields) (idex : ℕ) (op : Parameter) (t : ℕ) (p : ClientParam)
    (r : Option SharedMemory)
    → op.memref.parent ≡ r
    → 13 ≤ t
    → t ≤ 15
    → Inside r op.memref.offset op.memref.size t
    → FaithfulTo op t (encode_for_part_mem fields idex op.memref t p)
unfolding encode_for_part_mem
ref-Faithful fields idex op t p none e ge le h = absurd h
ref-Faithful fields idex op t p (some parent) e ge le h =
    subst
      (λ r. FaithfulTo op t (elim r [
        | none ↦ fault
        | some m ↦ encoded (part_param fields idex m op.memref.offset t p) (part_type m t)
      ]))
      (sym e) (part-Faithful fields idex op t p parent ge le e)

Fit-ref :
    (op : Parameter) (t : ℕ)
    → Fit op t
    → 13 ≤ t
    → (t ≤ 15) × Inside op.memref.parent op.memref.offset op.memref.size t
Fit-ref op t (inl e) ge = absurd (omega arith)
Fit-ref op t (inr (inl e)) ge = absurd (omega (arith, e.1))
Fit-ref op t (inr (inr (inl e))) ge = absurd (omega (arith, e.1))
Fit-ref op t (inr (inr (inr (inl (_, le, _, _))))) ge = absurd (omega arith)
Fit-ref op t (inr (inr (inr (inr (_, le, h))))) ge = (le, h)

Fit-low : (op : Parameter) (t : ℕ) → Fit op t → ¬ (13 ≤ t) → (t ≤ 3) ⊎ ((5 ≤ t) × (t ≤ 9))
Fit-low op t (inl e) g = inl (omega arith)
Fit-low op t (inr (inl e)) g = inl e.1
Fit-low op t (inr (inr (inl e))) g = inr (omega (arith, e.0), e.1)
Fit-low op t (inr (inr (inr (inl (ge, le, _, _))))) g = inr (ge, omega arith)
Fit-low op t (inr (inr (inr (inr (ge, _, _))))) g = absurd (g ge)

encode_param-Faithful :
    (fields : Fields) (idex : ℕ) (op : Parameter) (t : ℕ) (p : ClientParam)
    → Fit op t
    → FaithfulTo op t (encode_param fields idex op t p)
unfolding encode_param is_tmp_mem is_ref_mem is_val_param is_ion_param
encode_param-Faithful fields idex op t p h =
    if_cases_of (FaithfulTo op t) (t == 5 || t == 6 || t == 7)
      (λ e.
        plain op t (record p { buffer = op.tmpref.buffer; size_addr = fields.tmpref_size idex })
          (ground (arith, e)))
      (λ e.
        if_cases_of (FaithfulTo op t) (t == 13 || t == 14 || t == 15)
          (λ f.
            let (le, inside) = Fit-ref op t h (ground (arith, f)) in
            ref-Faithful fields idex op t p op.memref.parent refl (ground (arith, f)) le inside)
          (λ f.
            if_cases_of (FaithfulTo op t) (t == 1 || t == 2 || t == 3 || t == 8 || t == 9)
              (λ g.
                plain op t (record p { a_addr = fields.value_a idex; b_addr = fields.value_b idex })
                  (ground (arith, g)))
              (λ g.
                if_cases_of (FaithfulTo op t) (t == 8 || t == 9)
                  (λ k.
                    plain op t
                      (record p {
                        a_addr = fields.ion_share_fd idex;
                        b_addr = fields.ion_size idex;
                      })
                      (ground (arith, k)))
                  (λ k.
                    if_cases_of (FaithfulTo op t) (t == 0) (λ l. plain op t p (ground (arith, l)))
                      (λ l. other e f g l)))))
  where
    other :
        (t == 5 || t == 6 || t == 7) ≡ false
        → (t == 13 || t == 14 || t == 15) ≡ false
        → (t == 1 || t == 2 || t == 3 || t == 8 || t == 9) ≡ false
        → (t == 0) ≡ false
        → ⊥
    other e f g l = elim (dec_le 13 t) [
      | yes ge ↦ let (le, _) = Fit-ref op t h ge in ground (arith, f, ge, le)
      | no lt ↦ let u = Fit-low op t h lt in ground (arith, e, g, l, u)
    ]

-- What the loop has done with the parameters from `idex` on: it took `n` of them, or it failed.
abbrev Loop : Operation → Encoding → ℕ → ℕ → Option ℕ × Encoding → Type 0
Loop op e n idex (code, e') =
    (code ≡ some teec_success)
    × ((i : ℕ)
        → idex ≤ i
        → i < n + idex
        → Faithful (op.params i) (e.types i) (e'.params i) (e'.types i))
    × ((i : ℕ) → i < idex → (e'.params i ≡ e.params i) × (e'.types i ≡ e.types i))

encode_params-Loop :
    (fields : Fields) (op : Operation) (n idex : ℕ) (e : Encoding)
    → ((i : ℕ) → idex ≤ i → i < n + idex → Fit (op.params i) (e.types i))
    → Loop op e n idex (encode_params fields op n idex e)
unfolding encode_params
encode_params-Loop fields op zero idex e fit =
    (refl, λ i le lt. absurd (omega arith), λ i lt. (refl, refl))
encode_params-Loop fields op (suc n) idex e fit =
    go (encode_param fields idex (op.params idex) (e.types idex) (e.params idex))
      (encode_param-Faithful fields idex (op.params idex) (e.types idex) (e.params idex)
        (fit idex (omega arith) (omega arith)))
      (encode_params-Loop fields op n (suc idex))
  where
    put : ClientParam → ℕ → Encoding
    put p t = record { params = update e.params idex p; types = update e.types idex t }

    go :
        (r : Encoded)
        → FaithfulTo (op.params idex) (e.types idex) r
        → ((y : Encoding)
            → ((i : ℕ) → suc idex ≤ i → i < n + suc idex → Fit (op.params i) (y.types i))
            → Loop op y n (suc idex) (encode_params fields op n (suc idex) y))
        → Loop op e (suc n) idex (elim r [
          | fault ↦ (none, e)
          | refused ↦ (some teec_error_bad_parameters, e)
          | encoded p t ↦ encode_params fields op n (suc idex) (put p t)
        ])
    go fault h later = absurd h
    go refused h later = absurd h
    go (encoded p t) h later =
        let (ok, each, before) = later (put p t) (λ i le lt.
          subst (Fit (op.params i)) (sym (update_other e.types idex t i (omega (arith, le))))
            (fit i (omega (arith, le)) (omega (arith, lt)))) in
        let (here, type) = before idex (omega arith) in
        (
          ok,
          λ i le lt. elim (ℕ_discrete idex i) [
            | yes q ↦
                subst
                  (λ k.
                    Faithful (op.params k) (e.types k)
                      ((encode_params fields op n (suc idex) (put p t)).1.params k)
                      ((encode_params fields op n (suc idex) (put p t)).1.types k))
                  q
                  (subst₂ (Faithful (op.params idex) (e.types idex))
                    (sym (here ∙ update_same e.params idex p))
                    (sym (type ∙ update_same e.types idex t)) h)
            | no ne ↦
                subst
                  (λ k.
                    Faithful (op.params i) k
                      ((encode_params fields op n (suc idex) (put p t)).1.params i)
                      ((encode_params fields op n (suc idex) (put p t)).1.types i))
                  (update_other e.types idex t i ne)
                  (each i (omega (arith, le, ne)) (omega (arith, lt)))
          ],
          λ i lt.
              let (a, b) = before i (omega (arith, lt)) in
              (
                a ∙ update_other e.params idex p i (omega (arith, lt)),
                b ∙ update_other e.types idex t i (omega (arith, lt)),
              ),
        )

packed_types :
    (types : ℕ → ℕ)
    → ((i : ℕ) → i < 4 → types i < 16)
    → (i : ℕ) → i < 4
    → teec_param_type_get (teec_param_types (types 0) (types 1) (types 2) (types 3)) i ≡ types i
packed_types types small i lt =
    let (r0, r1, r2, r3) =
      teec_param_type_get-teec_param_types (types 0) (types 1) (types 2) (types 3)
        (small 0 (omega arith)) (small 1 (omega arith)) (small 2 (omega arith))
        (small 3 (omega arith)) in
    elim (ℕ_discrete i 0) [
      | yes e ↦ rw e r0
      | no n0 ↦ elim (ℕ_discrete i 1) [
        | yes e ↦ rw e r1
        | no n1 ↦ elim (ℕ_discrete i 2) [
          | yes e ↦ rw e r2
          | no n2 ↦ let e : i ≡ 3 = omega (arith, lt, n0, n1, n2) in rw e r3
        ]
      ]
    ]

-- What the whole encoding gives: success, and each parameter faithful, its type read from the context.
abbrev pub Accepted : Operation → Option ℕ × ClientContext → Type 0
Accepted op (code, context) =
    (code ≡ some teec_success)
    × ((i : ℕ)
        → i < 4
        → Faithful (op.params i) (teec_param_type_get op.paramtypes i) (context.params i)
            (teec_param_type_get context.param_types i))

-- An operation of 64-bit sizes that `teek_check_operation` lets through is encoded: no NULL parent is
-- read, and each parameter gets a type of four bits, the one it had unless it is a reference to
-- memory that is not allocated, whose type becomes the temporary one; a reference keeps the address
-- of its first byte.
pub proc_teek_encode-Accepted :
    (fields : Fields) (context : ClientContext) (op : Operation)
    → ((i : ℕ) → Sized (op.params i))
    → teek_check_operation (some op) ≡ teec_success
    → Accepted op (proc_teek_encode fields context op)
unfolding proc_teek_encode encode_types
proc_teek_encode-Accepted fields context op sized ok =
    let (_, fit) = (teek_check_operation_iff op sized).0 ok in
    types-Accepted (encode_params fields op 4 0 start)
      (encode_params-Loop fields op 4 0 start (λ i _ lt. fit i lt))
  where
    start : Encoding
    start = record { params = context.params; types = teec_param_type_get op.paramtypes }

    types-Accepted :
        (r : Option ℕ × Encoding) → Loop op start 4 0 r → Accepted op (encode_types context r)
    types-Accepted (none, e) (code, _, _) = absurd (ground arith)
    types-Accepted (some (suc c), e) (code, _, _) = absurd (ground arith)
    types-Accepted (some zero, e) (code, each, _) = (
      refl,
      λ i lt.
          subst (Faithful (op.params i) (teec_param_type_get op.paramtypes i) (e.params i))
            (sym (packed_types e.types (λ k l. (each k (omega arith) (omega (arith, l))).0) i lt))
            (each i (omega arith) (omega (arith, lt))),
    )
