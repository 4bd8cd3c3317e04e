-- ===== src/Alu/Insert.antt =====
-- `insertvalue` and `extractvalue` through the indices and the data layout.
use seahorn.Prelude.{
  ℕ, suc, ◌+◌, ◌-◌, ◌≤◌, ◌<◌, ◌≡◌, ◌∙◌, refl, ap, ap₂, true, false, lt→ltb, ◌==◌, if◌then◌else◌,
  Option, none, some, arith, List,
}
use seahorn.Alu.Terms.{Sort, bool_ty, bv_ty, Term, sort_of, if_bv, if_bool}
use seahorn.Alu.Meaning.{Env, Denotes}
use seahorn.Alu.Ops.{int_ty, bool_to_bv1, extract, concat}
use seahorn.Alu.Aggregate.{
  insert_bits, DataLayout, field_begin, extract_at, execute_extract_value_inst, insert_at,
  execute_insert_value_inst,
}
use seahorn.Alu.Fields.{insertable, replaced, insert_bits_correct, extract-insert_bits}

-- The aggregate and the integer type of a field of it, with its range of bits by the data layout.
pub record IsIntField {T : Type 0} (dl : DataLayout T) (agg_ty ty : T) (indices : List ℕ) (b : ℕ)
    : Type 0 where
  pub begin_is : field_begin dl indices agg_ty 0 ≡ some (b, ty)
  pub not_pointer : dl.is_pointer ty ≡ false
  pub scalar : dl.scalar_size ty ≡ dl.size_in_bits ty
  pub not_empty : 1 ≤ dl.size_in_bits ty
  pub inside : b + dl.size_in_bits ty ≤ dl.size_in_bits agg_ty

when_same : {A : Type 0} (k : ℕ) (a : A) → (if k == k then some a else none) ≡ some a
when_same k a = ground arith

module _ {T : Type 0} (dl : DataLayout T) (inttoptr ptrtoint : Term → T → Term) where
  insert_int :
      (agg val : Term) (agg_ty ty : T) (b : ℕ)
      → dl.is_pointer ty ≡ false
      → dl.scalar_size ty ≡ dl.size_in_bits ty
      → insert_at dl inttoptr ptrtoint agg agg_ty val ty (some (b, ty))
        ≡ some (
            insert_bits agg val
              (dl.size_in_bits ty)
              b
              (b + dl.size_in_bits ty - 1)
              (dl.size_in_bits agg_ty))
  unfolding insert_at
  insert_int agg val agg_ty ty b p q =
      when_same (dl.size_in_bits ty) _
      ∙ ap₂
          (λ c k. some (
            insert_bits agg (if c then ptrtoint val ty else val) k b (b + dl.size_in_bits ty - 1)
              (dl.size_in_bits agg_ty)))
          p q

  extract_int :
      (agg : Term) (ty : T) (b : ℕ)
      → dl.is_pointer ty ≡ false
      → extract_at dl inttoptr ptrtoint ty agg (some (b, ty))
        ≡ some (extract agg b (b + dl.size_in_bits ty - 1))
  unfolding extract_at
  extract_int agg ty b p =
      ap
        (λ c. some (
          if c
          then inttoptr (extract agg b (b + dl.size_in_bits ty - 1)) ty
          else extract agg b (b + dl.size_in_bits ty - 1)))
        p

  -- For an aggregate of more than one bit that denotes `x` and an integer field of it of `k` bits
  -- from bit `b` by the indices, where the field does not have one bit with bits on both sides:
  -- `insertvalue` of a term that denotes `v` gives a term that denotes `x` with these bits replaced
  -- by `v`, and `extractvalue` at the same indices gives a term that denotes `v`.
  pub extract_value-insert_value :
      (e : Env) (agg val : Term) (agg_ty ty : T) (indices : List ℕ) (b x v : ℕ)
      → IsIntField dl agg_ty ty indices b
      → 1 < dl.size_in_bits agg_ty
      → insertable (dl.size_in_bits ty) b (dl.size_in_bits agg_ty) ≡ true
      → Denotes e agg (bv_ty (dl.size_in_bits agg_ty)) x
      → Denotes e val (int_ty (dl.size_in_bits ty)) v
      → (t : Term) × (execute_insert_value_inst dl inttoptr ptrtoint
            (some agg)
            agg_ty
            (some val)
            ty
            indices
          ≡ some t)
        × Denotes e t (bv_ty (dl.size_in_bits agg_ty)) (replaced x b (dl.size_in_bits ty) v)
        × (u : Term) × (execute_extract_value_inst dl inttoptr ptrtoint ty (some t) agg_ty indices
            ≡ some u)
        × Denotes e u (int_ty (dl.size_in_bits ty)) v
  unfolding execute_insert_value_inst execute_extract_value_inst
  extract_value-insert_value e agg val agg_ty ty indices b x v f wide ok d d' = (
    insert_bits agg val (dl.size_in_bits ty) b (b + dl.size_in_bits ty - 1)
        (dl.size_in_bits agg_ty),
    ap (insert_at dl inttoptr ptrtoint agg agg_ty val ty) f.begin_is
        ∙ insert_int agg val agg_ty ty b f.not_pointer f.scalar,
    insert_bits_correct e agg val _ x _ v b f.not_empty f.inside d d' wide ok,
    extract _ b (b + dl.size_in_bits ty - 1),
    ap (extract_at dl inttoptr ptrtoint ty _) f.begin_is ∙ extract_int _ ty b f.not_pointer,
    extract-insert_bits e agg val _ x _ v b f.not_empty f.inside d d' wide ok,
  )

if_bv-none : (o : Option Sort) → if_bv o (λ v. none) ≡ none
unfolding if_bv
if_bv-none none = refl
if_bv-none (some bool_ty) = refl
if_bv-none (some (bv_ty w)) = refl

no_bool :
    (o p q : Option Sort) → if_bool (if_bv o (λ v. if_bv p (λ w. some (bv_ty (v + w))))) q ≡ none
unfolding if_bool if_bv
no_bool none p q = refl
no_bool (some bool_ty) p q = refl
no_bool (some (bv_ty v)) none q = refl
no_bool (some (bv_ty v)) (some bool_ty) q = refl
no_bool (some (bv_ty v)) (some (bv_ty w)) q = refl

-- a concatenation is not a one-bit integer
concat_bits : (high val lo : Term) (w b : ℕ) → sort_of (concat high w (concat val 1 lo b) 1) ≡ none
unfolding concat bool_to_bv1 sort_of
concat_bits high val lo w b =
    ap
      (λ o.
        if_bv (sort_of (if w == 1 then bool_to_bv1 high else high))
          (λ v. if_bv o (λ w. some (bv_ty (v + w)))))
      (no_bool (sort_of (bool_to_bv1 val)) (sort_of (if b == 1 then bool_to_bv1 lo else lo)) _)
    ∙ if_bv-none (sort_of (if w == 1 then bool_to_bv1 high else high))

-- Inserting one bit that has bits on both sides gives a term without a sort.
pub insert_bits_ill_sorted :
    (agg val : Term) (b n : ℕ) → 0 < b → suc b < n → sort_of (insert_bits agg val 1 b b n) ≡ none
unfolding insert_bits
insert_bits_ill_sorted agg val b n p q = rw (lt→ltb 0 b p) (
    rw (lt→ltb b (n - 1) (omega arith))
      (concat_bits (extract agg (suc b) (n - 1)) val (extract agg 0 (b - 1)) (n - b - 1) b))
