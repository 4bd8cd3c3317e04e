-- ===== src/Alu/Aggregate.antt =====
-- `executeExtractValueInst` and `executeInsertValueInst` of lib/seahorn/BvOpSem2.cc: an aggregate is
-- one bit-vector, and a field of it a range of bits that the data layout gives.
use seahorn.Prelude.{
  ℕ, suc, ◌+◌, ◌-◌, ◌*◌, ◌==◌, ltb, Bool, Option, none, some, if◌then◌else◌, List, [], ◌∷◌,
  get_elem?,
}
use seahorn.Alu.Terms.{Term}
use seahorn.Alu.Ops.{extract, concat}

-- the end of `executeInsertValueInst`: the bits below `begin`, the inserted ones, those above `end`
unfoldable pub insert_bits : Term → Term → ℕ → ℕ → ℕ → ℕ → Term
unfolding extract concat
insert_bits agg value scalar begin end agg_size =
    let low =
      if ltb 0 begin then concat value scalar (extract agg 0 (begin - 1)) begin else value in
    if ltb end (agg_size - 1)
    then concat (extract agg (suc end) (agg_size - 1)) (agg_size - end - 1) low scalar
    else low

-- LLVM's types. The memory manager and the data layout below are parameters.
pub data Shape (T : Type 0) : Type 0 where
  struct_shape : List T → Shape T
  array_shape : T → Shape T
  scalar_shape : Shape T

-- `DataLayout` on types `T`: how a type is built, its size and its scalar size (0 for a type that
-- is not a number), and the offset of a field of a structure, in bits.
pub record DataLayout (T : Type 0) : Type 0 where
  pub shape : T → Shape T
  pub is_pointer : T → Bool
  pub size_in_bits : T → ℕ
  pub scalar_size : T → ℕ
  pub element_offset : T → ℕ → ℕ

module _ {T : Type 0} (dl : DataLayout T) where
  -- One step of the loop over the indices. There is no value where the code is unreachable.
  unfoldable pub step_index : ℕ → T → Shape T → ℕ → Option (ℕ × T)
  step_index idx cur (struct_shape fields) begin = elim (get_elem? fields idx) [
    | none ↦ none
    | some f ↦ some (begin + dl.element_offset cur idx, f)
  ]
  step_index idx cur (array_shape elem) begin = some (begin + idx * dl.size_in_bits elem, elem)
  step_index idx cur scalar_shape begin = none

  -- the loop: the first bit of the field, and its type
  unfoldable pub field_begin : List ℕ → T → ℕ → Option (ℕ × T)
  unfolding step_index
  field_begin [] cur begin = some (begin, cur)
  field_begin (idx ∷ rest) cur begin = elim (step_index idx cur (dl.shape cur) begin) [
    | none ↦ none
    | some (b, t) ↦ field_begin rest t b
  ]

  -- `inttoptr` and `ptrtoint` are the memory manager's.
  module _ (inttoptr : Term → T → Term) (ptrtoint : Term → T → Term) where
    unfoldable pub extract_at : T → Term → Option (ℕ × T) → Option Term
    unfolding extract
    extract_at ret_ty agg none = none
    extract_at ret_ty agg (some (begin, _)) =
        let res = extract agg begin (begin + dl.size_in_bits ret_ty - 1) in
        some (if dl.is_pointer ret_ty then inttoptr res ret_ty else res)

    unfoldable pub execute_extract_value_inst : T → Option Term → T → List ℕ → Option Term
    unfolding field_begin extract_at
    execute_extract_value_inst ret_ty none agg_ty indices = none
    execute_extract_value_inst ret_ty (some agg) agg_ty indices =
        extract_at ret_ty agg (field_begin indices agg_ty 0)

    unfoldable pub insert_at : Term → T → Term → T → Option (ℕ × T) → Option Term
    unfolding insert_bits
    insert_at agg agg_ty value value_ty none = none
    insert_at agg agg_ty value value_ty (some (begin, cur)) =
        let size = dl.size_in_bits value_ty in
        let bits = if dl.is_pointer value_ty then ptrtoint value value_ty else value in
        if size == dl.size_in_bits cur
        then some (
            insert_bits agg bits (dl.scalar_size value_ty) begin (begin + size - 1)
              (dl.size_in_bits agg_ty))
        else none

    -- There is no value where an operand is null or the code is unreachable.
    unfoldable pub execute_insert_value_inst :
        Option Term → T → Option Term → T → List ℕ → Option Term
    unfolding field_begin insert_at
    execute_insert_value_inst (some agg) agg_ty (some value) value_ty indices =
        insert_at agg agg_ty value value_ty (field_begin indices agg_ty 0)
    execute_insert_value_inst _ agg_ty _ value_ty indices = none
