-- ===== src/MlirGen/Program/Typing.antt =====
-- The typing rules of the programs that src/mlir_gen.cc writes, as the dialects of the emitted
-- operations give them. A rule is named after the statement that it types.
use onnxruntime_ep_iree.Common.{◌≡◌, List, [], ◌∷◌, ◌++◌, map, Text, All, In}
use onnxruntime_ep_iree.MlirGen.Graph.{TypeInfo, Attr}
use onnxruntime_ep_iree.MlirGen.Program.{
  MlirValue, vtensor, builtin, Literal, Statement, constant_op, cast_op, operator_op, Program,
}

-- The values that stand before a statement.
abbrev pub Scope : Type 0
Scope = List MlirValue

abbrev pub IsVtensor : MlirValue → Type 0
IsVtensor v = (t : TypeInfo) × (v.type ≡ vtensor t)

-- From the values of the first scope the statements define those of the second one. An operand is
-- in scope with the very type that it is used at.
infix 4 ◌⊢◌⊣◌
pub data ◌⊢◌⊣◌ : Scope → List Statement → Scope → Type 0 where
  nothing : {Γ : Scope} → Γ ⊢ [] ⊣ Γ
  constant :
      {Γ Δ : Scope} {result : MlirValue} {literal : Literal} {t : TypeInfo} {rest : List Statement}
      → result.type ≡ builtin t
      → result ∷ Γ ⊢ rest ⊣ Δ
      → Γ ⊢ constant_op result literal ∷ rest ⊣ Δ
  cast :
      {Γ Δ : Scope} {result operand : MlirValue} {t : TypeInfo} {rest : List Statement}
      → In operand Γ
      → operand.type ≡ builtin t
      → result.type ≡ vtensor t
      → result ∷ Γ ⊢ rest ⊣ Δ
      → Γ ⊢ cast_op result operand ∷ rest ⊣ Δ
  operator :
      {Γ Δ : Scope} {results operands : List MlirValue} {op_type : Text} {attrs : List Attr}
      {rest : List Statement}
      → All (λ v. In v Γ) operands
      → All IsVtensor operands
      → All IsVtensor results
      → results ++ Γ ⊢ rest ⊣ Δ
      → Γ ⊢ operator_op results op_type operands attrs ∷ rest ⊣ Δ

-- The body can be read from the arguments on, and the function returns values that it defines, at
-- the types that its signature announces.
pub data WellTyped (p : Program) : Type 0 where
  well_typed :
      {Δ : Scope}
      → p.arguments ⊢ p.body ⊣ Δ
      → All (λ v. In v Δ) p.returned
      → map (λ v. v.type) p.returned ≡ p.result_types
      → WellTyped p
