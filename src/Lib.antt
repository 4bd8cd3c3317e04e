-- ===== src/Lib.antt =====
-- SeaHorn: the parts of the verifier that compute on their own data, and what they guarantee.
--
-- SeaHorn turns LLVM bitcode into terms (include/seahorn/Expr), reasons about them with an SMT solver
-- or a Horn-clause solver, and replays counterexamples in a small runtime (sea-rt). Terms are built by
-- constructors that simplify, rewritten by visitors, and handed to the solver; the bounded model
-- checker asks for small unsatisfiable cores of its path formulas; the operational semantics needs
-- addresses for functions, globals and stack objects; and the harness of a counterexample links with
-- memory functions that keep invented addresses apart from those of the host.
--
-- Expr: the term language.
--   Expr/Syntax     ENode of Expr/ExprCore.hh as the trees `Expr` and `Args`; `≟` is its equality of
--                   nodes, IsWf the arities that the operators have.
--   Expr/Meaning    the truth value `eval` of a term under an environment of its atoms.
--   Expr/BoolOps    land, lor, limp, lite, lneg and land of a range, of ExprOpBool.hh.
--   Expr/Visitor    VisitAction and visit of ExprVisitor.hh, as `visit` without and `dag_visit` with
--                   the cache of shared nodes; which nodes are shared is a parameter, and a
--                   use count that changes during the visit is not modelled.
--   Expr/Simplifier TrivialSimplifier and BS of ExprSimplifier.hh, and boolop::simplify.
--   Expr/Nnf        NNF and boolop::nnf of lib/seahorn/Smt/ExprUtil.cc.
--   Expr/Gather     GatherOps, boolop::gather and boolop::pp of the same file; the order of node ids,
--                   by which a set of nodes is sorted, is the parameter `before`.
--   Expr/Replace    replace of ExprVisitor.hh, replaceAll and contains of ExprUtil.cc.
--   Expr/Filter     filter of ExprVisitor.hh; its set of nodes seen stands for the cache too.
--   Expr/Rewriting, Expr/Visitor/Rule, Expr/Visitor/Cached and the children named Sound, Pass, Shape,
--                   Sets, Flat, Strict, Correct and Contains hold the lemmas on them.
-- Muc: lib/seahorn/PathBmcMuc.cc over the solver of include/seahorn/Expr/Smt/Solver.hh. The solver is a
--   stack of assertions with a parameter `check`. Soundness says that its sat and unsat are right, and
--   completeness that it always gives one of the two.
--   Muc/QuickXplain binary_search_muc, Muc/Deletion deletion_muc, Muc/Assumptions
--   muc_with_assumptions, Muc/Sets cores and theories.
-- Alloc: lib/seahorn/BvOpSem2Allocators.cc. `Allocator` holds the three vectors of OpSemAllocator.
--   Alloc            galloc, falloc, brk0Addr, the look-up of addresses and the salloc of
--                    NormalOpSemAllocator, with the wrap-around to 32 and 64 bits written out.
--   Alloc/Static     StaticOpSemAllocator: onModuleEntry, onFunctionEntry, preAlloc and its look-ups.
--   Alloc/Intervals, Alloc/Layout, Alloc/Lookup: intervals in order, and the operations on them.
-- Runtime: sea-rt/seahorn_mem.cpp. `Runtime` holds both maps and the bytes of the host; mem_alloc,
--   mem_init, mem_store and mem_load give the next state, or none where the code exits.
--   Runtime/Regions, Runtime/Resolve, Runtime/Blocks, Runtime/Alloc: the map, the look-up of an
--   address, memcpy and the loop of mem_alloc, and allocation.
-- Horn: include/seahorn/HornClauseDB.hh and lib/seahorn/HornClauseDB.cc. `HornClauseDb` holds relations,
--   rules, queries and the two indexes; a pointer to a rule is its position, and the comparison of rules
--   by hash values is a parameter of remove_rule. Its constraints and invariants are not modelled.
--   Horn/Rules, Horn/Indexes: what the operations on rules and buildIndexes do. Horn/CallGraph: the call
--   graph, with the test for the name of main and the maps of an earlier build arguments;
--   Horn/Uses what a rule uses and defines.
-- CutPoints: lib/Analysis/CutPointGraph.cc. `Cfg` is the function with the order of its blocks that the
--   pass gets from TopologicalOrder; a block is a number, a cut point the position of its block in m_cps,
--   and a look-up that gives a null pointer is none. The maps of a block to its bits start empty.
--   CutPoints/BitVector the bit vectors, CutPoints/Paths paths and what an order promises (IsCfg),
--   CutPoints/Marks computeCutPoints, CutPoints/Reach computeFwdReach, CutPoints/Backward and
--   CutPoints/BackwardReach computeBwdReach, CutPoints/PushBlock and CutPoints/Edges computeEdges, CutPoints/Correct the graph.
-- Live: lib/seahorn/LiveSymbols.cc. An expression is the number that orders it, `LiveInfo` the three
--   vectors of a block. What symbolic execution of a block and of the phi nodes on an edge reads and
--   writes is the argument `Semantics`, and the tests of patchArgsAndGlobals are fields of `Function`.
--   Live/Sorted and Live/Members vectors as multisets and sets, Live/Local localPass, Live/Patch patchArgsAndGlobals, Live/Pass,
--   Live/Progress and Live/Fixpoint globalPass, Live/Global globallyLive, Live/Correct run.
-- HornModel: lib/seahorn/HornDbModel.cc. m_defs is a list of relations and formulas, the last first; a
--   bound variable is a BIND node of the terminal of its index, an odd operator, and its type; even ones
--   are left for other terminals. An assertion that fails, or
--   an argument that is missing, is none.
--   HornModel/Lookup and HornModel/Rename arguments to bound variables and back, HornModel/Correct addDef and getDef.
-- Alu: lib/seahorn/BvOpSem2Alu.cc and the instruction visitor of lib/seahorn/BvOpSem2.cc. A program's
--   integer of w bits is a term: a Boolean for one bit, a bit-vector for more. `Denotes` gives the sort
--   and the value of a term under values of its constants.
--   Alu/Terms       the operators of Expr/ExprOpBv.hh that the unit builds, and the sorts that SMT-LIB
--                   gives them; an ill-sorted term has none.
--   Alu/Words, Alu/Meaning, Alu/Bounds: words as numbers below 2 ^ w, the value of a term, its bounds.
--   Alu/Ops         BvOpSemAlu, one definition for each method. Alu/OneBit, Alu/Widths and
--                   Alu/Casts: the value of the casts, of Extract and of Concat.
--   Alu/Visitor     visitBinaryOperator, visitICmpInst, the shifts, the casts and the intrinsics with
--                   overflow. An operand or result that is null is none. Alu/Machine says what LLVM's
--                   instructions do to words; Alu/Binary, Alu/Values and Alu/Compare relate the two.
--   Alu/Product, Alu/Exact, Alu/Overflow: when a wrapped result is exact, and the records of results.
--   Alu/Aggregate   extractvalue and insertvalue over a data layout that is given; Alu/Fields, Alu/Insert.
--   Alu/Execute     constants, setValue, intraStep and the loop of exec on a block of integer
--                   instructions, with the symbolic values of registers a partial map. isSkipped, the
--                   value of a havocked register and the comparison of pointers are arguments.
--   Alu/Phi         the phi nodes on an edge, and execEdg without the path condition that execBr adds.
--   Alu/Simulation, Alu/Constants, Alu/Steps, Alu/Edge: well-typed blocks and phi nodes, and how their
--                   execution follows a run.
-- Prelude: names of the libraries, Boolean tests and lists over the native numbers.
--
-- Fuel. A visitor runs on fuel `suc (size e)`, and what is stated of nnf, gather, pp and simplify
-- includes that they have a result: the size of what is still to be visited falls at each call. The
-- recursion of QuickXplain and the loop of deletion run on fuel one above the number of formulas, since
-- each call halves its range and each iteration either drops a formula or moves on; their results are
-- stated to exist; the loops of unsat_core run on fuel above the size of the core, which falls too.
-- The loop of globalPass runs on fuel above the number of copies of symbols that the
-- blocks together can still take, since each pass that finds something new uses up one. Everything else
-- is structural recursion.
--
-- Assumptions are arguments of the theorems that use them: a well-typed block of integer instructions
-- uses the widths for which the unit has terms, and a run of it has no undefined behaviour; a solver
-- whose answers are right, a total order of nodes, an order of blocks that is topological but for its
-- back-edges and has every block, llvm::alignTo as the next multiple of a positive alignment where no
-- sum passes 64 bits, and what malloc returned. Addresses of the runtime are numbers below 2 ^ 63,
-- where intptr_t is not negative. mem_alloc and mem_init are none where a memcpy would read behind the
-- eight bytes of the value, and mem_alloc where its loop never ends, since the index has 32 bits.
--
-- Not modelled: reference counts and the unique table of ENode, the operational semantics of memory,
-- calls and branch conditions, and all transformations of LLVM code (they work on LLVM's data
-- structures, which are not part of the repository), the converters to Z3 and Yices, text output, logging and command-line tools.
pub mod Alloc
pub mod Alu
pub mod CutPoints
pub mod Expr
pub mod Horn
pub mod HornModel
pub mod Live
pub mod Muc
pub mod Prelude
pub mod Runtime
